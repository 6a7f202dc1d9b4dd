-- ===== src/Kernel/Log/Keeps.antt =====
-- The fields of `struct log` in xv6/log.c that `commit` leaves alone.
use laboratorio_lukitas.Common.{ℕ, zero, suc, ◌+◌, ◌≡◌, refl, ◌∙◌, inl, inr, lt_cases}
use laboratorio_lukitas.Kernel.Log.{
  Disk, Machine, read_head, boot, initlog, bread, bwrite, install_from, install_trans, write_head,
  clear_head, write_log_from, write_log, commit,
}
use laboratorio_lukitas.Kernel.Log.Install.{home}
use laboratorio_lukitas.Kernel.Log.Clear.{finish}

pub record Keeps (m m' : Machine) : Type 0 where
  pub start : m'.start ≡ m.start
  pub size : m'.size ≡ m.size
  pub outstanding : m'.outstanding ≡ m.outstanding
  pub committing : m'.committing ≡ m.committing
  pub block : m'.lh.block ≡ m.lh.block

Keeps-trans : {a b c : Machine} → Keeps a b → Keeps b c → Keeps a c
Keeps-trans h k = record {
  start = k.start ∙ h.start;
  size = k.size ∙ h.size;
  outstanding = k.outstanding ∙ h.outstanding;
  committing = k.committing ∙ h.committing;
  block = k.block ∙ h.block;
}

install-Keeps : (rounds tail : ℕ) (m : Machine) → Keeps m (install_from rounds tail m)
unfolding install_from bwrite
install-Keeps zero tail m = record {
  start = refl;
  size = refl;
  outstanding = refl;
  committing = refl;
  block = refl;
}
install-Keeps (suc rounds) tail m =
    let h =
      install-Keeps rounds (suc tail) (bwrite m (home m tail) (bread m (m.start + suc tail))) in
    record {
      start = h.start;
      size = h.size;
      outstanding = h.outstanding;
      committing = h.committing;
      block = h.block;
    }

log-Keeps : (rounds tail : ℕ) (m : Machine) → Keeps m (write_log_from rounds tail m)
unfolding write_log_from bwrite
log-Keeps zero tail m = record {
  start = refl;
  size = refl;
  outstanding = refl;
  committing = refl;
  block = refl;
}
log-Keeps (suc rounds) tail m =
    let h = log-Keeps rounds (suc tail) (bwrite m (m.start + suc tail) (bread m (home m tail))) in
    record {
      start = h.start;
      size = h.size;
      outstanding = h.outstanding;
      committing = h.committing;
      block = h.block;
    }

head-Keeps : (m : Machine) → Keeps m (write_head m)
unfolding write_head bwrite
head-Keeps m = record {
  start = refl;
  size = refl;
  outstanding = refl;
  committing = refl;
  block = refl;
}

clear-Keeps : (m : Machine) → Keeps m (clear_head m)
clear-Keeps m = record {
  start = refl;
  size = refl;
  outstanding = refl;
  committing = refl;
  block = refl;
}

-- `install_trans`, `lh.n = 0` and `write_head`.
finish-Keeps : (m : Machine) → Keeps m (finish m)
finish-Keeps m =
    Keeps-trans installed
      (Keeps-trans (clear-Keeps (install_trans m)) (head-Keeps (clear_head (install_trans m))))
  where
    installed : Keeps m (install_trans m)
    installed = unfold install_trans in install-Keeps m.lh.n 0 m

pub commit-Keeps : (m : Machine) → Keeps m (commit m)
unfolding commit
commit-Keeps m = elim (lt_cases 0 m.lh.n) [
  | inl (_, t) ↦ rw t (Keeps-trans logged (finish-Keeps (write_head (write_log m))))
  | inr (_, t) ↦
      rw t
        (record { start = refl; size = refl; outstanding = refl; committing = refl; block = refl })
]
  where
    written : Keeps m (write_log m)
    written = unfold write_log in log-Keeps m.lh.n 0 m

    logged : Keeps m (write_head (write_log m))
    logged = Keeps-trans written (head-Keeps (write_log m))

pub initlog-Keeps :
    (start size : ℕ) (d : Disk) → Keeps (read_head (boot start size d)) (initlog start size d)
unfolding initlog
initlog-Keeps start size d = finish-Keeps (read_head (boot start size d))
