-- ===== src/Kernel/Log/Clear.antt =====
-- The end of `commit` and of `recover_from_log` in xv6/log.c: `lh.n = 0` and `write_head`.
use laboratorio_lukitas.Common.{
  ℕ, ◌≡◌, refl, sym, ap, subst, ◌∙◌, inl, inr, none, arith, get_or, eq_cases, update, update_self,
  update_ne,
}
use laboratorio_lukitas.Kernel.Log.{
  Block, Disk, LogHeader, Machine, bread, bwrite, head_block, write_head, clear_head, install_trans,
}
use laboratorio_lukitas.Kernel.Log.Header.{length-head_block, head_block_count}
use laboratorio_lukitas.Kernel.Log.Disks.{Agrees, IsClean, Recovers, clean_Recovers}
use laboratorio_lukitas.Kernel.Log.Trace.{Safe, bwrite-Safe}
use laboratorio_lukitas.Kernel.Log.Install.{
  Installing, bread-unpinned, log_unpinned, start-install_from, lh-install_from,
  install_trans-Installing, install_trans-Agrees, install_trans-Safe,
}

-- The header is cleared and nothing is pinned.
pub record Cleared (V : Disk) (start : ℕ) (m : Machine) : Type 0 where
  pub at : m.start ≡ start
  pub disk_clean : IsClean start V m.disk
  pub unpinned : (b : ℕ) → m.dirty b ≡ none
  pub emptied : m.lh.n ≡ 0

-- What is left of `commit` and of recovery once the header on the disk names the transaction.
abbrev pub finish : Machine → Machine
finish m = write_head (clear_head (install_trans m))

clear :
    {V : Disk} (m : Machine)
    → Installing V m m.lh.n
    → Agrees m.start V m.disk
    → Cleared V m.start (write_head (clear_head m))
unfolding write_head bwrite
clear {V} m h agree = record {
  at = refl;
  disk_clean = record {
    room = rw (at_start, length-head_block, is_disk) h.room;
    count =
        ap (λ b. get_or b 0 0) at_start
        ∙ head_block_count empty hb (rw is_disk (omega (arith, h.room)));
    agrees = λ b out. update_ne m.disk m.start _ b (omega arith) ∙ agree b out;
  };
  unpinned = λ b. elim (eq_cases m.start b) [
    | inl (e, _) ↦ rw (← e) (update_self m.dirty m.start none)
    | inr (ne, _) ↦ update_ne m.dirty m.start none b ne ∙ unpinned b
  ];
  emptied = refl;
}
  where
    empty : LogHeader
    empty = record { n = 0; block = m.lh.block }

    hb : Block
    hb = bread (clear_head m) m.start

    is_disk : hb ≡ m.disk m.start
    is_disk =
        bread-unpinned (clear_head m) m.start
          (log_unpinned m.lh.n m.start h (omega arith) (omega arith))

    at_start : update m.disk m.start (head_block empty hb) m.start ≡ head_block empty hb
    at_start = update_self m.disk m.start (head_block empty hb)

    unpinned : (b : ℕ) → m.dirty b ≡ none
    unpinned b = elim (h.pins b) [ inl e ↦ e | inr (i, le, lt, _) ↦ absurd (omega arith) ]

module _ {V : Disk} (m : Machine) (h : Installing V m 0) where
  same_start : (install_trans m).start ≡ m.start
  unfolding install_trans
  same_start = start-install_from m.lh.n 0 m

  done : Installing V (install_trans m) (install_trans m).lh.n
  done =
      subst (Installing V (install_trans m)) (sym (ap (λ h. h.n) same_lh))
        (install_trans-Installing m h)
    where
      same_lh : (install_trans m).lh ≡ m.lh
      same_lh = unfold install_trans in lh-install_from m.lh.n 0 m

  pub finish-Cleared : Cleared V m.start (finish m)
  finish-Cleared =
      subst (λ s. Cleared V s (finish m)) same_start
        (clear (install_trans m) done (
          subst (λ s. Agrees s V (install_trans m).disk) (sym same_start)
            (install_trans-Agrees m h)))

  pub finish-Safe :
      {P : Disk → Type 0} {d : Disk}
      → ((e : Disk) → Recovers m.start V e → P e)
      → Safe P d m
      → Safe P d (finish m)
  unfolding write_head bwrite
  finish-Safe {P} {d} imp s =
      bwrite-Safe P (install_trans m).start (head_block cleared.lh hb) again
        (imp _ (clean_Recovers finish-Cleared.disk_clean))
    where
      cleared : Machine
      cleared = clear_head (install_trans m)

      hb : Block
      hb = bread cleared (install_trans m).start

      again : Safe P d cleared
      again = let t = install_trans-Safe m h imp s in record { along = t.along; leads = t.leads }
