-- ===== src/Kernel/Log/Reserve.antt =====
-- The space that `begin_op` of xv6/log.c reserves is enough, in every interleaving.
use laboratorio_lukitas.Common.{
  ℕ, ◌<◌, ◌≡◌, refl, sym, ap, subst, ◌∙◌, inl, [], arith, length, length-replicate, get_or,
}
use laboratorio_lukitas.Kernel.Log.{Disk, Machine, log_size, bread, read_head, boot, initlog}
use laboratorio_lukitas.Kernel.Log.Disks.{Recovers}
use laboratorio_lukitas.Kernel.Log.Header.{length-read_entries}
use laboratorio_lukitas.Kernel.Log.Clear.{Cleared}
use laboratorio_lukitas.Kernel.Log.WriteLog.{Ready}
use laboratorio_lukitas.Kernel.Log.Recovery.{initlog-Cleared}
use laboratorio_lukitas.Kernel.Log.Keeps.{Keeps, initlog-Keeps}
use laboratorio_lukitas.Kernel.Log.System.{System, Inv}

-- A cleared log is ready for the next transaction.
Cleared-Ready : {V : Disk} (start : ℕ) (m : Machine) → Cleared V start m → Ready m
Cleared-Ready start m c = record {
  room = subst (λ s. log_size < length (m.disk s)) (sym c.at) c.disk_clean.room;
  count = subst (λ s. get_or (m.disk s) 0 0 ≡ 0) (sym c.at) c.disk_clean.count;
  few = omega (arith, c.emptied);
  fits = omega (arith, c.emptied);
  away = λ i lt. absurd (omega (arith, c.emptied));
  pins = λ b. inl (c.unpinned b);
}

-- The kernel starts in such a state: after `initlog` on a disk that holds an empty or a committed
-- transaction, with a log of more than LOGSIZE blocks, the invariant holds with no call running.
pub initlog-Inv :
    (start size : ℕ) {V d : Disk}
    → Recovers start V d
    → log_size < size
    → Inv (initlog start size d) []
initlog-Inv start size {V} {d} h big = record {
  ready = Cleared-Ready start (initlog start size d) cleared;
  distinct = λ i j li lj _. absurd (omega (arith, cleared.emptied));
  array = ap length kept.block ∙ length_booted;
  roomy = omega (arith, kept.size, booted_size);
  alone = λ _. refl;
  counted = kept.outstanding ∙ booted_outstanding;
  capped = tt;
  space = omega (arith, cleared.emptied);
}
  where
    cleared : Cleared V start (initlog start size d)
    cleared = initlog-Cleared start size h

    kept : Keeps (read_head (boot start size d)) (initlog start size d)
    kept = initlog-Keeps start size d

    booted_size : (read_head (boot start size d)).size ≡ size
    booted_size = unfold read_head in refl

    booted_outstanding : (read_head (boot start size d)).outstanding ≡ 0
    booted_outstanding = unfold read_head in refl

    length_booted : length (read_head (boot start size d)).lh.block ≡ log_size
    length_booted =
        unfold read_head bread in
        length-read_entries (get_or (d start) 0 0) 0 (d start) (boot start size d).lh.block
        ∙ length-replicate {A = ℕ} log_size 0
