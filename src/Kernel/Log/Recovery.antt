-- ===== src/Kernel/Log/Recovery.antt =====
-- `initlog` and `recover_from_log` of xv6/log.c, also when the power fails while they run.
use laboratorio_lukitas.Common.{
  ℕ, suc, ◌<◌, ◌≡◌, refl, sym, ap, subst, ◌∙◌, inl, inr, arith, List, [], ◌∷◌, length, get_or,
  replicate, length-replicate,
}
use laboratorio_lukitas.Kernel.Log.{
  Disk, log_size, bread, read_entries, read_head, recover_from_log, boot, initlog,
}
use laboratorio_lukitas.Kernel.Log.Header.{get_or-read_entries, length-read_entries}
use laboratorio_lukitas.Kernel.Log.Disks.{Outside, IsClean, IsCommitted, Recovers, committed}
use laboratorio_lukitas.Kernel.Log.Trace.{Safe, Along-take, after_crash}
use laboratorio_lukitas.Kernel.Log.Install.{Installing, home}
use laboratorio_lukitas.Kernel.Log.Clear.{Cleared, finish-Cleared, finish-Safe}

module _ (start size : ℕ) {V d : Disk} where
  module _ (n : ℕ) (homes : List ℕ) (c : IsCommitted start n homes V d) where
    length_entries :
        length (read_entries (get_or (d start) 0 0) 0 (d start) (replicate log_size 0)) ≡ log_size
    length_entries =
        length-read_entries (get_or (d start) 0 0) 0 (d start) (replicate log_size 0)
        ∙ length-replicate {A = ℕ} log_size 0

    -- `read_head` brings the entries of the header on the disk to memory.
    entry : (i : ℕ) → i < n → home (read_head (boot start size d)) i ≡ get_or (d start) (suc i) 0
    unfolding read_head bread
    entry i k =
        get_or-read_entries (get_or (d start) 0 0) 0 (d start) (replicate log_size 0) i
          (omega arith) (omega (arith, c.count)) (omega (arith, c.count, c.few))

    entry_home : (i : ℕ) → i < n → home (read_head (boot start size d)) i ≡ get_or homes i 0
    entry_home i k = entry i k ∙ c.names i k

    read_head-Installing : Installing V (read_head (boot start size d)) 0
    unfolding read_head bread
    read_head-Installing = record {
      room = c.room;
      few = omega (arith, c.count, c.few);
      fits = omega (arith, c.count, c.few, length_entries);
      count = refl;
      names = λ i k. sym (entry i (below i k));
      away = λ i k. subst (Outside start) (sym (entry_home i (below i k))) (c.away i (below i k));
      logged = λ i k. c.logged i (below i k) ∙ ap V (sym (entry_home i (below i k)));
      pins = λ b. inl refl;
      rest = λ b out. elim (c.rest b out) [
        | inl e ↦ inl e
        | inr (i, le, lt, e) ↦ inr (i, le, above i lt, entry_home i lt ∙ e)
      ];
    }
      where
        below : (i : ℕ) → i < get_or (d start) 0 0 → i < n
        below i k = omega (arith, c.count)

        above : (i : ℕ) → i < n → i < get_or (d start) 0 0
        above i k = omega (arith, c.count)

  installing : Recovers start V d → Installing V (read_head (boot start size d)) 0
  installing (committed n homes c) = read_head-Installing n homes c

  pub initlog-Cleared : Recovers start V d → Cleared V start (initlog start size d)
  unfolding initlog
  initlog-Cleared r =
      unfold read_head in finish-Cleared (read_head (boot start size d)) (installing r)

  -- Recovery installs the transaction that the log holds, if any, and clears the log.
  pub initlog-IsClean : Recovers start V d → IsClean start V (initlog start size d).disk
  initlog-IsClean r = (initlog-Cleared r).disk_clean

  -- If the power fails after any number of recovery's writes, recovery still has the same effect.
  pub crash_Recovers :
      (k : ℕ)
      → Recovers start V d
      → Recovers start V (after_crash recover_from_log k (boot start size d))
  crash_Recovers k r =
      Along-take (Recovers start V) (recover_from_log (boot start size d)).writes k d safe.along
    where
      booted : Safe (Recovers start V) d (read_head (boot start size d))
      booted = unfold read_head in record { along = r; leads = refl }

      safe : Safe (Recovers start V) d (recover_from_log (boot start size d))
      safe =
          unfold recover_from_log read_head in
          finish-Safe (read_head (boot start size d)) (installing r) (λ e h. h) booted

-- The disk after recoveries that failed after `k` writes each, for the `k` of the list.
abbrev pub failed_boots : ℕ → ℕ → List ℕ → Disk → Disk
failed_boots start size [] d = d
failed_boots start size (k ∷ ks) d =
    failed_boots start size ks (after_crash recover_from_log k (boot start size d))

pub failed_boots-Recovers :
    (start size : ℕ) {V : Disk} (ks : List ℕ) (d : Disk)
    → Recovers start V d
    → Recovers start V (failed_boots start size ks d)
failed_boots-Recovers start size [] d r = r
failed_boots-Recovers start size (k ∷ ks) d r =
    failed_boots-Recovers start size ks (after_crash recover_from_log k (boot start size d))
      (crash_Recovers start size k r)
