-- ===== src/Kernel/Log/Commit.antt =====
-- `commit` of xv6/log.c: the disk after each of its writes, and at its end.
use laboratorio_lukitas.Common.{ℕ, ◌≤◌, ◌≡◌, refl, sym, subst, ◌⊎◌, inl, inr, none, arith, lt_cases}
use laboratorio_lukitas.Kernel.Log.{Disk, Machine, bread, bwrite, write_head, write_log, commit}
use laboratorio_lukitas.Kernel.Log.Disks.{Recovers, clean_Recovers}
use laboratorio_lukitas.Kernel.Log.Trace.{Safe, bwrite-Safe}
use laboratorio_lukitas.Kernel.Log.Install.{Installing, Installing-Recovers, bread-unpinned}
use laboratorio_lukitas.Kernel.Log.Clear.{Cleared, finish, finish-Cleared, finish-Safe}
use laboratorio_lukitas.Kernel.Log.WriteLog.{
  Ready, Logging, write_log_keeps, write_log-Logging, write_log-Safe, head-Installing,
}

-- Recovery leads to the disk before the commit, or to the one after it.
abbrev pub Either : Machine → Disk → Type 0
Either m d = Recovers m.start m.disk d ⊎ Recovers m.start (bread m) d

module _ (m : Machine) (r : Ready m) where
  first : Logging m.disk (bread m) m 0
  first = record {
    ready = r;
    agrees = λ b out. refl;
    same = λ b out. refl;
    logged = λ i k. absurd (omega arith);
  }

  abbrev headed : Machine
  headed = write_head (write_log m)

  headed-start : headed.start ≡ m.start
  unfolding write_head bwrite
  headed-start = (write_log_keeps m first).0

  headed-Installing : Installing (bread m) headed 0
  headed-Installing = head-Installing (write_log m) (write_log-Logging m first)

  -- With nothing logged there is nothing pinned either.
  empty-Cleared : m.lh.n ≤ 0 → Cleared (bread m) m.start m
  empty-Cleared le = record {
    at = refl;
    disk_clean = record {
      room = r.room;
      count = r.count;
      agrees = λ b out. sym (bread-unpinned m b (unpinned b));
    };
    unpinned = unpinned;
    emptied = omega arith;
  }
    where
      unpinned : (b : ℕ) → m.dirty b ≡ none
      unpinned b = elim (r.pins b) [ inl e ↦ e | inr (i, k, _) ↦ absurd (omega arith) ]

  pub commit-Cleared : Cleared (bread m) m.start (commit m)
  unfolding commit
  commit-Cleared = elim (lt_cases 0 m.lh.n) [
    | inl (_, t) ↦ rw t (
        subst (λ s. Cleared (bread m) s (finish headed)) headed-start
          (finish-Cleared headed headed-Installing))
    | inr (le, t) ↦ rw t (empty-Cleared le)
  ]

  pub old_Recovers : Recovers m.start m.disk m.disk
  old_Recovers = clean_Recovers (record { room = r.room; count = r.count; agrees = λ b out. refl })

  new_Either : (d : Disk) → Recovers headed.start (bread m) d → Either m d
  new_Either d h = inr (subst (λ s. Recovers s (bread m) d) headed-start h)

  pub commit-Safe : Safe (Either m) m.disk m → Safe (Either m) m.disk (commit m)
  unfolding commit bwrite
  commit-Safe s = elim (lt_cases 0 m.lh.n) [
    | inl (_, t) ↦ rw t (finish-Safe headed headed-Installing new_Either committed)
    | inr (_, t) ↦ rw t s
  ]
    where
      logged : Safe (Either m) m.disk (write_log m)
      logged = write_log-Safe m first (λ e h. inl h) s

      committed : Safe (Either m) m.disk headed
      committed =
          unfold write_head in
          bwrite-Safe (Either m) (write_log m).start _ logged
            (new_Either _ (Installing-Recovers 0 headed-Installing))
