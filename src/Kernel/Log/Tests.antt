-- ===== src/Kernel/Log/Tests.antt =====
-- Tests of the model of xv6/log.c, and its theorems at concrete states.
use laboratorio_lukitas.Common.{
  ℕ, zero, suc, ◌+◌, ◌<◌, ◌≡◌, refl, ◌⊎◌, inl, inr, false, none, some, [], ◌∷◌, arith, get_or,
  replicate, update, eq_cases,
}
use laboratorio_lukitas.Kernel.Log.{
  Disk, Machine, bread, bwrite, install_from, install_trans, read_entries, read_head, copy_entries,
  head_block, write_head, recover_from_log, initlog, write_log_from, write_log, commit, absorb,
  enter_block,
}
use laboratorio_lukitas.Kernel.Log.Disks.{Outside, Agrees, IsClean, Recovers, clean_Recovers}
use laboratorio_lukitas.Kernel.Log.Trace.{after_crash}
use laboratorio_lukitas.Kernel.Log.Clear.{Cleared}
use laboratorio_lukitas.Kernel.Log.WriteLog.{Ready}
use laboratorio_lukitas.Kernel.Log.Recovery.{failed_boots}
use laboratorio_lukitas.Kernel.Log.Atomic.{commit-atomic, commit-durable, recovery_idempotent}
use laboratorio_lukitas.Kernel.Log.System.{System}

-- A disk whose block `b` holds the word `b`, with a clear log header in block 2.
abbrev fresh_disk : Disk
fresh_disk = update (λ b. b ∷ []) 2 (replicate 128 0)

-- Blocks 40 and 50 are logged and not yet committed.
abbrev two_logged : Machine
two_logged = record {
  start = 2;
  size = 31;
  outstanding = 0;
  committing = false;
  lh = record { n = 2; block = 40 ∷ 50 ∷ replicate 28 0 };
  disk = fresh_disk;
  dirty = update (update (λ _. none) 40 (some (7 ∷ []))) 50 (some (8 ∷ []));
  writes = [];
}

two_logged-Ready : Ready two_logged
two_logged-Ready = record {
  room = omega arith;
  count = refl;
  few = omega arith;
  fits = omega arith;
  away = outside;
  pins = λ b. elim (eq_cases 50 b) [
    | inl (e, _) ↦ inr (1, omega arith, e)
    | inr (ne, _) ↦ elim (eq_cases 40 b) [
      | inl (e, _) ↦ inr (0, omega arith, e)
      | inr (other, _) ↦ inl (ground arith)
    ]
  ];
}
  where
    outside : (i : ℕ) → i < 2 → Outside 2 (get_or two_logged.lh.block i 0)
    outside zero h = inr (omega arith)
    outside (suc zero) h = inr (omega arith)
    outside (suc (suc i)) h = absurd (omega arith)

-- After 3 writes (two log blocks and the header) the transaction survives the power failure.
crash_after_header : (initlog 2 31 (after_crash commit 3 two_logged)).disk 40 ≡ 7 ∷ []
unfolding commit initlog recover_from_log write_head head_block copy_entries read_head read_entries
    install_trans install_from write_log write_log_from bwrite bread
crash_after_header = refl

-- After 2 it does not.
crash_before_header : (initlog 2 31 (after_crash commit 2 two_logged)).disk 40 ≡ 40 ∷ []
unfolding commit initlog recover_from_log write_head head_block copy_entries read_head read_entries
    install_trans install_from write_log write_log_from bwrite bread
crash_before_header = refl

-- A block that is logged again is absorbed.
absorbed :
    enter_block (record { n = 2; block = 40 ∷ 50 ∷ 0 ∷ [] }) 50
    ≡ record { n = 2; block = 40 ∷ 50 ∷ 0 ∷ [] }
unfolding enter_block absorb
absorbed = refl

commit-atomic_example :
    let d = failed_boots 2 31 (1 ∷ []) (after_crash commit 3 two_logged) in
    Agrees 2 fresh_disk (initlog 2 31 d).disk ⊎ Agrees 2 (bread two_logged) (initlog 2 31 d).disk
commit-atomic_example = commit-atomic two_logged two_logged-Ready 31 3 (1 ∷ [])

commit-durable_example : Cleared (bread two_logged) 2 (commit two_logged)
commit-durable_example = commit-durable two_logged two_logged-Ready

fresh_disk-Recovers : Recovers 2 fresh_disk fresh_disk
fresh_disk-Recovers =
    clean_Recovers (record { room = omega arith; count = refl; agrees = λ b out. refl })

recovery_idempotent_example :
    IsClean 2 fresh_disk (initlog 2 31 (failed_boots 2 31 (0 ∷ 1 ∷ []) fresh_disk)).disk
recovery_idempotent_example = recovery_idempotent 2 31 (0 ∷ 1 ∷ []) fresh_disk-Recovers

abbrev booted : System
booted = record { machine = initlog 2 31 fresh_disk; left = [] }

-- One call is in a transaction.
abbrev one_call : System
one_call = record {
  machine = record booted.machine { outstanding = booted.machine.outstanding + 1 };
  left = 10 ∷ [];
}
