-- ===== src/Kernel/Log/Atomic.antt =====
-- Transactions of xv6/log.c under power failures.
use laboratorio_lukitas.Common.{ℕ, refl, ◌⊎◌, inl, inr, List, []}
use laboratorio_lukitas.Kernel.Log.{Disk, Machine, bread, commit, initlog}
use laboratorio_lukitas.Kernel.Log.Disks.{Agrees, IsClean, Recovers}
use laboratorio_lukitas.Kernel.Log.Trace.{Safe, Along-take, after_crash}
use laboratorio_lukitas.Kernel.Log.Clear.{Cleared}
use laboratorio_lukitas.Kernel.Log.WriteLog.{Ready}
use laboratorio_lukitas.Kernel.Log.Commit.{Either, commit-Cleared, commit-Safe, old_Recovers}
use laboratorio_lukitas.Kernel.Log.Recovery.{initlog-IsClean, failed_boots, failed_boots-Recovers}

crashed : (m : Machine) → Ready m → (k : ℕ) → Either m (after_crash commit k m)
crashed m r k =
    unfold bread in
    Along-take (Either m) (commit quiet).writes k m.disk (commit-Safe quiet ready start).along
  where
    quiet : Machine
    quiet = record m { writes = [] }

    ready : Ready quiet
    ready = record {
      room = r.room;
      count = r.count;
      few = r.few;
      fits = r.fits;
      away = r.away;
      pins = r.pins;
    }

    start : Safe (Either quiet) m.disk quiet
    start = record { along = inl (old_Recovers quiet ready); leads = refl }

module _ (m : Machine) (r : Ready m) (size : ℕ) where
  -- Where `commit` may run, let the power fail after any number of its disk writes, and then again
  -- after any numbers of writes of the recoveries that follow: the recovery that completes leaves
  -- all blocks outside the log as they were before the commit, or all as the committing kernel saw
  -- them through its cache.
  pub commit-atomic :
      (k : ℕ) (ks : List ℕ)
      → let d = failed_boots m.start size ks (after_crash commit k m) in
        Agrees m.start m.disk (initlog m.start size d).disk
        ⊎ Agrees m.start (bread m) (initlog m.start size d).disk
  commit-atomic k ks = elim (crashed m r k) [
    | inl h ↦ inl (recovered h)
    | inr h ↦ inr (recovered h)
  ]
    where
      recovered :
          {V : Disk}
          → Recovers m.start V (after_crash commit k m)
          → Agrees m.start V
              (initlog m.start size (failed_boots m.start size ks (after_crash commit k m))).disk
      recovered h =
          (initlog-IsClean m.start size (failed_boots-Recovers m.start size ks _ h)).agrees

-- A commit that returns is durable: every block outside the log is on the disk as the kernel saw it
-- before the call, the header on the disk and in memory lists no block, and nothing stays pinned.
pub commit-durable : (m : Machine) → Ready m → Cleared (bread m) m.start (commit m)
commit-durable m r = commit-Cleared m r

-- Recovery of a disk that holds a committed or an empty transaction with contents `V` ends with the
-- blocks `V` outside the log and a clear header, however often it was cut short by a power failure.
pub recovery_idempotent :
    (start size : ℕ) {V d : Disk} (ks : List ℕ)
    → Recovers start V d
    → IsClean start V (initlog start size (failed_boots start size ks d)).disk
recovery_idempotent start size {V} {d} ks h =
    initlog-IsClean start size (failed_boots-Recovers start size ks d h)
