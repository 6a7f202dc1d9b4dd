-- ===== src/Kernel/Sleeplock.antt =====
-- xv6/sleeplock.c: one sleep lock and the processes that take it, each named by its pid. What the code
-- does under the spin lock `lk->lk` is one operation; `sleep` gives that lock up with the test that
-- led to it.
pub mod Waiting
mod Tests
use laboratorio_lukitas.Common.{ℕ, Bool, true, false, ◌&&◌, ◌==◌, if◌then◌else◌}

pub record Sleeplock : Type 0 where
  pub locked : Bool
  pub pid : ℕ

-- What a process is doing about the lock. One that is woken is in the loop of `acquiresleep`.
pub data Place : Type 0 where
  outside asleep woken inside : Place

unfoldable pub initsleeplock : Sleeplock
initsleeplock = record { locked = false; pid = 0 }

pub data Acquire : Type 0 where
  sleeps : Acquire
  acquired : Sleeplock → Acquire

-- `acquiresleep`, from a test of its loop to the next `sleep` or to the end.
unfoldable pub acquiresleep : Sleeplock → ℕ → Acquire
acquiresleep l p = if l.locked then sleeps else acquired (record { locked = true; pid = p })

-- `wakeup` on the lock.
abbrev pub awake : Place → Place
awake outside = outside
awake asleep = woken
awake woken = woken
awake inside = inside

-- The lock, and the places of the processes after its `wakeup`.
unfoldable pub releasesleep : (ℕ → Place) → Sleeplock × (ℕ → Place)
releasesleep at = (record { locked = false; pid = 0 }, λ p. awake (at p))

unfoldable pub holdingsleep : Sleeplock → ℕ → Bool
holdingsleep l p = l.locked && (l.pid == p)
