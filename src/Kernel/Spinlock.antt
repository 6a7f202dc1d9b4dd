-- ===== src/Kernel/Spinlock.antt =====
-- xv6/spinlock.c: one lock and the interrupt flags of the processors that take it. Each processor's
-- step is atomic, the `xchg` with the note of the owner after it; the saved call stack is left out.
pub mod Exclusion
pub mod Critical
mod Tests
use laboratorio_lukitas.Common.{
  ℕ, zero, suc, ◌+◌, ◌-◌, Bool, true, false, not, ◌&&◌, Option, none, some, ltb, ◌==◌,
  if◌then◌else◌, update,
}

-- `interrupts` is FL_IF of the processor.
pub record Cpu : Type 0 where
  pub interrupts : Bool
  pub ncli : ℕ
  pub intena : Bool

pub record Spinlock : Type 0 where
  pub locked : Bool
  pub cpu : Option ℕ

pub record Locks : Type 0 where
  pub lock : Spinlock
  pub cpus : ℕ → Cpu

unfoldable pub pushcli : Cpu → Cpu
pushcli c = record {
  interrupts = false;
  ncli = c.ncli + 1;
  intena = if c.ncli == 0 then c.interrupts else c.intena;
}

-- `none` is a panic: interrupts are on, or nothing is left to undo.
unfoldable pub popcli : Cpu → Option Cpu
popcli c =
    if c.interrupts
    then none
    else if c.ncli == 0
    then none
    else some (record c { ncli = c.ncli - 1; interrupts = if c.ncli == 1 then c.intena else false })

abbrev pub is_owner : Option ℕ → ℕ → Bool
is_owner none p = false
is_owner (some q) p = q == p

-- The test of `holding`, whose pushcli and popcli are a matched pair.
abbrev pub holding : Spinlock → ℕ → Bool
holding l p = l.locked && is_owner l.cpu p

pub data Acquire : Type 0 where
  acquire_panics : Acquire
  spins : Locks → Acquire
  acquired : Locks → Acquire

-- One `xchg` of the loop in `acquire`.
unfoldable pub try_lock : Locks → ℕ → Acquire
try_lock m p =
    if m.lock.locked
    then spins m
    else acquired (record m { lock = record { locked = true; cpu = some p } })

-- `acquire` up to the first `xchg`.
unfoldable pub acquire : Locks → ℕ → Acquire
acquire m p =
    let entered = record m { cpus = update m.cpus p (pushcli (m.cpus p)) } in
    if holding m.lock p then acquire_panics else try_lock entered p

-- `none` is a panic.
unfoldable pub release : Locks → ℕ → Option Locks
release m p = if not (holding m.lock p) then none else elim (popcli (m.cpus p)) [
  | none ↦ none
  | some c ↦
      some (record { lock = record { locked = false; cpu = none }; cpus = update m.cpus p c })
]
