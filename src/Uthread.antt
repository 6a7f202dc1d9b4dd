-- ===== src/Uthread.antt =====
-- xv6/uthreadlib.c: user threads that switch by themselves. A pointer into `all_thread` is an index;
-- a thread is its state, without its stack. `thread_switch` is that of xv6/uthread_switch.S, which
-- makes the next thread the current one, without the registers that it saves.
pub mod Pick
pub mod Turns
pub mod Wait
pub mod Stranded
pub mod Create
mod Tests
use laboratorio_lukitas.Common.{
  ℕ, zero, suc, ◌+◌, ◌%◌, Bool, true, false, not, ◌&&◌, Option, none, some, leb, ◌==◌,
  if◌then◌else◌, update,
}

abbrev pub max_thread : ℕ
max_thread = 8

pub data ThreadState : Type 0 where
  free running runnable : ThreadState

pub record Threads : Type 0 where
  pub state : ℕ → ThreadState
  pub last_index : ℕ
  pub current : ℕ

abbrev pub is_runnable : ThreadState → Bool
is_runnable free = false
is_runnable running = false
is_runnable runnable = true

abbrev pub is_free : ThreadState → Bool
is_free free = true
is_free running = false
is_free runnable = false

unfoldable pub thread_init : Threads → Threads
thread_init t = record t { current = 0; state = update t.state 0 running }

-- The loop of `thread_schedule` from `i` on: the index at which it breaks.
unfoldable pub pick : ℕ → ℕ → Threads → Option ℕ
pick zero i t = none
pick (suc rounds) i t =
    let indice = (t.last_index + i) % max_thread in
    let rest = pick rounds (suc i) t in
    if is_runnable (t.state indice) && not (indice == t.current) then some indice else rest

-- `thread_switch`: the next thread runs.
abbrev pub thread_switch : ℕ → Threads → Threads
thread_switch next t = record t { current = next }

-- The end of `thread_schedule`, with the next thread.
abbrev pub switch_to : ℕ → Threads → Threads
switch_to next t =
    if t.current == next
    then t
    else thread_switch next (record t { state = update t.state next running })

-- The test after the loop, `at` being the index of `t` there: the current thread, or thread 0.
abbrev pub when_none : ℕ → Threads → ℕ
when_none at t = if leb max_thread at && is_runnable (t.state t.current) then t.current else 0

unfoldable pub thread_schedule : Threads → Threads
thread_schedule t = elim (pick 7 1 t) [
  | some indice ↦ switch_to indice (record t { last_index = indice })
  | none ↦ switch_to (when_none ((t.last_index + 7) % max_thread) t) t
]

-- The search of `thread_create`.
unfoldable pub find_thread : ℕ → ℕ → Threads → Option ℕ
find_thread zero i t = none
find_thread (suc rounds) i t =
    let rest = find_thread rounds (suc i) t in if is_free (t.state i) then some i else rest

-- `thread_create`; `none` when no thread is free and it writes past the end of the array.
unfoldable pub thread_create : Threads → Option Threads
thread_create t = elim (find_thread max_thread 0 t) [
  | none ↦ none
  | some i ↦ some (record t { state = update t.state i runnable })
]

unfoldable pub thread_yield : Threads → Threads
thread_yield t = thread_schedule (record t { state = update t.state t.current runnable })

unfoldable pub thread_exit : Threads → Threads
thread_exit t = thread_schedule (record t { state = update t.state t.current free })
