-- ===== src/Uthread/Turns.antt =====
-- What one call of the scheduler of xv6/uthreadlib.c does.
use laboratorio_lukitas.Common.{
  ℕ, ◌+◌, ◌%◌, ◌≤◌, ◌<◌, ◌≡◌, refl, sym, ◌≢◌, inl, inr, Option, Bool, true, false, List, [], ◌∷◌,
  arith, leb, eq_cases, update,
}
use laboratorio_lukitas.Uthread.{
  Threads, ThreadState, free, running, runnable, max_thread, pick, thread_schedule, thread_yield,
  thread_exit, switch_to, when_none,
}
use laboratorio_lukitas.Uthread.Pick.{Ready, Picked, nobody, first, pick_lem}

-- The state when `k` has been picked.
abbrev pub run_thread : ℕ → Threads → Threads
run_thread k t = record { state = update t.state k running; last_index = k; current = k }

pub data Scheduled (t : Threads) : Threads → Type 0 where
  moved :
      (d : ℕ)
      → 1 ≤ d
      → d < 8
      → Ready t ((t.last_index + d) % 8)
      → ((e : ℕ) → 1 ≤ e → e < d → ¬ Ready t ((t.last_index + e) % 8))
      → Scheduled t (run_thread ((t.last_index + d) % 8) t)
  fell_back :
      ((d : ℕ) → 1 ≤ d → d < 8 → ¬ Ready t ((t.last_index + d) % 8)) → Scheduled t (switch_to 0 t)

switch-picked :
    (t : Threads) (k : ℕ)
    → k ≢ t.current
    → switch_to k (record t { last_index = k }) ≡ run_thread k t
switch-picked t k ne = elim (eq_cases t.current k) [
  | inl (e, _) ↦ absurd (ne (sym e))
  | inr (_, q) ↦ rw q refl
]

when_none-zero : (t : Threads) (a : ℕ) → when_none (a % 8) t ≡ 0
when_none-zero t a = rw test refl
  where
    test : leb max_thread (a % 8) ≡ false
    test = ground arith

-- `thread_schedule` switches to the first ready thread after `last_index`, in the order of the
-- array and around its end; if none of the seven that it looks at is ready, to thread 0.
pub thread_schedule_lem : (t : Threads) → Scheduled t (thread_schedule t)
unfolding thread_schedule
thread_schedule_lem t = picked (pick 7 1 t) refl (pick_lem 7 1 8 t refl)
  where
    picked : (o : Option ℕ) → pick 7 1 t ≡ o → Picked t 1 8 o → Scheduled t (thread_schedule t)
    picked _ e (nobody none_ready) =
        rw (e, thread_schedule) (rw (when_none-zero t (t.last_index + 7)) (fell_back none_ready))
    picked _ e (first d lo up ready before) =
        rw (e, thread_schedule)
          (rw (switch-picked t ((t.last_index + d) % 8) ready.other) (moved d lo up ready before))

-- The current thread gives up the processor, in the state that it is left in.
abbrev pub leave : ThreadState → Threads → Threads
leave s t = record t { state = update t.state t.current s }

-- A turn of the current thread: `thread_yield` or `thread_exit`.
unfoldable pub turn : Bool → Threads → Threads
turn true t = thread_yield t
turn false t = thread_exit t

unfoldable pub run : List Bool → Threads → Threads
run [] t = t
run (b ∷ bs) t = run bs (turn b t)

abbrev pub left_as : Bool → ThreadState
left_as true = runnable
left_as false = free

pub turn_lem : (b : Bool) (t : Threads) → Scheduled (leave (left_as b) t) (turn b t)
unfolding turn thread_yield thread_exit
turn_lem true t = thread_schedule_lem (leave runnable t)
turn_lem false t = thread_schedule_lem (leave free t)
