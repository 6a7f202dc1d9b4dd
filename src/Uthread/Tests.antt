-- ===== src/Uthread/Tests.antt =====
-- Tests of the model of xv6/uthreadlib.c, and its theorems at concrete states.
use laboratorio_lukitas.Common.{
  ◌≡◌, refl, true, false, none, some, [], ◌∷◌, replicate, arith, update,
}
use laboratorio_lukitas.Uthread.{
  Threads, free, running, runnable, thread_init, pick, thread_schedule, find_thread, thread_create,
  thread_yield, thread_exit,
}
use laboratorio_lukitas.Uthread.Turns.{Scheduled, turn, run, thread_schedule_lem}
use laboratorio_lukitas.Uthread.Wait.{RunsWithin, Ready-runs}
use laboratorio_lukitas.Uthread.Stranded.{Stranded, lone_yield_strands}
use laboratorio_lukitas.Uthread.Create.{Created, thread_create_lem}

abbrev at_start : Threads
at_start = record { state = λ i. free; last_index = 0; current = 5 }

-- Threads 1 and 2 have been created, and thread 1 runs.
abbrev two_threads : Threads
two_threads = record {
  state = update (update (update (λ i. free) 0 running) 1 running) 2 runnable;
  last_index = 1;
  current = 1;
}

-- Thread 1 is the only one besides the main thread.
abbrev one_thread : Threads
one_thread = record {
  state = update (update (λ i. free) 0 running) 1 running;
  last_index = 1;
  current = 1;
}

init_runs_zero : (thread_init at_start).current ≡ 0
unfolding thread_init
init_runs_zero = refl

second_is_next : (run (true ∷ true ∷ []) two_threads).current ≡ 1
unfolding run turn thread_yield thread_schedule pick
second_is_next = refl

exit_then_zero : (run (false ∷ false ∷ []) two_threads).current ≡ 0
unfolding run turn thread_exit thread_schedule pick
exit_then_zero = refl

ninth_thread :
    elim (thread_create (record at_start { state = λ i. runnable })) [
      | none ↦ true
      | some _ ↦ false
    ]
    ≡ true
unfolding thread_create find_thread
ninth_thread = refl

Ready-runs_example : RunsWithin 1 (true ∷ true ∷ []) two_threads 2
Ready-runs_example =
    Ready-runs (true ∷ true ∷ []) 1 2 two_threads (omega arith) (omega arith) refl
      (record { state = refl; other = omega arith }) (omega arith)

lone_yield_strands_example : Stranded (run (replicate 4 true) one_thread) 1
lone_yield_strands_example =
    lone_yield_strands 3 one_thread 1 refl refl (omega arith) (omega arith) (λ k l ne. ground arith)

thread_schedule_lem_example : Scheduled two_threads (thread_schedule two_threads)
thread_schedule_lem_example = thread_schedule_lem two_threads

thread_create_lem_example : Created two_threads (thread_create two_threads)
thread_create_lem_example = thread_create_lem two_threads
