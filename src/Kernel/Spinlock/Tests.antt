-- ===== src/Kernel/Spinlock/Tests.antt =====
-- Tests of the model of xv6/spinlock.c, and its theorems at a concrete state.
use laboratorio_lukitas.Common.{ℕ, ◌≡◌, refl, true, false, none, update}
use laboratorio_lukitas.Kernel.Spinlock.{
  Locks, pushcli, popcli, try_lock, acquire, release, acquire_panics,
}
use laboratorio_lukitas.Kernel.Spinlock.Exclusion.{
  Place, inside, outside, Reach, unlocked, next, enters, got, entered, taken,
}
use laboratorio_lukitas.Kernel.Spinlock.Critical.{Released, one_inside, release_returns}

abbrev idle : Locks
idle = record {
  lock = record { locked = false; cpu = none };
  cpus = λ p. record { interrupts = true; ncli = 0; intena = false };
}

-- Processor 3 is inside the critical section.
abbrev busy_lock : Locks
busy_lock = taken (entered idle 3) 3

abbrev three : ℕ
three = 3

places : ℕ → Place
places = update (λ _. outside) 3 inside

busy_lock-Reach : Reach busy_lock places
unfolding acquire try_lock pushcli places
busy_lock-Reach = next (unlocked {m = idle} refl (λ p. refl)) (enters 3 refl got)

acquire_twice : acquire busy_lock 3 ≡ acquire_panics
unfolding acquire pushcli
acquire_twice = refl

popcli_of_nothing : popcli (idle.cpus 0) ≡ none
unfolding popcli
popcli_of_nothing = refl

one_inside_example : three ≡ three
unfolding places
one_inside_example = one_inside busy_lock places three three busy_lock-Reach refl refl

release_returns_example : Released busy_lock 3 (release busy_lock 3)
unfolding places
release_returns_example = release_returns busy_lock places 3 busy_lock-Reach refl
