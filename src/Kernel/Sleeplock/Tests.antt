-- ===== src/Kernel/Sleeplock/Tests.antt =====
-- Tests of the model of xv6/sleeplock.c, and its theorems at a concrete state.
use laboratorio_lukitas.Common.{ℕ, ◌≡◌, refl, ◌↔◌, true, update}
use laboratorio_lukitas.Kernel.Sleeplock.{
  Sleeplock, Place, outside, asleep, woken, inside, initsleeplock, acquiresleep, releasesleep,
  holdingsleep,
}
use laboratorio_lukitas.Kernel.Sleeplock.Waiting.{
  Reach, unlocked, next, enters, waits, goes_in, holdingsleep-inside, sleeper_has_holder,
}

-- Process 4 is inside, and process 7 sleeps.
abbrev held : Sleeplock
held = record { locked = true; pid = 4 }

abbrev places : ℕ → Place
places = update (update (λ _. outside) 4 inside) 7 asleep

held-Reach : Reach held places
unfolding initsleeplock acquiresleep
held-Reach =
    next (next (unlocked {at = λ _. outside} (λ p. refl)) (enters 4 refl goes_in))
      (enters 7 refl waits)

holdingsleep-inside_example : (holdingsleep held 4 ≡ true) ↔ (places 4 ≡ inside)
holdingsleep-inside_example = holdingsleep-inside held places 4 held-Reach

sleeper_has_holder_example :
    (held.locked ≡ true) × (places held.pid ≡ inside) × ((releasesleep places).1 7 ≡ woken)
sleeper_has_holder_example = sleeper_has_holder held places 7 held-Reach refl
