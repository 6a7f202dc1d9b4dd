-- ===== src/Uthread/Stranded.antt =====
-- A thread of xv6/uthreadlib.c that yields when no other can run.
use laboratorio_lukitas.Common.{
  ℕ, zero, suc, ◌+◌, ◌%◌, ◌≤◌, ◌<◌, ◌≡◌, refl, sym, ◌∙◌, ap, subst, ◌≢◌, inl, inr, true, false,
  replicate, arith, eq_cases, update, update_self, update_ne,
}
use laboratorio_lukitas.Uthread.{Threads, running, runnable, is_runnable, switch_to}
use laboratorio_lukitas.Uthread.Pick.{Ready}
use laboratorio_lukitas.Uthread.Turns.{Scheduled, moved, fell_back, leave, turn, turn_lem, run}

-- Thread 0 runs, and `j` is the only other thread that can; it was the last one picked.
pub record Stranded (t : Threads) (j : ℕ) : Type 0 where
  pub on_zero : t.current ≡ 0
  pub last : t.last_index ≡ j
  pub below : j < 8
  pub not_zero : j ≢ 0
  pub able : is_runnable (t.state j) ≡ true
  pub alone : (k : ℕ) → k < 8 → k ≢ j → k ≢ 0 → is_runnable (t.state k) ≡ false

-- Nobody else is ready once the current thread has yielded.
Alone : Threads → Type 0
Alone t = (d : ℕ) → 1 ≤ d → d < 8 → ¬ Ready t ((t.last_index + d) % 8)

back_to_zero : (t u : Threads) → Alone t → Scheduled t u → u ≡ switch_to 0 t
unfolding Alone
back_to_zero t _ none_ready (moved d lo up ready _) = absurd (none_ready d lo up ready)
back_to_zero t _ none_ready (fell_back _) = refl

-- The only thread that can run, not thread 0, yields: thread 0 runs, whatever its state was, and
-- the thread that yielded is left to be picked.
yield-Stranded :
    (t : Threads) (j : ℕ)
    → t.current ≡ j
    → t.last_index ≡ j
    → j < 8
    → j ≢ 0
    → ((k : ℕ) → k < 8 → k ≢ j → is_runnable (t.state k) ≡ false)
    → Stranded (turn true t) j
unfolding Alone
yield-Stranded t j cur last below ne alone =
    subst (λ u. Stranded u j) (sym after)
      (elim (eq_cases t.current 0) [
        | inl (e, _) ↦ absurd (ne (sym cur ∙ e))
        | inr (_, q) ↦ rw q (record {
          on_zero = refl;
          last = last;
          below = below;
          not_zero = ne;
          able = ap is_runnable (
              update_ne (update t.state t.current runnable) 0 running j (λ e. ne (sym e))
              ∙ subst (λ i. update t.state t.current runnable i ≡ runnable) cur
                  (update_self t.state t.current runnable));
          alone = λ k lk kj kz.
              ap is_runnable (
                update_ne (update t.state t.current runnable) 0 running k (λ e. kz (sym e))
                ∙ update_ne t.state t.current runnable k (λ e. kj (sym e ∙ cur)))
              ∙ alone k lk kj;
        })
      ])
  where
    nobody_ready : Alone (leave runnable t)
    nobody_ready d lo up r =
        let other : (t.last_index + d) % 8 ≢ j = omega arith in
        cc (
          sym r.state
          ∙ ap is_runnable (
              update_ne t.state t.current runnable ((t.last_index + d) % 8)
                (λ e. other (sym e ∙ cur)))
          ∙ alone ((t.last_index + d) % 8) (omega arith) other)

    after : turn true t ≡ switch_to 0 (leave runnable t)
    after = back_to_zero (leave runnable t) (turn true t) nobody_ready (turn_lem true t)

-- Thread 0 yields: it goes on, and the other thread is not picked.
zero-Stranded : (t : Threads) (j : ℕ) → Stranded t j → Stranded (turn true t) j
unfolding Alone
zero-Stranded t j s =
    subst (λ u. Stranded u j) (sym after)
      (elim (eq_cases t.current 0) [
        | inr (ne, _) ↦ absurd (ne s.on_zero)
        | inl (_, q) ↦ rw q (record {
          on_zero = s.on_zero;
          last = s.last;
          below = s.below;
          not_zero = s.not_zero;
          able =
              ap is_runnable
                (update_ne t.state t.current runnable j (λ e. s.not_zero (sym e ∙ s.on_zero)))
              ∙ s.able;
          alone = λ k lk kj kz.
              ap is_runnable (update_ne t.state t.current runnable k (λ e. kz (sym e ∙ s.on_zero)))
              ∙ s.alone k lk kj kz;
        })
      ])
  where
    nobody_ready : Alone (leave runnable t)
    nobody_ready d lo up r =
        let other : (t.last_index + d) % 8 ≢ j = omega (arith, s.last, s.below) in
        let not_zero : (t.last_index + d) % 8 ≢ 0 = λ e. r.other (e ∙ sym s.on_zero) in
        cc (
          sym r.state
          ∙ ap is_runnable (
              update_ne t.state t.current runnable ((t.last_index + d) % 8)
                (λ e. not_zero (sym e ∙ s.on_zero)))
          ∙ s.alone ((t.last_index + d) % 8) (omega arith) other not_zero)

    after : turn true t ≡ switch_to 0 (leave runnable t)
    after = back_to_zero (leave runnable t) (turn true t) nobody_ready (turn_lem true t)

-- When a thread other than 0 was the last one picked and yields while no other can run, thread 0
-- runs, whatever its state was; the thread stays runnable, and never runs again however often
-- thread 0 yields.
pub lone_yield_strands :
    (n : ℕ) (t : Threads) (j : ℕ)
    → t.current ≡ j
    → t.last_index ≡ j
    → j < 8
    → j ≢ 0
    → ((k : ℕ) → k < 8 → k ≢ j → is_runnable (t.state k) ≡ false)
    → Stranded (run (replicate (suc n) true) t) j
unfolding run
lone_yield_strands n t j cur last below ne alone =
    stays n (turn true t) (yield-Stranded t j cur last below ne alone)
  where
    stays : (m : ℕ) (u : Threads) → Stranded u j → Stranded (run (replicate m true) u) j
    stays zero u s = s
    stays (suc m) u s = stays m (turn true u) (zero-Stranded u j s)
