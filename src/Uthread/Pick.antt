-- ===== src/Uthread/Pick.antt =====
-- Which thread `thread_schedule` of xv6/uthreadlib.c picks.
use laboratorio_lukitas.Common.{
  ℕ, zero, suc, ◌+◌, ◌%◌, ◌≤◌, ◌<◌, ◌≡◌, refl, sym, ◌∙◌, subst, ◌≢◌, ◌⊎◌, inl, inr, Option, none,
  some, true, false, not, ◌&&◌, arith, ◌==◌, eq_cases, Bool-cases,
}
use laboratorio_lukitas.Uthread.{Threads, is_runnable, pick}

-- The thread can be switched to.
pub record Ready (t : Threads) (j : ℕ) : Type 0 where
  pub state : is_runnable (t.state j) ≡ true
  pub other : j ≢ t.current

-- The first ready thread after `last_index`, from the offset `lo` on and below `hi`.
pub data Picked (t : Threads) (lo hi : ℕ) : Option ℕ → Type 0 where
  nobody : ((d : ℕ) → lo ≤ d → d < hi → ¬ Ready t ((t.last_index + d) % 8)) → Picked t lo hi none
  first :
      (d : ℕ)
      → lo ≤ d
      → d < hi
      → Ready t ((t.last_index + d) % 8)
      → ((e : ℕ) → lo ≤ e → e < d → ¬ Ready t ((t.last_index + e) % 8))
      → Picked t lo hi (some ((t.last_index + d) % 8))

Ready-test :
    (t : Threads) (j : ℕ)
    → (Ready t j × ((is_runnable (t.state j) && not (j == t.current)) ≡ true))
      ⊎ ((¬ Ready t j) × ((is_runnable (t.state j) && not (j == t.current)) ≡ false))
Ready-test t j = elim (Bool-cases (is_runnable (t.state j))) [
  | inr s ↦ inr (λ r. cc (sym r.state ∙ s), rw s refl)
  | inl s ↦ elim (eq_cases j t.current) [
    | inl (e, q) ↦ inr (λ r. r.other e, rw (s, q) refl)
    | inr (ne, q) ↦ inl (record { state = s; other = ne }, rw (s, q) refl)
  ]
]

pub pick_lem : (rounds i hi : ℕ) (t : Threads) → hi ≡ i + rounds → Picked t i hi (pick rounds i t)
unfolding pick
pick_lem zero i hi t e = nobody (λ d lo up. absurd (omega arith))
pick_lem (suc rounds) i hi t e = elim (Ready-test t ((t.last_index + i) % 8)) [
  | inl (r, q) ↦
      rw (q, pick) (first i (omega arith) (omega arith) r (λ d lo up. absurd (omega arith)))
  | inr (r, q) ↦
      rw (q, pick) (later r (pick rounds (suc i) t) (pick_lem rounds (suc i) hi t (omega arith)))
]
  where
    skipped :
        (d : ℕ) → ¬ Ready t ((t.last_index + i) % 8) → i ≡ d → ¬ Ready t ((t.last_index + d) % 8)
    skipped d r e = subst (λ k. ¬ Ready t ((t.last_index + k) % 8)) e r

    later :
        ¬ Ready t ((t.last_index + i) % 8)
        → (o : Option ℕ) → Picked t (suc i) hi o
        → Picked t i hi o
    later r _ (nobody none_later) = nobody (λ d lo up. elim (eq_cases i d) [
      | inl (e, _) ↦ skipped d r e
      | inr (ne, _) ↦ none_later d (omega arith) up
    ])
    later r _ (first d lo up ready before) = first d (omega arith) up ready (λ k low below.
        elim (eq_cases i k) [
          | inl (e, _) ↦ skipped k r e
          | inr (ne, _) ↦ before k (omega arith) below
        ])
