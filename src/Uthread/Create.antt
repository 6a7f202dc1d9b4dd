-- ===== src/Uthread/Create.antt =====
-- Where `thread_create` of xv6/uthreadlib.c puts a thread.
use laboratorio_lukitas.Common.{
  ℕ, zero, suc, ◌+◌, ◌≤◌, ◌<◌, ◌≡◌, refl, subst, inl, inr, Option, none, some, true, false, arith,
  eq_cases, Bool-cases, update,
}
use laboratorio_lukitas.Uthread.{Threads, runnable, max_thread, is_free, find_thread, thread_create}

-- What `thread_create` does to the table, on each branch.
pub data Created (t : Threads) : Option Threads → Type 0 where
  past_the_end : ((j : ℕ) → j < max_thread → is_free (t.state j) ≡ false) → Created t none
  created :
      (i : ℕ)
      → i < max_thread
      → is_free (t.state i) ≡ true
      → ((j : ℕ) → j < i → is_free (t.state j) ≡ false)
      → Created t (some (record t { state = update t.state i runnable }))

-- The first free thread from `lo` on, if there is one below `hi`.
data FreeThread (t : Threads) (lo hi : ℕ) : Option ℕ → Type 0 where
  all_used : ((j : ℕ) → lo ≤ j → j < hi → is_free (t.state j) ≡ false) → FreeThread t lo hi none
  free_at :
      (i : ℕ)
      → lo ≤ i
      → i < hi
      → is_free (t.state i) ≡ true
      → ((j : ℕ) → lo ≤ j → j < i → is_free (t.state j) ≡ false)
      → FreeThread t lo hi (some i)

find_thread_lem :
    (rounds i hi : ℕ) (t : Threads) → hi ≡ i + rounds → FreeThread t i hi (find_thread rounds i t)
unfolding find_thread
find_thread_lem zero i hi t e = all_used (λ j lo up. absurd (omega arith))
find_thread_lem (suc rounds) i hi t e = elim (Bool-cases (is_free (t.state i))) [
  | inl q ↦
      rw (q, find_thread)
        (free_at i (omega arith) (omega arith) q (λ j lo up. absurd (omega arith)))
  | inr q ↦
      rw (q, find_thread)
        (later q (find_thread rounds (suc i) t) (find_thread_lem rounds (suc i) hi t (omega arith)))
]
  where
    used : (j : ℕ) → is_free (t.state i) ≡ false → i ≡ j → is_free (t.state j) ≡ false
    used j q e = subst (λ k. is_free (t.state k) ≡ false) e q

    later :
        is_free (t.state i) ≡ false
        → (o : Option ℕ) → FreeThread t (suc i) hi o
        → FreeThread t i hi o
    later q _ (all_used rest) = all_used (λ j lo up. elim (eq_cases i j) [
      | inl (e, _) ↦ used j q e
      | inr (ne, _) ↦ rest j (omega arith) up
    ])
    later q _ (free_at k lo up f rest) = free_at k (omega arith) up f (λ j low below.
        elim (eq_cases i j) [ inl (e, _) ↦ used j q e | inr (ne, _) ↦ rest j (omega arith) below ])

-- `thread_create` makes the first free thread runnable and leaves the others; when all eight are in
-- use it has no entry to write and writes past the end of the table.
pub thread_create_lem : (t : Threads) → Created t (thread_create t)
unfolding thread_create
thread_create_lem t =
    placed (find_thread max_thread 0 t) refl (find_thread_lem max_thread 0 max_thread t refl)
  where
    placed :
        (o : Option ℕ)
        → find_thread max_thread 0 t ≡ o
        → FreeThread t 0 max_thread o
        → Created t (thread_create t)
    placed _ e (all_used used) =
        rw (e, thread_create) (past_the_end (λ j up. used j (omega arith) up))
    placed _ e (free_at i lo up f before) =
        rw (e, thread_create) (created i up f (λ j below. before j (omega arith) below))
