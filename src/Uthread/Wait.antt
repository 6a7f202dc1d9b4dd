-- ===== src/Uthread/Wait.antt =====
-- How long a ready thread of xv6/uthreadlib.c waits.
use laboratorio_lukitas.Common.{
  ℕ, suc, ◌+◌, ◌-◌, ◌%◌, ◌≤◌, ◌<◌, ◌≡◌, sym, ◌∙◌, ap, subst, ◌≢◌, inl, inr, Bool, List, [], ◌∷◌,
  length, take, arith, eq_cases, lt_cases, update_ne,
}
use laboratorio_lukitas.Uthread.{Threads, ThreadState, running, is_runnable}
use laboratorio_lukitas.Uthread.Pick.{Ready}
use laboratorio_lukitas.Uthread.Turns.{
  Scheduled, moved, fell_back, run_thread, leave, left_as, turn, turn_lem, run,
}

-- The thread `j` becomes the current one after at most `d` of the turns.
abbrev pub RunsWithin : ℕ → List Bool → Threads → ℕ → Type 0
RunsWithin d turns t j = (n : ℕ) × (n ≤ d) × ((run (take n turns) t).current ≡ j)

leave-Ready : (s : ThreadState) (t : Threads) (j : ℕ) → Ready t j → Ready (leave s t) j
leave-Ready s t j r = record {
  state = ap is_runnable (update_ne t.state t.current s j (λ e. r.other (sym e))) ∙ r.state;
  other = r.other;
}

run_thread-Ready : (t : Threads) (k j : ℕ) → Ready t j → k ≢ j → Ready (run_thread k t) j
run_thread-Ready t k j r ne = record {
  state = ap is_runnable (update_ne t.state k running j ne) ∙ r.state;
  other = λ e. ne (sym e);
}

-- A turn brings a ready thread nearer, or runs it.
pub data Nearer (d j : ℕ) : Threads → Type 0 where
  runs : {u : Threads} → u.current ≡ j → Nearer d j u
  waits :
      {u : Threads} (e : ℕ) → 1 ≤ e → e < d → (u.last_index + e) % 8 ≡ j → Ready u j → Nearer d j u

nearer :
    (t u : Threads) (d j : ℕ)
    → 1 ≤ d
    → d < 8
    → (t.last_index + d) % 8 ≡ j
    → Ready t j
    → Scheduled t u
    → Nearer d j u
nearer t _ d j lo up at r (fell_back none_ready) =
    absurd (none_ready d lo up (subst (Ready t) (sym at) r))
nearer t _ d j lo up at r (moved e lo' up' ready before) = elim (lt_cases d e) [
  | inl (l, _) ↦ absurd (before d lo l (subst (Ready t) (sym at) r))
  | inr (l, _) ↦ elim (eq_cases e d) [
    | inl (same, _) ↦ runs (ap (λ k. (t.last_index + k) % 8) same ∙ at)
    | inr (ne, _) ↦
        waits (d - e) (omega arith) (omega arith) (omega arith)
          (run_thread-Ready t ((t.last_index + e) % 8) j r (omega arith))
  ]
]

-- A ready thread that stands `d` places after `last_index` runs after at most `d` turns, whichever
-- of the threads that run meanwhile yield and whichever exit.
pub Ready-runs :
    (turns : List Bool) (d j : ℕ) (t : Threads)
    → 1 ≤ d
    → d < 8
    → (t.last_index + d) % 8 ≡ j
    → Ready t j
    → d ≤ length turns
    → RunsWithin d turns t j
unfolding run
Ready-runs [] d j t lo up at r enough = absurd (omega arith)
Ready-runs (b ∷ bs) d j t lo up at r enough =
    let (n, few, e) =
      within (turn b t)
        (nearer (leave (left_as b) t) (turn b t) d j lo up at (leave-Ready (left_as b) t j r)
          (turn_lem b t))
        (λ e u lo' up' at' r' l. Ready-runs bs e j u lo' up' at' r' l) in
    (suc n, few, e)
  where
    within :
        (u : Threads)
        → Nearer d j u
        → ((e : ℕ) (v : Threads)
            → 1 ≤ e
            → e < 8
            → (v.last_index + e) % 8 ≡ j
            → Ready v j
            → e ≤ length bs
            → RunsWithin e bs v j)
        → (n : ℕ) × (suc n ≤ d) × ((run (take n bs) u).current ≡ j)
    within u (runs e) later = (0, omega arith, e)
    within u (waits e lo' up' at' r') later =
        let (n, few, q) = later e u lo' (omega arith) at' r' (omega arith) in (n, omega arith, q)
