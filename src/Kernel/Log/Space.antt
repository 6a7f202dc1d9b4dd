-- ===== src/Kernel/Log/Space.antt =====
-- `log_write` of xv6/log.c: log absorption.
use laboratorio_lukitas.Common.{
  ℕ, zero, suc, ◌+◌, ◌≤◌, ◌<◌, ◌≡◌, sym, ap, ◌∙◌, ◌≢◌, ◌⊎◌, inl, inr, List, arith, get_or, set,
  subst, length-set, get_or-set_self, get_or-set_ne, length, eq_cases, lt_cases,
}
use laboratorio_lukitas.Kernel.Log.{LogHeader, absorb, enter_block}

-- The search of the loop finds the block among the entries, or stops at the first free index.
abbrev pub Found : ℕ → ℕ → List ℕ → ℕ → ℕ → Type 0
Found rounds i block b j =
    ((i ≤ j) × (j < i + rounds) × (get_or block j 0 ≡ b))
    ⊎ ((j ≡ i + rounds) × ((k : ℕ) → i ≤ k → k < i + rounds → get_or block k 0 ≢ b))

pub absorb-Found :
    (rounds i : ℕ) (block : List ℕ) (b : ℕ) → Found rounds i block b (absorb rounds i block b)
unfolding absorb
absorb-Found zero i block b = inr (omega arith, λ k le lt. absurd (omega arith))
absorb-Found (suc rounds) i block b = elim (eq_cases (get_or block i 0) b) [
  | inl (e, t) ↦ rw t (inl (omega arith, omega arith, e))
  | inr (ne, t) ↦ rw t (elim (absorb-Found rounds (suc i) block b) [
    | inl (le, lt, e) ↦ inl (omega arith, omega arith, e)
    | inr (e, fresh) ↦ inr (
      omega arith,
      λ k le lt. elim (eq_cases i k) [
        | inl (same, _) ↦ λ h. ne (ap (λ j. get_or block j 0) same ∙ h)
        | inr (other, _) ↦ fresh k (omega arith) (omega arith)
      ],
    )
  ])
]

-- No block is listed twice.
abbrev pub IsDistinct : LogHeader → Type 0
IsDistinct lh = (i j : ℕ) → i < lh.n → j < lh.n → get_or lh.block i 0 ≡ get_or lh.block j 0 → i ≡ j

module _ (lh : LogHeader) (b : ℕ) (room : lh.n < length lh.block) where
  -- What the header lists after `log_write`, and how much longer it may be.
  pub enter_block_grows : (lh.n ≤ (enter_block lh b).n) × ((enter_block lh b).n ≤ lh.n + 1)
  unfolding enter_block
  enter_block_grows = ground arith

  pub length-enter_block : length (enter_block lh b).block ≡ length lh.block
  unfolding enter_block
  length-enter_block = length-set lh.block (absorb lh.n 0 lh.block b) b

  -- The header lists the block.
  pub enter_block_lists :
      (i : ℕ) × (i < (enter_block lh b).n) × (get_or (enter_block lh b).block i 0 ≡ b)
  unfolding enter_block
  enter_block_lists =
      let i = absorb lh.n 0 lh.block b in
      elim (absorb-Found lh.n 0 lh.block b) [
        | inl (_, lt, e) ↦ (i, ground arith, get_or-set_self lh.block i b 0 (omega arith))
        | inr (e, _) ↦ (i, ground arith, get_or-set_self lh.block i b 0 (omega arith))
      ]

  -- What was listed stays listed.
  pub enter_block_keeps :
      (j : ℕ) → j < lh.n → get_or (enter_block lh b).block j 0 ≡ get_or lh.block j 0
  unfolding enter_block
  enter_block_keeps j lt =
      let i = absorb lh.n 0 lh.block b in
      elim (eq_cases i j) [
        | inl (same, _) ↦ elim (absorb-Found lh.n 0 lh.block b) [
          | inl (_, _, e) ↦
              subst (λ k. get_or (set lh.block i b) k 0 ≡ get_or lh.block k 0) same
                (get_or-set_self lh.block i b 0 (omega arith) ∙ sym e)
          | inr (e, _) ↦ absurd (omega arith)
        ]
        | inr (other, _) ↦ get_or-set_ne lh.block i j b 0 other
      ]

  -- Nothing else is listed.
  pub enter_block_only :
      (j : ℕ) → j < (enter_block lh b).n → (get_or (enter_block lh b).block j 0 ≡ b) ⊎ (j < lh.n)
  unfolding enter_block
  enter_block_only j lt =
      let i = absorb lh.n 0 lh.block b in
      elim (eq_cases i j) [
        | inl (same, _) ↦ inl (
            subst (λ k. get_or (set lh.block i b) k 0 ≡ b) same
              (get_or-set_self lh.block i b 0 (elim (absorb-Found lh.n 0 lh.block b) [
                | inl (_, l, _) ↦ omega arith
                | inr (e, _) ↦ omega arith
              ])))
        | inr (other, _) ↦ inr (ground (arith, absorb-Found lh.n 0 lh.block b))
      ]

  -- An index past the old entries is used only for a block that was not listed.
  enter_block_fresh :
      (k : ℕ) → lh.n ≤ k → k < (enter_block lh b).n → (j : ℕ) → j < lh.n → get_or lh.block j 0 ≢ b
  unfolding enter_block
  enter_block_fresh k le lt j lj same = elim (absorb-Found lh.n 0 lh.block b) [
    | inl (_, l, _) ↦ ground arith
    | inr (_, fresh) ↦ fresh j (omega arith) (omega arith) same
  ]

  -- Absorption keeps the entries distinct.
  pub enter_block-IsDistinct : IsDistinct lh → IsDistinct (enter_block lh b)
  enter_block-IsDistinct h i j li lj e = elim (lt_cases i lh.n) [
    | inl (bi, _) ↦ elim (lt_cases j lh.n) [
      | inl (bj, _) ↦ h i j bi bj (sym (enter_block_keeps i bi) ∙ e ∙ enter_block_keeps j bj)
      | inr (oj, _) ↦ absurd (new j oj lj i bi e)
    ]
    | inr (oi, _) ↦ elim (lt_cases j lh.n) [
      | inl (bj, _) ↦ absurd (new i oi li j bj (sym e))
      | inr (oj, _) ↦ omega (arith, enter_block_grows)
    ]
  ]
    where
      -- An entry at the end was not listed before.
      new :
          (k : ℕ)
          → lh.n ≤ k
          → k < (enter_block lh b).n
          → (j : ℕ) → j < lh.n
          → get_or (enter_block lh b).block j 0 ≡ get_or (enter_block lh b).block k 0
          → ⊥
      new k le lt j lj same = elim (enter_block_only k lt) [
        | inl at ↦ enter_block_fresh k le lt j lj (sym (enter_block_keeps j lj) ∙ same ∙ at)
        | inr l ↦ absurd (omega arith)
      ]
