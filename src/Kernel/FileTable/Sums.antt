-- ===== src/Kernel/FileTable/Sums.antt =====
-- Sums over an array, for counting the references of xv6/file.c.
use laboratorio_lukitas.Common.{
  ℕ, zero, suc, ◌+◌, ◌≤◌, ◌<◌, ◌≡◌, refl, ap, ◌≢◌, inl, inr, arith, eq_cases,
}

unfoldable pub sum : ℕ → (ℕ → ℕ) → ℕ
sum zero g = 0
sum (suc n) g = sum n g + g n

pub sum-same : (n : ℕ) (g h : ℕ → ℕ) → ((j : ℕ) → j < n → h j ≡ g j) → sum n h ≡ sum n g
unfolding sum
sum-same zero g h same = refl
sum-same (suc n) g h same =
    omega (arith, sum-same n g h (λ j l. same j (omega arith)), same n (omega arith))

-- A change of one term.
pub sum-change :
    (n i : ℕ) (g h : ℕ → ℕ) → i < n → ((j : ℕ) → i ≢ j → h j ≡ g j) → sum n h + g i ≡ sum n g + h i
unfolding sum
sum-change zero i g h l same = absurd (omega arith)
sum-change (suc n) i g h l same = elim (eq_cases i n) [
  | inl (e, _) ↦
      let before = sum-same n g h (λ j k. same j (omega arith)) in
      let at = ap g e in let at' = ap h e in omega arith
  | inr (ne, _) ↦ omega (arith, sum-change n i g h (omega arith) same, same n ne)
]

-- One term is at most the sum.
pub term_le_sum : (n i : ℕ) (g : ℕ → ℕ) → i < n → g i ≤ sum n g
unfolding sum
term_le_sum zero i g l = absurd (omega arith)
term_le_sum (suc n) i g l = elim (eq_cases i n) [
  | inl (e, _) ↦ let at = ap g e in omega arith
  | inr (ne, _) ↦ omega (arith, term_le_sum n i g (omega arith))
]
