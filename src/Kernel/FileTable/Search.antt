-- ===== src/Kernel/FileTable/Search.antt =====
-- The two searches of xv6/file.c and xv6/sysfile.c, and one change of a count.
use laboratorio_lukitas.Common.{
  ℕ, zero, suc, ◌+◌, ◌-◌, ◌≤◌, ◌<◌, ◌≡◌, refl, ap, subst, ◌≢◌, inl, inr, Option, none, some, arith,
  ltb, if◌then◌else◌, eq_cases, lt_cases, Option-cases,
}
use laboratorio_lukitas.Kernel.FileTable.{
  Files, Row, find_free, find_fd, filedup, fileclose, dups, closes, more, fewer, release_of,
  nothing, Release,
}
use laboratorio_lukitas.Kernel.FileTable.Counted.{refers}

-- The first entry from `lo` on without a reference, if there is one below `hi`.
pub data FreeEntry (files : Files) (lo hi : ℕ) : Option ℕ → Type 0 where
  no_entry : ((j : ℕ) → lo ≤ j → j < hi → (files j).ref ≢ 0) → FreeEntry files lo hi none
  entry : {j : ℕ} → lo ≤ j → j < hi → (files j).ref ≡ 0 → FreeEntry files lo hi (some j)

pub find_free_lem :
    (rounds i hi : ℕ) (files : Files)
    → hi ≡ i + rounds
    → FreeEntry files i hi (find_free rounds i files)
unfolding find_free
find_free_lem zero i hi files e = no_entry (λ j lo up. absurd (omega arith))
find_free_lem (suc rounds) i hi files e = elim (eq_cases (files i).ref 0) [
  | inl (z, t) ↦ rw t (entry (omega arith) (omega arith) z)
  | inr (ne, t) ↦ rw t (
      later ne (find_free rounds (suc i) files)
        (find_free_lem rounds (suc i) hi files (omega arith)))
]
  where
    later :
        (files i).ref ≢ 0 → (r : Option ℕ) → FreeEntry files (suc i) hi r → FreeEntry files i hi r
    later ne _ (no_entry none_later) = no_entry (λ j lo up. elim (eq_cases i j) [
      | inl (e, _) ↦ subst (λ k. (files k).ref ≢ 0) e ne
      | inr (other, _) ↦ none_later j (omega arith) up
    ])
    later ne _ (entry lo up z) = entry (omega arith) up z

-- The first descriptor from `lo` on that is free, if there is one below `hi`.
pub data FreeFd (row : Row) (lo hi : ℕ) : Option ℕ → Type 0 where
  no_fd : ((j : ℕ) → lo ≤ j → j < hi → row j ≢ none) → FreeFd row lo hi none
  fd_at :
      (j : ℕ)
      → lo ≤ j
      → j < hi
      → row j ≡ none
      → ((k : ℕ) → lo ≤ k → k < j → row k ≢ none)
      → FreeFd row lo hi (some j)

some_not_none : {o : Option ℕ} {f : ℕ} → o ≡ some f → o ≢ none
some_not_none e z = cc (e, z)

pub find_fd_lem :
    (rounds i hi : ℕ) (row : Row) → hi ≡ i + rounds → FreeFd row i hi (find_fd rounds i row)
unfolding find_fd
find_fd_lem zero i hi row e = no_fd (λ j lo up. absurd (omega arith))
find_fd_lem (suc rounds) i hi row e = elim (Option-cases (row i)) [
  | inl z ↦
      rw (z, find_fd) (fd_at i (omega arith) (omega arith) z (λ k lo up. absurd (omega arith)))
  | inr (f, t) ↦
      rw (t, find_fd)
        (later (some_not_none t) (find_fd rounds (suc i) row)
          (find_fd_lem rounds (suc i) hi row (omega arith)))
]
  where
    later : row i ≢ none → (r : Option ℕ) → FreeFd row (suc i) hi r → FreeFd row i hi r
    later ne _ (no_fd none_later) = no_fd (λ j lo up. elim (eq_cases i j) [
      | inl (e, _) ↦ subst (λ k. row k ≢ none) e ne
      | inr (other, _) ↦ none_later j (omega arith) up
    ])
    later ne _ (fd_at j lo up z first) = fd_at j (omega arith) up z (λ k low below.
        elim (eq_cases i k) [
          | inl (e, _) ↦ subst (λ l. row l ≢ none) e ne
          | inr (other, _) ↦ first k (omega arith) below
        ])

-- What a close of one reference releases.
abbrev pub released_by : Files → ℕ → Release
released_by files f = if ltb 0 ((files f).ref - 1) then nothing else release_of (files f)

pub filedup_positive :
    (files : Files) (f : ℕ) → 1 ≤ (files f).ref → filedup files f ≡ dups (more files f)
unfolding filedup
filedup_positive files f h = elim (lt_cases (files f).ref 1) [
  | inl (l, _) ↦ absurd (omega arith)
  | inr (_, t) ↦ rw t refl
]

pub fileclose_positive :
    (files : Files) (f : ℕ)
    → 1 ≤ (files f).ref
    → fileclose files f ≡ closes (released_by files f) (fewer files f)
unfolding fileclose
fileclose_positive files f h = elim (lt_cases (files f).ref 1) [
  | inl (l, _) ↦ absurd (omega arith)
  | inr (_, t) ↦ rw t refl
]

pub ref-more : (files : Files) (f g : ℕ) → (more files f g).ref ≡ (files g).ref + refers g (some f)
ref-more files f g = elim (eq_cases f g) [
  | inl (e, t) ↦ rw t (ap (λ k. (files k).ref + 1) e)
  | inr (ne, t) ↦ rw t (omega arith)
]

pub ref-fewer :
    (files : Files) (f g : ℕ)
    → 1 ≤ (files f).ref
    → (fewer files f g).ref + refers g (some f) ≡ (files g).ref
ref-fewer files f g h = elim (eq_cases f g) [
  | inl (e, t) ↦ rw t (subst (λ k. (files f).ref - 1 + 1 ≡ (files k).ref) e (omega arith))
  | inr (ne, t) ↦ rw t (omega arith)
]
