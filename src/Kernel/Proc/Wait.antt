-- ===== src/Kernel/Proc/Wait.antt =====
-- `wait` of xv6/proc.c: what it reaps, and when it fails or sleeps.
use laboratorio_lukitas.Common.{
  ℕ, zero, suc, ◌+◌, ◌≤◌, ◌<◌, ◌≡◌, refl, sym, ◌≢◌, ◌⊎◌, inl, inr, Bool, true, false, not, ◌&&◌,
  ◌||◌, arith, eq_cases, Bool-cases, update, update_self, update_ne, subst, if◌then◌else◌, none, [],
}
use laboratorio_lukitas.Kernel.Proc.{
  Table, Proc, unused, nproc, points_to, is_zombie, sleeping, entry, Scan, exited, kids, scan,
  Waited, reaped, no_child, sleeps, reap, wait,
}

abbrev pub is_child : Table → ℕ → ℕ → Bool
is_child t cur i = points_to (t i).parent cur

-- The scan stops at the first exited child, or has seen that there is none.
pub data ScanSpec (t : Table) (cur rounds i : ℕ) (havekids : Bool) : Scan → Type 0 where
  found :
      (j : ℕ)
      → i ≤ j
      → j < i + rounds
      → is_child t cur j ≡ true
      → is_zombie (t j).state ≡ true
      → ScanSpec t cur rounds i havekids (exited j)
  passed :
      (b : Bool)
      → ((j : ℕ) → i ≤ j → j < i + rounds → is_child t cur j ≡ true → is_zombie (t j).state ≡ false)
      → (b ≡ true
          → (havekids ≡ true) ⊎ ((j : ℕ) × (i ≤ j) × (j < i + rounds) × (is_child t cur j ≡ true)))
      → (b ≡ false
          → (havekids ≡ false) × ((j : ℕ) → i ≤ j → j < i + rounds → is_child t cur j ≡ false))
      → ScanSpec t cur rounds i havekids (kids b)

scan_step :
    (t : Table) (cur rounds i : ℕ) (havekids : Bool) (s : Scan)
    → (is_child t cur i && is_zombie (t i).state) ≡ false
    → ScanSpec t cur rounds (suc i) (havekids || is_child t cur i) s
    → ScanSpec t cur (suc rounds) i havekids s
scan_step t cur rounds i havekids _ here (found j le lt child zombie) =
    found j (omega arith) (omega arith) child zombie
scan_step t cur rounds i havekids _ here (passed b none_yet some_kid no_kid) =
    passed b
      (λ j le lt child. elim (eq_cases i j) [
        | inl (e, _) ↦
            subst (λ k. is_child t cur k ≡ true → is_zombie (t k).state ≡ false) e
              (λ (c : is_child t cur i ≡ true). ground arith) child
        | inr (ne, _) ↦ none_yet j (omega arith) (omega arith) child
      ])
      (λ e. elim (some_kid e) [
        | inl h ↦ elim (Bool-cases havekids) [
          | inl old ↦ inl old
          | inr new ↦ inr (i, omega arith, omega arith, ground arith)
        ]
        | inr (j, le, lt, child) ↦ inr (j, omega arith, omega arith, child)
      ])
      (λ e.
        let (before, after) = no_kid e in
        (
          ground arith,
          λ j le lt. elim (eq_cases i j) [
            | inl (same, _) ↦ subst (λ k. is_child t cur k ≡ false) same (ground arith)
            | inr (ne, _) ↦ after j (omega arith) (omega arith)
          ],
        ))

pub scan-ScanSpec :
    (rounds i : ℕ) (havekids : Bool) (cur : ℕ) (t : Table)
    → ScanSpec t cur rounds i havekids (scan rounds i havekids cur t)
unfolding scan
scan-ScanSpec zero i havekids cur t =
    passed havekids (λ j le lt _. absurd (omega arith)) (λ e. inl e)
      (λ e. (e, λ j le lt. absurd (omega arith)))
scan-ScanSpec (suc rounds) i havekids cur t =
    let ih = scan-ScanSpec rounds (suc i) (havekids || is_child t cur i) cur t in
    elim (Bool-cases (is_child t cur i && is_zombie (t i).state)) [
      | inl hit ↦ rw hit (found i (omega arith) (omega arith) (ground arith) (ground arith))
      | inr miss ↦ rw miss (scan_step t cur rounds i havekids _ miss ih)
    ]

-- Every entry but `i` is as before.
abbrev pub Only : ℕ → Table → Table → Type 0
Only i t t' = (j : ℕ) → i ≢ j → t' j ≡ t j

-- What is left in an entry that `wait` gives back.
pub record Cleared (p : Proc) : Type 0 where
  pub state : p.state ≡ unused
  pub pid : p.pid ≡ 0
  pub parent : p.parent ≡ none
  pub name : p.name ≡ []
  pub kstack : p.kstack ≡ none
  pub killed : p.killed ≡ false

reap-Cleared : (p : Proc) → Cleared (reap p)
unfolding reap
reap-Cleared p = record {
  state = refl;
  pid = refl;
  parent = refl;
  name = refl;
  kstack = refl;
  killed = refl;
}

pub data WaitSpec (t : Table) (cur : ℕ) : Waited → Type 0 where
  reaps :
      (i : ℕ) {t' : Table}
      → i < nproc
      → is_child t cur i ≡ true
      → is_zombie (t i).state ≡ true
      → Cleared (t' i)
      → Only i t t'
      → WaitSpec t cur (reaped (t i).pid t')
  fails :
      ((i : ℕ) → i < nproc → is_child t cur i ≡ true → is_zombie (t i).state ≡ false)
      → ((i : ℕ) → i < nproc → is_child t cur i ≡ false) ⊎ ((t cur).killed ≡ true)
      → WaitSpec t cur no_child
  waits :
      {t' : Table}
      → ((i : ℕ) → i < nproc → is_child t cur i ≡ true → is_zombie (t i).state ≡ false)
      → (i : ℕ) × (i < nproc) × (is_child t cur i ≡ true)
      → (t cur).killed ≡ false
      → t' cur ≡ record (t cur) { chan = entry cur; state = sleeping }
      → Only cur t t'
      → WaitSpec t cur (sleeps t')

-- What `wait` does once its scan has passed over the table.
passed_over :
    (t : Table) (cur : ℕ) (b : Bool)
    → ((j : ℕ) → j < nproc → is_child t cur j ≡ true → is_zombie (t j).state ≡ false)
    → (b ≡ true → (j : ℕ) × (j < nproc) × (is_child t cur j ≡ true))
    → (b ≡ false → (j : ℕ) → j < nproc → is_child t cur j ≡ false)
    → (k : Bool) → (t cur).killed ≡ k
    → WaitSpec t cur (
        if not b || k
        then no_child
        else sleeps (update t cur (record (t cur) { chan = entry cur; state = sleeping })))
passed_over t cur false none_yet some_kid no_kid k e = fails none_yet (inl (no_kid refl))
passed_over t cur true none_yet some_kid no_kid true e = fails none_yet (inr e)
passed_over t cur true none_yet some_kid no_kid false e =
    waits none_yet (some_kid refl) e
      (update_self t cur (record (t cur) { chan = entry cur; state = sleeping }))
      (λ j ne. update_ne t cur (record (t cur) { chan = entry cur; state = sleeping }) j ne)

scanned :
    (t : Table) (cur : ℕ) {s : Scan}
    → ScanSpec t cur nproc 0 false s
    → WaitSpec t cur (elim s [
      | exited i ↦ reaped (t i).pid (update t i (reap (t i)))
      | kids havekids ↦
          if not havekids || (t cur).killed
          then no_child
          else sleeps (update t cur (record (t cur) { chan = entry cur; state = sleeping }))
    ])
scanned t cur (found j le lt child zombie) =
    reaps j (omega arith) child zombie
      (subst Cleared (sym (update_self t j (reap (t j)))) (reap-Cleared (t j)))
      (λ k ne. update_ne t j (reap (t j)) k ne)
scanned t cur (passed b none_yet some_kid no_kid) =
    passed_over t cur b (λ j lt. none_yet j (omega arith) (omega arith))
      (λ e. elim (some_kid e) [ inl h ↦ cc | inr (j, _, lt, child) ↦ (j, omega arith, child) ])
      (λ e j lt. (no_kid e).1 j (omega arith) (omega arith)) (t cur).killed refl

-- `wait` returns the pid of an exited child and clears the child's entry, and no other, if there is
-- one. Otherwise it fails if there is no child or the caller was killed, and goes to sleep on its own
-- entry if there are children and it was not.
pub wait_lem : (t : Table) (cur : ℕ) → WaitSpec t cur (wait t cur)
unfolding wait
wait_lem t cur = scanned t cur (scan-ScanSpec nproc 0 false cur t)
