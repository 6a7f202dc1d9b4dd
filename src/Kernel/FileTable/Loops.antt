-- ===== src/Kernel/FileTable/Loops.antt =====
-- The loops over the descriptors in fork and exit of xv6/proc.c.
use laboratorio_lukitas.Common.{
  ℕ, zero, suc, ◌+◌, ◌≤◌, ◌<◌, ◌≡◌, refl, sym, ◌∙◌, ap, subst, ◌≢◌, inl, inr, Option, none, some,
  arith, eq_cases, Option-cases, update, update_self, update_ne,
}
use laboratorio_lukitas.Kernel.Proc.{nproc}
use laboratorio_lukitas.Kernel.FileTable.{
  Open, Files, Row, nofile, more, fewer, dup_all, close_all, set_row,
}
use laboratorio_lukitas.Kernel.FileTable.Counted.{Counted, Counted-positive}
use laboratorio_lukitas.Kernel.FileTable.Search.{filedup_positive, fileclose_positive}
use laboratorio_lukitas.Kernel.FileTable.Calls.{dup-Counted, close-Counted}

-- One row is changed, from the descriptor `i` on, to what is asked; the counts are right.
pub record RowFrom (s t : Open) (p i : ℕ) (want : Row) : Type 0 where
  pub counted : Counted t
  pub wanted : (j : ℕ) → i ≤ j → j < nofile → t.ofile p j ≡ want j
  pub before : (j : ℕ) → j < i → t.ofile p j ≡ s.ofile p j
  pub others : (q : ℕ) → p ≢ q → t.ofile q ≡ s.ofile q

-- A loop that ends without a panic.
pub data Ends (s : Open) (p i : ℕ) (want : Row) : Option Open → Type 0 where
  ends : {t : Open} → RowFrom s t p i want → Ends s p i want (some t)

done : (s : Open) (p i : ℕ) (want : Row) → Counted s → nofile ≤ i → Ends s p i want (some s)
done s p i want c over = ends (record {
  counted = c;
  wanted = λ j lo hi. absurd (omega arith);
  before = λ j l. refl;
  others = λ q ne. refl;
})

-- A round that leaves the state as it is.
skip :
    (s : Open) (p i : ℕ) (want : Row) (r : Option Open)
    → s.ofile p i ≡ want i
    → Ends s p (suc i) want r
    → Ends s p i want r
skip s p i want _ same (ends x) = ends (record {
  counted = x.counted;
  wanted = λ j lo hi. elim (eq_cases i j) [
    | inl (e, _) ↦ x.before j (omega arith) ∙ subst (λ k. s.ofile p k ≡ want k) e same
    | inr (ne, _) ↦ x.wanted j (omega arith) hi
  ];
  before = λ j l. x.before j (omega arith);
  others = x.others;
})

-- A round that sets the descriptor `i`.
advance :
    (s : Open) (p i : ℕ) (want : Row) (v : Option ℕ) (files : Files) (r : Option Open)
    → v ≡ want i
    → Ends (set_row s p (update (s.ofile p) i v) files) p (suc i) want r
    → Ends s p i want r
advance s p i want v files _ same (ends x) = ends (record {
  counted = x.counted;
  wanted = λ j lo hi. elim (eq_cases i j) [
    | inl (e, _) ↦
        x.before j (omega arith)
        ∙ ap (λ row. row j) (update_self s.ofile p (update (s.ofile p) i v))
        ∙ subst (λ k. update (s.ofile p) i v k ≡ want k) e (update_self (s.ofile p) i v ∙ same)
    | inr (ne, _) ↦ x.wanted j (omega arith) hi
  ];
  before = λ j l.
      x.before j (omega arith)
      ∙ ap (λ row. row j) (update_self s.ofile p (update (s.ofile p) i v))
      ∙ update_ne (s.ofile p) i v j (omega arith);
  others = λ q ne. x.others q ne ∙ update_ne s.ofile p (update (s.ofile p) i v) q ne;
})

pub dup_all_lem :
    (rounds i cur child : ℕ) (s : Open) (want : Row)
    → Counted s
    → cur < nproc
    → child < nproc
    → child ≢ cur
    → i + rounds ≡ nofile
    → s.ofile cur ≡ want
    → ((j : ℕ) → i ≤ j → j < nofile → s.ofile child j ≡ none)
    → Ends s child i want (dup_all rounds i cur child s)
unfolding dup_all
dup_all_lem zero i cur child s want c lc lh ne e row empty = done s child i want c (omega arith)
dup_all_lem (suc rounds) i cur child s want c lc lh ne e row empty =
    elim (Option-cases (s.ofile cur i)) [
      | inl z ↦
          rw (z, dup_all)
            (skip s child i want (dup_all rounds (suc i) cur child s)
              (empty i (omega arith) (omega arith) ∙ sym z ∙ ap (λ r. r i) row)
              (dup_all_lem rounds (suc i) cur child s want c lc lh ne (omega arith) row
                (λ j lo hi. empty j (omega arith) hi)))
      | inr (f, z) ↦
          rw (z, dup_all)
            (rw (filedup_positive s.files f (Counted-positive s cur i f c lc (omega arith) z)) (
              advance s child i want (some f) (more s.files f)
                (dup_all rounds (suc i) cur child (given f)) (sym z ∙ ap (λ r. r i) row)
                (dup_all_lem rounds (suc i) cur child (given f) want
                  (dup-Counted s child i f c lh (omega arith) (empty i (omega arith) (omega arith))
                    (c.in_table cur i f lc (omega arith) z))
                  lc lh ne (omega arith)
                  (update_ne s.ofile child (update (s.ofile child) i (some f)) cur ne ∙ row)
                  (λ j lo hi. still f j lo hi))))
    ]
  where
    given : ℕ → Open
    given f = set_row s child (update (s.ofile child) i (some f)) (more s.files f)

    still : (f j : ℕ) → suc i ≤ j → j < nofile → (given f).ofile child j ≡ none
    still f j lo hi =
        ap (λ r. r j) (update_self s.ofile child (update (s.ofile child) i (some f)))
        ∙ update_ne (s.ofile child) i (some f) j (omega arith)
        ∙ empty j (omega arith) hi

pub close_all_lem :
    (rounds i cur : ℕ) (s : Open)
    → Counted s
    → cur < nproc
    → i + rounds ≡ nofile
    → Ends s cur i (λ _. none) (close_all rounds i cur s)
unfolding close_all
close_all_lem zero i cur s c lc e = done s cur i (λ _. none) c (omega arith)
close_all_lem (suc rounds) i cur s c lc e = elim (Option-cases (s.ofile cur i)) [
  | inl z ↦
      rw (z, close_all)
        (skip s cur i (λ _. none) (close_all rounds (suc i) cur s) z
          (close_all_lem rounds (suc i) cur s c lc (omega arith)))
  | inr (f, z) ↦
      rw (z, close_all)
        (rw (fileclose_positive s.files f (Counted-positive s cur i f c lc (omega arith) z)) (
          advance s cur i (λ _. none) none (fewer s.files f)
            (close_all rounds (suc i) cur
              (set_row s cur (update (s.ofile cur) i none) (fewer s.files f)))
            refl
            (close_all_lem rounds (suc i) cur
              (set_row s cur (update (s.ofile cur) i none) (fewer s.files f))
              (close-Counted s cur i f c lc (omega arith) z) lc (omega arith))))
]
