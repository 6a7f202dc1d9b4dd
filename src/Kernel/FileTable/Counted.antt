-- ===== src/Kernel/FileTable/Counted.antt =====
-- The invariant of xv6/file.c: a file's count is the number of descriptors that refer to it.
use laboratorio_lukitas.Common.{
  ℕ, ◌+◌, ◌≤◌, ◌<◌, ◌≡◌, sym, ◌∙◌, ap, subst, ◌≢◌, inl, inr, Option, none, some, arith, ◌==◌,
  if◌then◌else◌, eq_cases, update, update_self, update_ne,
}
use laboratorio_lukitas.Kernel.Proc.{nproc}
use laboratorio_lukitas.Kernel.FileTable.{Open, Files, Row, nfile, nofile, set_row}
use laboratorio_lukitas.Kernel.FileTable.Sums.{sum, sum-change, term_le_sum}

-- 1 when the descriptor refers to the file.
abbrev pub refers : ℕ → Option ℕ → ℕ
refers f none = 0
refers f (some g) = if g == f then 1 else 0

unfoldable pub in_row : ℕ → Row → ℕ
in_row f row = sum nofile (λ fd. refers f (row fd))

-- The number of descriptors, of all processes, that refer to the file.
unfoldable pub refs : Open → ℕ → ℕ
refs s f = sum nproc (λ p. in_row f (s.ofile p))

pub record Counted (s : Open) : Type 0 where
  pub counts : (f : ℕ) → (s.files f).ref ≡ refs s f
  pub in_table : (p fd f : ℕ) → p < nproc → fd < nofile → s.ofile p fd ≡ some f → f < nfile

row-change :
    (f : ℕ) (row : Row) (fd : ℕ) (v : Option ℕ)
    → fd < nofile
    → in_row f (update row fd v) + refers f (row fd) ≡ in_row f row + refers f v
unfolding in_row
row-change f row fd v l =
    subst
      (λ n.
        sum nofile (λ i. refers f (update row fd v i)) + refers f (row fd)
        ≡ sum nofile (λ i. refers f (row i)) + n)
      (ap (refers f) (update_self row fd v))
      (sum-change nofile fd (λ i. refers f (row i)) (λ i. refers f (update row fd v i)) l
        (λ i ne. ap (refers f) (update_ne row fd v i ne)))

rows-change :
    (s : Open) (p f : ℕ) (row : Row) (files : Files)
    → p < nproc
    → refs (set_row s p row files) f + in_row f (s.ofile p) ≡ refs s f + in_row f row
unfolding refs
rows-change s p f row files l =
    subst
      (λ n.
        sum nproc (λ q. in_row f (update s.ofile p row q)) + in_row f (s.ofile p)
        ≡ sum nproc (λ q. in_row f (s.ofile q)) + n)
      (ap (in_row f) (update_self s.ofile p row))
      (sum-change nproc p (λ q. in_row f (s.ofile q)) (λ q. in_row f (update s.ofile p row q)) l
        (λ q ne. ap (in_row f) (update_ne s.ofile p row q ne)))

-- A descriptor changes: the counts of the references with it.
pub refs-change :
    (s : Open) (p fd : ℕ) (v : Option ℕ) (files : Files) (f : ℕ)
    → p < nproc
    → fd < nofile
    → refs (set_row s p (update (s.ofile p) fd v) files) f + refers f (s.ofile p fd)
      ≡ refs s f + refers f v
refs-change s p fd v files f lp lfd =
    omega (
      arith,
      rows-change s p f (update (s.ofile p) fd v) files lp,
      row-change f (s.ofile p) fd v lfd,
    )

term_le_row : (f : ℕ) (row : Row) (fd : ℕ) → fd < nofile → refers f (row fd) ≤ in_row f row
unfolding in_row
term_le_row f row fd l = term_le_sum nofile fd (λ i. refers f (row i)) l

row_le_refs : (s : Open) (p f : ℕ) → p < nproc → in_row f (s.ofile p) ≤ refs s f
unfolding refs
row_le_refs s p f l = term_le_sum nproc p (λ q. in_row f (s.ofile q)) l

refers_self : (f : ℕ) → refers f (some f) ≡ 1
refers_self f = ground arith

pub refers_ne : (f g : ℕ) → f ≢ g → refers g (some f) ≡ 0
refers_ne f g ne = ground arith

-- A descriptor of a counted state refers to a file with a reference.
pub Counted-positive :
    (s : Open) (p fd f : ℕ)
    → Counted s
    → p < nproc
    → fd < nofile
    → s.ofile p fd ≡ some f
    → 1 ≤ (s.files f).ref
Counted-positive s p fd f c lp lfd e =
    positive (s.files f).ref _ _ _ (c.counts f) (row_le_refs s p f lp)
      (term_le_row f (s.ofile p) fd lfd) (ap (refers f) e ∙ refers_self f)
  where
    positive : (n a b d : ℕ) → n ≡ a → b ≤ a → d ≤ b → d ≡ 1 → 1 ≤ n
    positive n a b d e h k l = omega arith

-- What two states that differ in one descriptor and the count that goes with it share.
pub Counted-step :
    (s : Open) (p fd : ℕ) (v : Option ℕ) (files : Files)
    → Counted s
    → p < nproc
    → fd < nofile
    → ((f : ℕ) → v ≡ some f → f < nfile)
    → ((f : ℕ) → (files f).ref + refers f (s.ofile p fd) ≡ (s.files f).ref + refers f v)
    → Counted (set_row s p (update (s.ofile p) fd v) files)
Counted-step s p fd v files c lp lfd below balance = record {
  counts = λ f.
      cancel (files f).ref _ _ _ _ _ (balance f) (c.counts f) (refs-change s p fd v files f lp lfd);
  in_table = λ q i f lq li e. elim (eq_cases p q) [
    | inl (pq, _) ↦ elim (eq_cases fd i) [
      | inl (di, _) ↦ below f (
          sym (update_self (s.ofile p) fd v)
          ∙ ap (update (s.ofile p) fd v) di
          ∙ sym (ap (λ r. r i) (row q pq))
          ∙ e)
      | inr (ne, _) ↦
          c.in_table p i f lp li
            (sym (update_ne (s.ofile p) fd v i ne) ∙ sym (ap (λ r. r i) (row q pq)) ∙ e)
    ]
    | inr (ne, _) ↦
        c.in_table q i f lq li
          (sym (ap (λ r. r i) (update_ne s.ofile p (update (s.ofile p) fd v) q ne)) ∙ e)
  ];
}
  where
    cancel : (n a b d e m : ℕ) → n + a ≡ d + b → d ≡ e → m + a ≡ e + b → n ≡ m
    cancel n a b d e m h k l = omega arith

    row : (q : ℕ) → p ≡ q → update s.ofile p (update (s.ofile p) fd v) q ≡ update (s.ofile p) fd v
    row q e =
        subst (λ r. update s.ofile p (update (s.ofile p) fd v) r ≡ update (s.ofile p) fd v) e
          (update_self s.ofile p (update (s.ofile p) fd v))
