-- ===== src/Kernel/FileTable/Shared.antt =====
-- The descriptors of all processes in every order of system calls.
use laboratorio_lukitas.Common.{
  ℕ, zero, suc, ◌<◌, ◌≡◌, refl, sym, ◌∙◌, ap, subst, ◌≢◌, Option, none, some, Bool, arith,
}
use laboratorio_lukitas.Kernel.Proc.{nproc}
use laboratorio_lukitas.Kernel.FileTable.{
  Open, Call, Release, fails, returns, nofile, sys_dup, sys_close, open_file, dup_all, close_all,
}
use laboratorio_lukitas.Kernel.FileTable.Sums.{sum, sum-same}
use laboratorio_lukitas.Kernel.FileTable.Counted.{Counted, refs, in_row, refers}
use laboratorio_lukitas.Kernel.FileTable.Calls.{
  Works, failed, returned, sys_dup-Works, sys_close-Works, open_file-Works,
}
use laboratorio_lukitas.Kernel.FileTable.Loops.{Ends, ends, dup_all_lem, close_all_lem}

-- The state that a call leaves.
pub data Leaves : Call → Open → Type 0 where
  left_failed : {r : Release} {s : Open} → Leaves (fails r s) s
  left_returned : {n : ℕ} {r : Release} {s : Open} → Leaves (returns n r s) s

-- A step of the process `p`. A fork is into an entry whose descriptors are all clear.
pub data Step (s : Open) : Open → Type 0 where
  dups_fd : {t : Open} (p fd : ℕ) → p < nproc → Leaves (sys_dup s p fd) t → Step s t
  closes_fd : {t : Open} (p fd : ℕ) → p < nproc → Leaves (sys_close s p fd) t → Step s t
  opens :
      {t : Open} (p ip : ℕ) (wronly rdwr : Bool)
      → p < nproc
      → Leaves (open_file s p ip wronly rdwr) t
      → Step s t
  forks :
      {t : Open} (cur child : ℕ)
      → cur < nproc
      → child < nproc
      → child ≢ cur
      → ((j : ℕ) → j < nofile → s.ofile child j ≡ none)
      → dup_all nofile 0 cur child s ≡ some t
      → Step s t
  exits : {t : Open} (cur : ℕ) → cur < nproc → close_all nofile 0 cur s ≡ some t → Step s t

-- The states that follow the one without open files.
pub data Reach : Open → Type 0 where
  none_open :
      {s : Open} → ((f : ℕ) → (s.files f).ref ≡ 0) → ((p fd : ℕ) → s.ofile p fd ≡ none) → Reach s
  next : {s t : Open} → Reach s → Step s t → Reach t

left-Counted : {c : Call} {t : Open} → Works c → Leaves c t → Counted t
left-Counted (failed c) left_failed = c
left-Counted (returned c) left_returned = c

ended-Counted :
    {s t : Open} {p i : ℕ} {want : _} {o : Option Open} → Ends s p i want o → o ≡ some t → Counted t
ended-Counted (ends x) e = subst Counted (some-injective e) x.counted
  where
    some-injective : {a b : Open} → some a ≡ some b → a ≡ b
    some-injective {a} e = ap (λ o. elim o [ some x ↦ x | none ↦ a ]) e

step-Counted : {s t : Open} → Counted s → Step s t → Counted t
step-Counted {s} c (dups_fd p fd lp l) = left-Counted (sys_dup-Works s p fd c lp) l
step-Counted {s} c (closes_fd p fd lp l) = left-Counted (sys_close-Works s p fd c lp) l
step-Counted {s} c (opens p ip wronly rdwr lp l) =
    left-Counted (open_file-Works s p ip wronly rdwr c lp) l
step-Counted {s} c (forks cur child lc lh ne empty e) =
    ended-Counted
      (dup_all_lem nofile 0 cur child s (s.ofile cur) c lc lh ne refl refl (λ j lo hi. empty j hi))
      e
step-Counted {s} c (exits cur lc e) = ended-Counted (close_all_lem nofile 0 cur s c lc refl) e

sum_zero : (n : ℕ) → sum n (λ _. 0) ≡ 0
unfolding sum
sum_zero zero = refl
sum_zero (suc n) = omega (arith, sum_zero n)

no_refs : (s : Open) (f : ℕ) → ((p fd : ℕ) → s.ofile p fd ≡ none) → refs s f ≡ 0
unfolding refs in_row
no_refs s f empty =
    sum-same nproc (λ _. 0) (λ p. sum nofile (λ fd. refers f (s.ofile p fd)))
      (λ p l.
        sum-same nofile (λ _. 0) (λ fd. refers f (s.ofile p fd))
          (λ fd k. ap (refers f) (empty p fd))
        ∙ sum_zero nofile)
    ∙ sum_zero nproc

-- In every reachable state the count of each file is the number of descriptors, of all
-- processes, that refer to it, and every descriptor refers to an entry of the table.
pub Reach-Counted : (s : Open) → Reach s → Counted s
Reach-Counted s (none_open zero_refs empty) = record {
  counts = λ f. zero_refs f ∙ sym (no_refs s f empty);
  in_table = λ p fd f lp lfd e. absurd (cc (sym (empty p fd) ∙ e));
}
Reach-Counted _ (next {s} {t} r step) = step-Counted (Reach-Counted s r) step

-- In every reachable state `sys_dup`, `sys_close` and `sys_open`, of any process and on any
-- descriptor, end without a panic of `filedup` or `fileclose`, and the counts stay right.
pub descriptor_calls_return :
    (s : Open) (p : ℕ)
    → Reach s
    → p < nproc
    → ((fd : ℕ) → Works (sys_dup s p fd))
      × ((fd : ℕ) → Works (sys_close s p fd))
      × ((ip : ℕ) (wronly rdwr : Bool) → Works (open_file s p ip wronly rdwr))
descriptor_calls_return s p r lp =
    let c = Reach-Counted s r in
    (
      λ fd. sys_dup-Works s p fd c lp,
      λ fd. sys_close-Works s p fd c lp,
      λ ip wronly rdwr. open_file-Works s p ip wronly rdwr c lp,
    )

-- In every reachable state the loop of fork ends without a panic; the child's descriptors are
-- then the parent's, those of the other processes are as before, and the counts are right.
pub fork_inherits :
    (s : Open) (cur child : ℕ)
    → Reach s
    → cur < nproc
    → child < nproc
    → child ≢ cur
    → ((j : ℕ) → j < nofile → s.ofile child j ≡ none)
    → Ends s child 0 (s.ofile cur) (dup_all nofile 0 cur child s)
fork_inherits s cur child r lc lh ne empty =
    dup_all_lem nofile 0 cur child s (s.ofile cur) (Reach-Counted s r) lc lh ne refl refl
      (λ j lo hi. empty j hi)

-- In every reachable state the loop of exit ends without a panic; the caller's descriptors are
-- then clear, those of the other processes are as before, and the counts are right.
pub exit_closes :
    (s : Open) (cur : ℕ)
    → Reach s
    → cur < nproc
    → Ends s cur 0 (λ _. none) (close_all nofile 0 cur s)
exit_closes s cur r lc = close_all_lem nofile 0 cur s (Reach-Counted s r) lc refl
