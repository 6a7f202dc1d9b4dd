-- ===== src/Kernel/Proc/Fork.antt =====
-- `allocproc` and `fork` of xv6/proc.c.
use laboratorio_lukitas.Common.{
  ℕ, zero, suc, ◌+◌, ◌≤◌, ◌<◌, ◌≡◌, refl, ◌∙◌, ap, sym, ◌⊎◌, inl, inr, true, false, Option, some,
  none, arith, eq_cases, Bool-cases, update, update_self, update_ne, subst,
}
use mathlib.Core.Path.{ap₂}
use laboratorio_lukitas.Kernel.Proc.{
  Table, Ptable, Proc, nproc, is_unused, embryo, runnable, find_unused, next_pid, alloc_entry,
  alloc_stack, copy_into, dup_files, fork,
}
use laboratorio_lukitas.Kernel.Proc.Wait.{Only}

pub data Search (t : Table) (rounds i : ℕ) : Option ℕ → Type 0 where
  hit : (j : ℕ) → i ≤ j → j < i + rounds → is_unused (t j).state ≡ true → Search t rounds i (some j)
  miss : ((j : ℕ) → i ≤ j → j < i + rounds → is_unused (t j).state ≡ false) → Search t rounds i none

Search-later :
    (t : Table) (rounds i : ℕ) (r : Option ℕ)
    → is_unused (t i).state ≡ false
    → Search t rounds (suc i) r
    → Search t (suc rounds) i r
Search-later t rounds i _ used (hit j le lt free) = hit j (omega arith) (omega arith) free
Search-later t rounds i _ used (miss all) = miss λ j le lt. elim (eq_cases i j) [
  | inl (e, _) ↦ subst (λ k. is_unused (t k).state ≡ false) e used
  | inr (ne, _) ↦ all j (omega arith) (omega arith)
]

pub find_unused-Search : (rounds i : ℕ) (t : Table) → Search t rounds i (find_unused rounds i t)
unfolding find_unused
find_unused-Search zero i t = miss λ j le lt. absurd (omega arith)
find_unused-Search (suc rounds) i t =
    let ih = find_unused-Search rounds (suc i) t in
    elim (Bool-cases (is_unused (t i).state)) [
      | inl free ↦ rw free (hit i (omega arith) (omega arith) free)
      | inr used ↦ rw used (Search-later t rounds i _ used ih)
    ]

-- What `fork` by `cur` does: the table is full; or memory ran out, and the entry tried stays unused;
-- or there is a child.
pub data ForkSpec (t : Ptable) (cur : ℕ) (stack pages : Option ℕ) : Option ℕ → Ptable → Type 0 where
  full :
      ((i : ℕ) → i < nproc → is_unused (t.proc i).state ≡ false) → ForkSpec t cur stack pages none t
  no_memory :
      (i : ℕ) {u : Ptable}
      → i < nproc
      → is_unused (t.proc i).state ≡ true
      → is_unused (u.proc i).state ≡ true
      → (u.proc i).kstack ≡ none
      → Only i t.proc u.proc
      → u.nextpid ≡ next_pid t.nextpid
      → (stack ≡ none) ⊎ (pages ≡ none)
      → ForkSpec t cur stack pages none u
  born :
      (i pgdir kstack : ℕ) {u : Ptable}
      → i < nproc
      → is_unused (t.proc i).state ≡ true
      → u.proc i ≡ record (t.proc i) {
        sz = (t.proc cur).sz;
        pgdir = some pgdir;
        kstack = some kstack;
        pid = t.nextpid;
        parent = some cur;
        eax = 0;
        ofile = dup_files (t.proc cur).ofile (t.proc i).ofile;
        cwd = (t.proc cur).cwd;
        name = (t.proc cur).name;
        state = runnable;
      }
      → Only i t.proc u.proc
      → u.nextpid ≡ next_pid t.nextpid
      → stack ≡ some kstack
      → pages ≡ some pgdir
      → ForkSpec t cur stack pages (some t.nextpid) u

-- Updating an entry twice.
pub twice-Only : (t : Table) (i : ℕ) (p q : Proc) → Only i t (update (update t i p) i q)
twice-Only t i p q j ne = update_ne (update t i p) i q j ne ∙ update_ne t i p j ne

-- The entry that `allocproc` has filled in, once it has its stack.
filled : Ptable → ℕ → ℕ → Proc
filled t i page = record (t.proc i) { state = embryo; pid = t.nextpid; kstack = some page }

-- The table of `allocproc` with a stack.
with_stack : Ptable → ℕ → ℕ → Table
unfolding alloc_stack alloc_entry
with_stack t i page = (alloc_stack (alloc_entry t (some i)) (some page)).1.proc

with_stack_at : (t : Ptable) (i page : ℕ) → with_stack t i page i ≡ filled t i page
unfolding with_stack alloc_stack alloc_entry filled
with_stack_at t i page =
    let first = record (t.proc i) { state = embryo; pid = t.nextpid } in
    update_self (update t.proc i first) i (record (update t.proc i first i) { kstack = some page })
    ∙ ap (λ (p : Proc). record p { kstack = some page }) (update_self t.proc i first)

with_stack-Only : (t : Ptable) (i page : ℕ) → Only i t.proc (with_stack t i page)
unfolding with_stack alloc_stack alloc_entry
with_stack-Only t i page = twice-Only t.proc i _ _

fork_at :
    (t : Ptable) (cur : ℕ) (stack pages found : Option ℕ)
    → is_unused (t.proc cur).state ≡ false
    → Search t.proc nproc 0 found
    → ForkSpec t cur stack pages
        (copy_into cur (alloc_stack (alloc_entry t found) stack) pages).0
        (copy_into cur (alloc_stack (alloc_entry t found) stack) pages).1
unfolding alloc_entry alloc_stack copy_into with_stack filled
fork_at t cur stack pages _ used (miss all) = full λ i lt. all i (omega arith) (omega arith)
fork_at t cur none pages _ used (hit i le lt free) =
    no_memory i (omega arith) free
      (ap (λ (p : Proc). is_unused p.state) (update_self (alloc_entry t (some i)).1.proc i _))
      (ap (λ (p : Proc). p.kstack) (update_self (alloc_entry t (some i)).1.proc i _))
      (twice-Only t.proc i _ _) refl (inl refl)
fork_at t cur (some stack) none _ used (hit i le lt free) =
    no_memory i (omega arith) free
      (ap (λ (p : Proc). is_unused p.state) (update_self (with_stack t i stack) i _))
      (ap (λ (p : Proc). p.kstack) (update_self (with_stack t i stack) i _))
      (λ j ne. update_ne (with_stack t i stack) i _ j ne ∙ with_stack-Only t i stack j ne) refl
      (inr refl)
fork_at t cur (some stack) (some pgdir) _ used (hit i le lt free) =
    subst (λ pid. ForkSpec t cur (some stack) (some pgdir) (some pid) u) pid
      (born i pgdir stack (omega arith) free child
        (λ j ne. update_ne w i _ j ne ∙ with_stack-Only t i stack j ne) refl refl refl)
  where
    u : Ptable
    u = (copy_into cur (alloc_stack (alloc_entry t (some i)) (some stack)) (some pgdir)).1

    w : Table
    w = with_stack t i stack

    pid : t.nextpid ≡ (w i).pid
    pid = sym (ap (λ p. p.pid) (with_stack_at t i stack))

    caller : w cur ≡ t.proc cur
    caller =
        with_stack-Only t i stack cur
          (λ e. cc (sym used ∙ subst (λ k. is_unused (t.proc k).state ≡ true) e free))

    copy : Proc → Proc → Proc
    copy q p = record q {
      sz = p.sz;
      pgdir = some pgdir;
      parent = some cur;
      eax = 0;
      ofile = dup_files p.ofile q.ofile;
      cwd = p.cwd;
      name = p.name;
      state = runnable;
    }

    child : u.proc i ≡ copy (filled t i stack) (t.proc cur)
    child = update_self w i (copy (w i) (w cur)) ∙ ap₂ copy (with_stack_at t i stack) caller

-- `fork` by a process in the table, where no other step comes between its own: it fails and changes
-- nothing when no entry is unused; fails, with the entry that it tried left unused, when there is no
-- stack or no memory for the pages; and when there is an entry, a stack and the pages, makes that
-- unused entry a runnable child of the caller, a copy of it in size, open files, directory and name with
-- 0 in `eax`, and returns its pid, the next one. No other entry changes.
pub fork_lem :
    (t : Ptable) (cur : ℕ) (stack pages : Option ℕ)
    → is_unused (t.proc cur).state ≡ false
    → ForkSpec t cur stack pages (fork t cur stack pages).0 (fork t cur stack pages).1
unfolding fork
fork_lem t cur stack pages used =
    fork_at t cur stack pages (find_unused nproc 0 t.proc) used (find_unused-Search nproc 0 t.proc)
