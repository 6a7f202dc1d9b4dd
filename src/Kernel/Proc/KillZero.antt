-- ===== src/Kernel/Proc/KillZero.antt =====
-- `kill(0)` in xv6/proc.c: the entries that are not in use have pid 0 too, and `kill` does not look
-- at their state.
use laboratorio_lukitas.Common.{
  ℕ, zero, suc, ◌≡◌, refl, ◌∙◌, ap, sym, true, Option, some, subst, arith, update, ◌==◌,
  if◌then◌else◌,
}
use laboratorio_lukitas.Kernel.Proc.{
  Table, Ptable, Proc, nproc, is_unused, is_sleeping, unused, runnable, find_unused, find_pid, kill,
  fork, alloc_entry, alloc_stack, copy_into,
}

-- The entries that are not in use are those with pid 0.
abbrev pub PidZero : Table → Type 0
PidZero t = (i : ℕ) → is_unused (t i).state ≡ ((t i).pid == 0)

same_search :
    (rounds i : ℕ) (t : Table) → PidZero t → find_unused rounds i t ≡ find_pid rounds i 0 t
unfolding find_unused find_pid
same_search zero i t h = refl
same_search (suc rounds) i t h = rw (h i, same_search rounds (suc i) t h) refl

-- The table in which `kill` has set the mark on an entry that is not in use.
abbrev marked : Table → ℕ → Table
marked t i = update t i (record (t i) { killed = true; state = unused })

find_unused-marked :
    (rounds j : ℕ) (t : Table) (i : ℕ)
    → is_unused (t i).state ≡ true
    → find_unused rounds j (marked t i) ≡ find_unused rounds j t
unfolding find_unused
find_unused-marked zero j t i h = refl
find_unused-marked (suc rounds) j t i h = ground (arith, find_unused-marked rounds (suc j) t i)

found_unused :
    (rounds j : ℕ) (t : Table) (i : ℕ)
    → find_unused rounds j t ≡ some i
    → is_unused (t i).state ≡ true
unfolding find_unused
found_unused zero j t i e = cc e
found_unused (suc rounds) j t i e = ground (arith, found_unused rounds (suc j) t i)

stays_unused :
    (p : Proc)
    → is_unused p.state ≡ true
    → (if is_sleeping p.state then runnable else p.state) ≡ unused
stays_unused p h = ground arith

kill_zero :
    (t : Table) (i : ℕ) → PidZero t → find_unused nproc 0 t ≡ some i → kill t 0 ≡ (true, marked t i)
unfolding kill
kill_zero t i h e =
    rw (sym (same_search nproc 0 t h) ∙ e, kill)
      (ap (λ s. (true, update t i (record (t i) { killed = true; state = s })))
        (stays_unused (t i) (found_unused nproc 0 t i e)))

-- A child that is born killed: the entry `i`, runnable, with the caller for its parent.
pub record BornKilled (t : Ptable) (cur i : ℕ) (result : Option ℕ × Ptable) : Type 0 where
  pub returns : result.0 ≡ some t.nextpid
  pub pid : (result.1.proc i).pid ≡ t.nextpid
  pub parent : (result.1.proc i).parent ≡ some cur
  pub state : (result.1.proc i).state ≡ runnable
  pub killed : (result.1.proc i).killed ≡ true

born_marked :
    (t : Ptable) (cur i stack pgdir : ℕ)
    → BornKilled t cur i (
        copy_into cur
          (alloc_stack (alloc_entry (record t { proc = marked t.proc i }) (some i)) (some stack))
          (some pgdir))
unfolding copy_into alloc_entry alloc_stack
born_marked t cur i stack pgdir = record {
  returns = ground arith;
  pid = ground arith;
  parent = ground arith;
  state = ground arith;
  killed = ground arith;
}

-- Where the entries not in use are those with pid 0, a call `kill(0)` succeeds if there is one, and
-- the next fork, when there are a stack and pages for it, returns the pid of a runnable child of the
-- caller that is born killed: `allocproc` does not clear the mark.
pub kill_zero_marks_next_child :
    (t : Ptable) (cur i stack pgdir : ℕ)
    → PidZero t.proc
    → find_unused nproc 0 t.proc ≡ some i
    → let (found, u) = kill t.proc 0 in
      (found ≡ true)
      × BornKilled t cur i (fork (record t { proc = u }) cur (some stack) (some pgdir))
unfolding fork
kill_zero_marks_next_child t cur i stack pgdir h e = rw (kill_zero t.proc i h e) (refl, child)
  where
    again : find_unused nproc 0 (marked t.proc i) ≡ some i
    again = find_unused-marked nproc 0 t.proc i (found_unused nproc 0 t.proc i e) ∙ e

    child :
        BornKilled t cur i
          (fork (record t { proc = marked t.proc i }) cur (some stack) (some pgdir))
    child =
        subst
          (λ f. BornKilled t cur i (
            copy_into cur
              (alloc_stack (alloc_entry (record t { proc = marked t.proc i }) f) (some stack))
              (some pgdir)))
          (sym again) (born_marked t cur i stack pgdir)
