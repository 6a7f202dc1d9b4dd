-- ===== src/Kernel/Proc/Tests.antt =====
-- Tests of the model of xv6/proc.c, and its theorems at concrete tables.
use laboratorio_lukitas.Common.{
  ℕ, ◌≡◌, refl, ◌⊎◌, inl, inr, true, false, some, none, [], ◌∷◌, arith, update, sym,
}
use laboratorio_lukitas.Kernel.Proc.{
  Table, Ptable, Proc, unused, running, sleeping, zombie, nowhere, entry, is_unused, find_unused,
  alloc_entry, alloc_stack, fork, copy_into, scan, wait, reaped, kill, pscnt_from, sys_pscnt,
  dup_files,
}
use laboratorio_lukitas.Kernel.Proc.Wait.{WaitSpec, wait_lem}
use laboratorio_lukitas.Kernel.Proc.Fork.{ForkSpec, fork_lem}
use laboratorio_lukitas.Kernel.Proc.Steps.{Reach, here, next, allocates, fork_ends, Family}
use laboratorio_lukitas.Kernel.Proc.Members.{member_used}
use laboratorio_lukitas.Kernel.Proc.Family.{Reach-Family}
use laboratorio_lukitas.Kernel.Proc.KillZero.{PidZero, BornKilled, kill_zero_marks_next_child}

abbrev empty : Proc
empty = record {
  sz = 0;
  pgdir = none;
  kstack = none;
  state = unused;
  pid = 0;
  parent = none;
  eax = 0;
  chan = nowhere;
  killed = false;
  ofile = none ∷ none ∷ [];
  cwd = none;
  name = [];
}

-- Entry 0 is init, which waits for its child in entry 1, which runs with one open file.
abbrev table : Table
table =
    update
      (update (λ _. empty) 0
        (record empty { state = sleeping; pid = 1; chan = entry 0; kstack = some 8 }))
      1
      (record empty {
        state = running;
        pid = 2;
        parent = some 0;
        kstack = some 9;
        ofile = some 4 ∷ none ∷ [];
      })

abbrev ptable : Ptable
ptable = record { proc = table; nextpid = 3 }

forked : (fork ptable 1 (some 10) (some 11)).0 ≡ some 3
unfolding fork find_unused alloc_entry alloc_stack
forked = refl

child_files : ((fork ptable 1 (some 10) (some 11)).1.proc 2).ofile ≡ some 4 ∷ none ∷ []
unfolding fork find_unused alloc_entry alloc_stack dup_files
child_files = refl

-- The exit of entry 1 wakes init, whose next scan reaps it.
abbrev exited : Table
exited = update table 1 (record (table 1) { state = zombie })

waited : (p : Table) × (wait exited 0 ≡ reaped 2 p)
unfolding wait scan
waited = (_, refl)

counted : sys_pscnt table ≡ 2
unfolding sys_pscnt pscnt_from
counted = refl

wait_lem_example : WaitSpec exited 0 (wait exited 0)
wait_lem_example = wait_lem exited 0

fork_lem_example :
    ForkSpec ptable 1
      (some 10)
      (some 11)
      (fork ptable 1 (some 10) (some 11)).0
      (fork ptable 1 (some 10) (some 11)).1
fork_lem_example = fork_lem ptable 1 (some 10) (some 11) refl

table_used : (i : ℕ) → is_unused (table i).state ≡ false → (i ≡ 0) ⊎ (i ≡ 1)
table_used i h = ground arith

ptable-Family : Family 0 ptable
ptable-Family = record {
  in_table = omega arith;
  init_live = refl;
  parents = λ i lt ne used. elim (table_used i (member_used (table i) used)) [
    | inl e ↦ absurd (ne (sym e))
    | inr e ↦ (0, omega arith, ground arith, refl)
  ];
  pids = λ i lt used. ground arith;
  distinct = λ i j li lj ui uj e. elim (table_used i ui) [
    | inl a ↦ elim (table_used j uj) [ inl b ↦ omega arith | inr b ↦ ground arith ]
    | inr a ↦ elim (table_used j uj) [ inl b ↦ ground arith | inr b ↦ omega arith ]
  ];
}

-- After the first part of a fork by entry 1, entry 2 is an embryo.
abbrev half_forked : Ptable
half_forked = (alloc_entry ptable (some 2)).1

half_forked-Reach :
    Reach 0 ptable (copy_into 1 (alloc_stack (some 2, half_forked) (some 10)) (some 11)).1
unfolding find_unused alloc_entry
half_forked-Reach =
    next (next here (allocates 1 refl (omega arith)))
      (fork_ends 1 2 (some 10) (some 11) (omega arith) refl refl)

Reach-Family_example :
    Family 0 (copy_into 1 (alloc_stack (some 2, half_forked) (some 10)) (some 11)).1
Reach-Family_example = Reach-Family half_forked-Reach ptable-Family

table-PidZero : PidZero table
table-PidZero i = ground arith

kill_zero_marks_next_child_example :
    let (found, u) = kill table 0 in
    (found ≡ true) × BornKilled ptable 1 2 (fork (record ptable { proc = u }) 1 (some 10) (some 11))
unfolding find_unused
kill_zero_marks_next_child_example = kill_zero_marks_next_child ptable 1 2 10 11 table-PidZero refl
