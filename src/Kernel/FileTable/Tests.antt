-- ===== src/Kernel/FileTable/Tests.antt =====
-- Tests of the model of the file table, and its theorems at concrete states.
use laboratorio_lukitas.Common.{◌≡◌, refl, Bool, true, false, none, some, arith, ℕ, update}
use laboratorio_lukitas.Kernel.FileTable.{
  Open, File, Call, fails, returns, panics, fd_none, fd_inode, nofile, find_free, filealloc,
  find_fd, fdalloc, filedup, fileclose, argfd, sys_dup, sys_close, open_with, open_file, dup_all,
  dup_panics,
}
use laboratorio_lukitas.Kernel.FileTable.Counted.{Counted}
use laboratorio_lukitas.Kernel.FileTable.Calls.{Works}
use laboratorio_lukitas.Kernel.FileTable.Loops.{Ends}
use laboratorio_lukitas.Kernel.FileTable.Shared.{
  Reach, none_open, next, opens, left_returned, Reach-Counted, descriptor_calls_return,
  fork_inherits,
}

abbrev closed_file : File
closed_file = record {
  type = fd_none;
  ref = 0;
  readable = false;
  writable = false;
  pipe = 0;
  ip = 0;
  off = 0;
}

abbrev at_start : Open
at_start = record { files = λ f. closed_file; ofile = λ p fd. none }

-- Process 0 has opened inode 7 for writing.
abbrev one_open : Open
one_open = record {
  files =
      update (update at_start.files 0 (record closed_file { ref = 1 })) 0
        (record closed_file { type = fd_inode; ref = 1; writable = true; ip = 7 });
  ofile = update at_start.ofile 0 (update (at_start.ofile 0) 0 (some 0));
}

abbrev number : Call → ℕ
number (fails r s) = 100
number (returns n r s) = n
number panics = 200

opens_lowest : number (open_file at_start 3 7 true false) ≡ 0
unfolding open_file open_with filealloc find_free fdalloc find_fd fileclose
opens_lowest = refl

dup_is_second : number (sys_dup one_open 0 0) ≡ 1
unfolding sys_dup argfd fdalloc find_fd filedup
dup_is_second = refl

close_is_last : number (sys_close one_open 0 0) ≡ 0
unfolding sys_close argfd fileclose
close_is_last = refl

dup_of_a_free_file : filedup at_start.files 4 ≡ dup_panics
unfolding filedup
dup_of_a_free_file = refl

one_open-Reach : Reach one_open
unfolding open_file open_with filealloc find_free fdalloc find_fd
one_open-Reach =
    next (none_open {s = at_start} (λ f. refl) (λ p fd. refl))
      (opens 0 7 true false (omega arith) left_returned)

Reach-Counted_example : Counted one_open
Reach-Counted_example = Reach-Counted one_open one_open-Reach

descriptor_calls_return_example :
    ((fd : ℕ) → Works (sys_dup one_open 0 fd))
    × ((fd : ℕ) → Works (sys_close one_open 0 fd))
    × ((ip : ℕ) (wronly rdwr : Bool) → Works (open_file one_open 0 ip wronly rdwr))
descriptor_calls_return_example = descriptor_calls_return one_open 0 one_open-Reach (omega arith)

fork_inherits_example : Ends one_open 1 0 (one_open.ofile 0) (dup_all nofile 0 0 1 one_open)
fork_inherits_example =
    fork_inherits one_open 0 1 one_open-Reach (omega arith) (omega arith) (omega arith)
      (λ j l. refl)
