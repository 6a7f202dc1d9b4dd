-- ===== src/Kernel/FileTable.antt =====
-- xv6/file.c and the descriptors of xv6/sysfile.c: the table of open files with its reference
-- counts, and for each process an array of descriptors. A pointer to a `struct file` is the index
-- of its entry; an `int` argument is the word that holds it, so a negative one is large.
pub mod Sums
pub mod Counted
pub mod Search
pub mod Calls
pub mod Loops
pub mod Shared
mod Tests
use laboratorio_lukitas.Common.{
  ℕ, zero, suc, ◌+◌, ◌-◌, Bool, true, false, not, ◌&&◌, ◌||◌, Option, none, some, ltb, leb, ◌==◌,
  if◌then◌else◌, update,
}

abbrev pub nfile : ℕ
nfile = 100

abbrev pub nofile : ℕ
nofile = 16

pub data FileType : Type 0 where
  fd_none fd_pipe fd_inode : FileType

pub record File : Type 0 where
  pub type : FileType
  pub ref : ℕ
  pub readable : Bool
  pub writable : Bool
  pub pipe : ℕ
  pub ip : ℕ
  pub off : ℕ

abbrev pub Files : Type 0
Files = ℕ → File

-- The array `ofile` of one process.
abbrev pub Row : Type 0
Row = ℕ → Option ℕ

pub record Open : Type 0 where
  pub files : Files
  pub ofile : ℕ → Row

-- The search of `filealloc`.
unfoldable pub find_free : ℕ → ℕ → Files → Option ℕ
find_free zero i files = none
find_free (suc rounds) i files =
    let rest = find_free rounds (suc i) files in if (files i).ref == 0 then some i else rest

unfoldable pub filealloc : Files → Option ℕ × Files
filealloc files = elim (find_free nfile 0 files) [
  | none ↦ (none, files)
  | some i ↦ (some i, update files i (record (files i) { ref = 1 }))
]

pub data Dup : Type 0 where
  dup_panics : Dup
  dups : Files → Dup

abbrev pub more : Files → ℕ → Files
more files f = update files f (record (files f) { ref = (files f).ref + 1 })

unfoldable pub filedup : Files → ℕ → Dup
filedup files f = if ltb (files f).ref 1 then dup_panics else dups (more files f)

-- What `fileclose` does once the last reference is gone.
pub data Release : Type 0 where
  close_pipe : ℕ → Bool → Release
  put_inode : ℕ → Release
  nothing : Release

abbrev pub release_of : File → Release
release_of f = elim f.type [
  | fd_pipe ↦ close_pipe f.pipe f.writable
  | fd_inode ↦ put_inode f.ip
  | fd_none ↦ nothing
]

pub data Close : Type 0 where
  close_panics : Close
  closes : Release → Files → Close

abbrev pub fewer : Files → ℕ → Files
fewer files f = update files f (record (files f) {
  ref = (files f).ref - 1;
  type = if ltb 0 ((files f).ref - 1) then (files f).type else fd_none;
})

unfoldable pub fileclose : Files → ℕ → Close
fileclose files f =
    if ltb (files f).ref 1
    then close_panics
    else closes (if ltb 0 ((files f).ref - 1) then nothing else release_of (files f))
        (fewer files f)

unfoldable pub argfd : Row → ℕ → Option ℕ
argfd row fd = if leb nofile fd then none else row fd

-- The search of `fdalloc`.
unfoldable pub find_fd : ℕ → ℕ → Row → Option ℕ
find_fd zero i row = none
find_fd (suc rounds) i row =
    let rest = find_fd rounds (suc i) row in elim (row i) [ none ↦ some i | some _ ↦ rest ]

unfoldable pub fdalloc : Row → ℕ → Option (ℕ × Row)
fdalloc row f = elim (find_fd nofile 0 row) [
  | none ↦ none
  | some fd ↦ some (fd, update row fd (some f))
]

abbrev pub set_row : Open → ℕ → Row → Files → Open
set_row s p row files = record { files = files; ofile = update s.ofile p row }

-- What a system call ends with: -1 or the number returned, with what is released and the state, or
-- a panic.
pub data Call : Type 0 where
  fails : Release → Open → Call
  returns : ℕ → Release → Open → Call
  panics : Call

unfoldable pub sys_dup : Open → ℕ → ℕ → Call
sys_dup s p fd = elim (argfd (s.ofile p) fd) [
  | none ↦ fails nothing s
  | some f ↦ elim (fdalloc (s.ofile p) f) [
    | none ↦ fails nothing s
    | some r ↦ elim (filedup s.files f) [
      | dup_panics ↦ panics
      | dups files ↦ returns r.0 nothing (set_row s p r.1 files)
    ]
  ]
]

unfoldable pub sys_close : Open → ℕ → ℕ → Call
sys_close s p fd = elim (argfd (s.ofile p) fd) [
  | none ↦ fails nothing s
  | some f ↦ elim (fileclose s.files f) [
    | close_panics ↦ panics
    | closes r files ↦ returns 0 r (set_row s p (update (s.ofile p) fd none) files)
  ]
]

-- The fields that `sys_open` sets, from the inode and the mode's O_WRONLY and O_RDWR.
abbrev pub opened : File → ℕ → Bool → Bool → File
opened f ip wronly rdwr = record f {
  type = fd_inode;
  ip = ip;
  off = 0;
  readable = not wronly;
  writable = wronly || rdwr;
}

-- What `sys_open` does with the entry that `filealloc` found.
unfoldable pub open_with : Open → ℕ → ℕ → Bool → Bool → Option ℕ × Files → Call
open_with s p ip wronly rdwr (none, files) = fails nothing s
open_with s p ip wronly rdwr (some f, files) = elim (fdalloc (s.ofile p) f) [
  | some r ↦
      returns r.0 nothing (set_row s p r.1 (update files f (opened (files f) ip wronly rdwr)))
  | none ↦ elim (fileclose files f) [
    | close_panics ↦ panics
    | closes r closed ↦ fails r (record s { files = closed })
  ]
]

-- `sys_open` from `filealloc` on, with its inode found.
unfoldable pub open_file : Open → ℕ → ℕ → Bool → Bool → Call
open_file s p ip wronly rdwr = open_with s p ip wronly rdwr (filealloc s.files)

-- The loop of `fork` over the descriptors; `none` is a panic.
unfoldable pub dup_all : ℕ → ℕ → ℕ → ℕ → Open → Option Open
dup_all zero i cur child s = some s
dup_all (suc rounds) i cur child s = elim (s.ofile cur i) [
  | none ↦ dup_all rounds (suc i) cur child s
  | some f ↦ elim (filedup s.files f) [
    | dup_panics ↦ none
    | dups files ↦
        dup_all rounds (suc i) cur child (set_row s child (update (s.ofile child) i (some f)) files)
  ]
]

-- The loop of `exit` over the descriptors, without what its closes release; `none` is a panic.
unfoldable pub close_all : ℕ → ℕ → ℕ → Open → Option Open
close_all zero i cur s = some s
close_all (suc rounds) i cur s = elim (s.ofile cur i) [
  | none ↦ close_all rounds (suc i) cur s
  | some f ↦ elim (fileclose s.files f) [
    | close_panics ↦ none
    | closes _ files ↦
        close_all rounds (suc i) cur (set_row s cur (update (s.ofile cur) i none) files)
  ]
]
