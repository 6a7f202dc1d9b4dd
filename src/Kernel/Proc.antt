-- ===== src/Kernel/Proc.antt =====
-- xv6/proc.c and proc.h: the process table. A pointer to an entry is its index below NPROC, and the
-- table is a function that is only read there. What `kalloc` and `copyuvm` return are arguments.
-- A function that holds `ptable.lock` over all that it changes is one step. `fork` is two: its entry is an
-- embryo with the lock free from `alloc_entry` on. What `exit` does to its own entry before it takes the
-- lock no other process reads. Panics on the lock, which `sleep` has, are left out.
pub mod Wait
pub mod Adopt
pub mod Exit
pub mod Fork
pub mod Steps
pub mod Members
pub mod Family
pub mod KillZero
mod Tests
use laboratorio_lukitas.Common.{
  ℕ, zero, suc, ◌+◌, ◌%◌, Bool, true, false, not, ◌&&◌, ◌||◌, Option, none, some, List, [], ◌∷◌,
  ◌==◌, if◌then◌else◌, update,
}

abbrev pub nproc : ℕ
nproc = 64

pub data ProcState : Type 0 where
  unused embryo sleeping runnable running zombie : ProcState

-- A wait channel: no channel, an entry of the table (as in `wait`), or another address.
pub data Chan : Type 0 where
  nowhere : Chan
  entry : ℕ → Chan
  address : ℕ → Chan

-- `kstack` and `pgdir` are null or a page; `eax` is the field of the trap frame that `fork` sets.
pub record Proc : Type 0 where
  pub sz : ℕ
  pub pgdir : Option ℕ
  pub kstack : Option ℕ
  pub state : ProcState
  pub pid : ℕ
  pub parent : Option ℕ
  pub eax : ℕ
  pub chan : Chan
  pub killed : Bool
  pub ofile : List (Option ℕ)
  pub cwd : Option ℕ
  pub name : List ℕ

abbrev pub Table : Type 0
Table = ℕ → Proc

pub record Ptable : Type 0 where
  pub proc : Table
  pub nextpid : ℕ

abbrev pub is_unused : ProcState → Bool
is_unused unused = true
is_unused _ = false

abbrev pub is_sleeping : ProcState → Bool
is_sleeping sleeping = true
is_sleeping _ = false

abbrev pub is_runnable : ProcState → Bool
is_runnable runnable = true
is_runnable _ = false

abbrev pub is_zombie : ProcState → Bool
is_zombie zombie = true
is_zombie _ = false

abbrev pub same_chan : Chan → Chan → Bool
same_chan nowhere nowhere = true
same_chan (entry i) (entry j) = i == j
same_chan (address a) (address b) = a == b
same_chan _ _ = false

abbrev pub points_to : Option ℕ → ℕ → Bool
points_to none i = false
points_to (some j) i = j == i

-- The search loop of `allocproc`.
pub find_unused : ℕ → ℕ → Table → Option ℕ
find_unused zero i t = none
find_unused (suc rounds) i t =
    let rest = find_unused rounds (suc i) t in if is_unused (t i).state then some i else rest

-- `nextpid` is an int; what it becomes past its largest value is its 32 bits.
abbrev pub next_pid : ℕ → ℕ
next_pid n = (n + 1) % 4294967296

-- The part of `allocproc` under the lock, at what its search found.
unfoldable pub alloc_entry : Ptable → Option ℕ → Option ℕ × Ptable
alloc_entry t none = (none, t)
alloc_entry t (some i) = (
  some i,
  record {
    proc = update t.proc i (record (t.proc i) { state = embryo; pid = t.nextpid });
    nextpid = next_pid t.nextpid;
  },
)

-- The rest of `allocproc`, with what `kalloc` returns.
unfoldable pub alloc_stack : Option ℕ × Ptable → Option ℕ → Option ℕ × Ptable
alloc_stack (none, t) stack = (none, t)
alloc_stack (some i, t) none = (
  none,
  record t { proc = update t.proc i (record (t.proc i) { kstack = none; state = unused }) },
)
alloc_stack (some i, t) (some page) =
    (some i, record t { proc = update t.proc i (record (t.proc i) { kstack = some page }) })

pub allocproc : Ptable → Option ℕ → Option ℕ × Ptable
unfolding alloc_entry alloc_stack
allocproc t stack = alloc_stack (alloc_entry t (find_unused nproc 0 t.proc)) stack

-- The loop of `fork` over the open files: an entry is copied where it is not null.
pub dup_files : List (Option ℕ) → List (Option ℕ) → List (Option ℕ)
dup_files [] new = new
dup_files (none ∷ old) [] = []
dup_files (some f ∷ old) [] = []
dup_files (none ∷ old) (n ∷ new) = n ∷ dup_files old new
dup_files (some f ∷ old) (n ∷ new) = some f ∷ dup_files old new

-- `fork` by the process `cur` from the return of `allocproc` on, with what `copyuvm` returns.
pub copy_into : ℕ → Option ℕ × Ptable → Option ℕ → Option ℕ × Ptable
copy_into cur (none, t) pages = (none, t)
copy_into cur (some i, t) none = (
  none,
  record t {
    proc = update t.proc i (record (t.proc i) { pgdir = none; kstack = none; state = unused });
  },
)
copy_into cur (some i, t) (some pgdir) = (
  some (t.proc i).pid,
  record t {
    proc = update t.proc i (record (t.proc i) {
      sz = (t.proc cur).sz;
      pgdir = some pgdir;
      parent = some cur;
      eax = 0;
      ofile = dup_files (t.proc cur).ofile (t.proc i).ofile;
      cwd = (t.proc cur).cwd;
      name = (t.proc cur).name;
      state = runnable;
    });
  },
)

-- `fork` by the process `cur`; `stack` and `pages` are what `kalloc` and `copyuvm` return. -1 is
-- `none`.
pub fork : Ptable → ℕ → Option ℕ → Option ℕ → Option ℕ × Ptable
unfolding allocproc copy_into
fork t cur stack pages = copy_into cur (allocproc t stack) pages

-- The body of the loop of `wakeup1`, for one entry.
pub wake : Chan → Proc → Proc
wake c p = if is_sleeping p.state && same_chan p.chan c then record p { state = runnable } else p

pub wakeup1 : Chan → Table → Table
unfolding wake
wakeup1 c t i = wake c (t i)

-- The body of the loop of `exit` that passes abandoned children to init, and the loop.
pub adopt_one : ℕ → ℕ → ℕ → Table → Table
adopt_one i cur initproc t =
    let t' = update t i (record (t i) { parent = some initproc }) in
    if points_to (t i).parent cur
    then if is_zombie (t i).state then wakeup1 (entry initproc) t' else t'
    else t

pub adopt : ℕ → ℕ → ℕ → ℕ → Table → Table
adopt zero i cur initproc t = t
adopt (suc rounds) i cur initproc t = adopt rounds (suc i) cur initproc (adopt_one i cur initproc t)

abbrev pub no_files : List (Option ℕ) → List (Option ℕ)
no_files [] = []
no_files (f ∷ fs) = none ∷ no_files fs

-- A pointer to an entry, used as a channel.
abbrev pub chan_of : Option ℕ → Chan
chan_of none = nowhere
chan_of (some p) = entry p

-- `exit` by the process `cur` up to its call of `sched`; `none` is the panic of init.
pub exit : Table → ℕ → ℕ → Option Table
exit t initproc cur =
    if cur == initproc
    then none
    else (let closed =
          update t cur (record (t cur) { ofile = no_files (t cur).ofile; cwd = none }) in
        let woken = wakeup1 (chan_of (t cur).parent) closed in
        let adopted = adopt nproc 0 cur initproc woken in
        some (update adopted cur (record (adopted cur) { state = zombie })))

-- What the scan of `wait` finds: an exited child, or whether there are children.
pub data Scan : Type 0 where
  exited : ℕ → Scan
  kids : Bool → Scan

pub scan : ℕ → ℕ → Bool → ℕ → Table → Scan
scan zero i havekids cur t = kids havekids
scan (suc rounds) i havekids cur t =
    let rest = scan rounds (suc i) (havekids || points_to (t i).parent cur) cur t in
    if points_to (t i).parent cur && is_zombie (t i).state then exited i else rest

pub data Waited : Type 0 where
  reaped : ℕ → Table → Waited
  no_child : Waited
  sleeps : Table → Waited

pub reap : Proc → Proc
reap p = record p {
  kstack = none;
  pid = 0;
  parent = none;
  name = [];
  killed = false;
  state = unused;
}

-- One round of the loop of `wait` by `cur`, up to its return or its sleep on the channel `cur`.
pub wait : Table → ℕ → Waited
unfolding reap
wait t cur = elim (scan nproc 0 false cur t) [
  | exited i ↦ reaped (t i).pid (update t i (reap (t i)))
  | kids havekids ↦
      if not havekids || (t cur).killed
      then no_child
      else sleeps (update t cur (record (t cur) { chan = entry cur; state = sleeping }))
]

-- `sleep` up to its call of `sched`.
pub sleep : Table → ℕ → Chan → Table
sleep t cur c = update t cur (record (t cur) { chan = c; state = sleeping })

-- `sleep` from there on, when the process runs again.
pub sleep_ends : Table → ℕ → Table
sleep_ends t cur = update t cur (record (t cur) { chan = nowhere })

-- `yield` up to its call of `sched`.
pub yield : Table → ℕ → Table
yield t cur = update t cur (record (t cur) { state = runnable })

-- One turn of the scheduler's loop: the entry `i` is run if it is runnable.
pub schedule : Table → ℕ → Table
schedule t i = if is_runnable (t i).state then update t i (record (t i) { state = running }) else t

-- The search loop of `kill`.
pub find_pid : ℕ → ℕ → ℕ → Table → Option ℕ
find_pid zero i pid t = none
find_pid (suc rounds) i pid t =
    let rest = find_pid rounds (suc i) pid t in if (t i).pid == pid then some i else rest

-- `kill`: whether it found the process (0) or not (-1), and the table.
pub kill : Table → ℕ → Bool × Table
kill t pid = elim (find_pid nproc 0 pid t) [
  | none ↦ (false, t)
  | some i ↦ (
    true,
    update t i (record (t i) {
      killed = true;
      state = if is_sleeping (t i).state then runnable else (t i).state;
    }),
  )
]

-- The loop of `sys_pscnt`.
pub pscnt_from : ℕ → ℕ → ℕ → Table → ℕ
pscnt_from zero i count t = count
pscnt_from (suc rounds) i count t =
    pscnt_from rounds (suc i) (if is_unused (t i).state then count else count + 1) t

pub sys_pscnt : Table → ℕ
sys_pscnt t = pscnt_from nproc 0 0 t
