-- ===== src/Kernel/Log.antt =====
-- xv6/log.c: the redo log. A block is a list of 32-bit words, and the disk a function from block
-- numbers; `dirty` holds the blocks that the buffer cache keeps pinned (B_DIRTY) since `log_write`,
-- so that reading any other block is reading the disk. `writes` is a history of the disk writes.
pub mod Header
pub mod Trace
pub mod Disks
pub mod Install
pub mod Clear
pub mod Recovery
pub mod WriteLog
pub mod Commit
pub mod Atomic
pub mod Keeps
pub mod Space
pub mod System
pub mod Reserve
mod Tests
use laboratorio_lukitas.Common.{
  ℕ, zero, suc, ◌+◌, ◌-◌, ◌*◌, Bool, true, false, ◌||◌, Option, none, some, List, [], ◌∷◌, ◌++◌,
  ltb, leb, ◌==◌, if◌then◌else◌, get_or, set, replicate, update,
}

abbrev pub max_op_blocks : ℕ
max_op_blocks = 10

abbrev pub log_size : ℕ
log_size = 30

abbrev pub Block : Type 0
Block = List ℕ

abbrev pub Disk : Type 0
Disk = ℕ → Block

-- `block` is the array of LOGSIZE block numbers, of which the first `n` are in use.
pub record LogHeader : Type 0 where
  pub n : ℕ
  pub block : List ℕ

pub record Machine : Type 0 where
  pub start : ℕ
  pub size : ℕ
  pub outstanding : ℕ
  pub committing : Bool
  pub lh : LogHeader
  pub disk : Disk
  pub dirty : ℕ → Option Block
  pub writes : List (ℕ × Block)

pub data Result : Type 0 where
  ok : Machine → Result
  panic : Result

-- What `bread` returns: the pinned copy, or the block on the disk.
pub bread : Machine → ℕ → Block
bread m b = elim (m.dirty b) [ some d ↦ d | none ↦ m.disk b ]

-- `bwrite` after the caller's `memmove` into the buffer: the disk is written, B_DIRTY cleared.
pub bwrite : Machine → ℕ → Block → Machine
bwrite m b d = record m {
  disk = update m.disk b d;
  dirty = update m.dirty b none;
  writes = m.writes ++ (b, d) ∷ [];
}

-- The loop of `install_trans`: `rounds` are left, and `tail` is the next entry.
pub install_from : ℕ → ℕ → Machine → Machine
install_from zero tail m = m
install_from (suc rounds) tail m =
    install_from rounds (suc tail)
      (bwrite m (get_or m.lh.block tail 0) (bread m (m.start + suc tail)))

pub install_trans : Machine → Machine
install_trans m = install_from m.lh.n 0 m

-- The loop of `read_head`: `lh.block[i] = hb->block[i]`.
pub read_entries : ℕ → ℕ → Block → List ℕ → List ℕ
read_entries zero i hb block = block
read_entries (suc rounds) i hb block =
    read_entries rounds (suc i) hb (set block i (get_or hb (suc i) 0))

pub read_head : Machine → Machine
read_head m = record m { lh = record { n = get_or hb 0 0; block = block' } }
  where
    hb : Block
    hb = bread m m.start

    block' : List ℕ
    block' = read_entries (get_or hb 0 0) 0 hb m.lh.block

-- The loop of `write_head`: `hb->block[i] = lh.block[i]`, over the rest of the old header block.
pub copy_entries : ℕ → ℕ → List ℕ → Block → Block
copy_entries zero i block hb = hb
copy_entries (suc rounds) i block hb =
    copy_entries rounds (suc i) block (set hb (suc i) (get_or block i 0))

pub head_block : LogHeader → Block → Block
head_block lh hb = copy_entries lh.n 0 lh.block (set hb 0 lh.n)

pub write_head : Machine → Machine
write_head m = bwrite m m.start (head_block m.lh (bread m m.start))

abbrev pub clear_head : Machine → Machine
clear_head m = record m { lh = record { n = 0; block = m.lh.block } }

pub recover_from_log : Machine → Machine
recover_from_log m = write_head (clear_head (install_trans (read_head m)))

-- The state in which `initlog` calls `recover_from_log`: nothing cached, `log` zeroed but for the
-- place of the log, which the superblock gives.
abbrev pub boot : ℕ → ℕ → Disk → Machine
boot start size disk = record {
  start = start;
  size = size;
  outstanding = 0;
  committing = false;
  lh = record { n = 0; block = replicate log_size 0 };
  disk = disk;
  dirty = λ _. none;
  writes = [];
}

pub initlog : ℕ → ℕ → Disk → Machine
unfolding recover_from_log
initlog start size disk = recover_from_log (boot start size disk)

-- The loop of `write_log`: the block's cached copy goes to its place in the log.
pub write_log_from : ℕ → ℕ → Machine → Machine
write_log_from zero tail m = m
write_log_from (suc rounds) tail m =
    write_log_from rounds (suc tail)
      (bwrite m (m.start + suc tail) (bread m (get_or m.lh.block tail 0)))

pub write_log : Machine → Machine
write_log m = write_log_from m.lh.n 0 m

pub commit : Machine → Machine
commit m =
    if ltb 0 m.lh.n then write_head (clear_head (install_trans (write_head (write_log m)))) else m

-- `begin_op` either sleeps (`none`), to test again when it is woken, or is admitted.
pub begin_op : Machine → Option Machine
begin_op m =
    if m.committing
    then none
    else if ltb log_size (m.lh.n + (m.outstanding + 1) * max_op_blocks)
    then none
    else some (record m { outstanding = m.outstanding + 1 })

-- `end_op` up to its first release of the lock, and whether it is to commit. `outstanding` is at
-- least 1 here, as every `end_op` follows its `begin_op`.
pub end_op_enter : Machine → Option (Bool × Machine)
end_op_enter m =
    if m.committing
    then none
    else if m.outstanding == 1
    then some (true, record m { outstanding = 0; committing = true })
    else some (false, record m { outstanding = m.outstanding - 1 })

-- The part of `end_op` under `do_commit`.
pub end_op_commit : Machine → Machine
end_op_commit m = let c = commit m in record c { committing = false }

-- The loop of `log_write`: the index of the block in the header, or the first free index.
pub absorb : ℕ → ℕ → List ℕ → ℕ → ℕ
absorb zero i block b = i
absorb (suc rounds) i block b =
    let rest = absorb rounds (suc i) block b in if get_or block i 0 == b then i else rest

pub enter_block : LogHeader → ℕ → LogHeader
enter_block lh b = record { n = if i == lh.n then lh.n + 1 else lh.n; block = set lh.block i b }
  where
    i : ℕ
    i = absorb lh.n 0 lh.block b

-- `log_write` of a buffer whose data the caller has set to `d`.
pub log_write : Machine → ℕ → Block → Result
log_write m b d =
    if leb log_size m.lh.n || leb (m.size - 1) m.lh.n
    then panic
    else if ltb m.outstanding 1
    then panic
    else ok (record m { lh = enter_block m.lh b; dirty = update m.dirty b (some d) })
