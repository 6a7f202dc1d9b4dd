-- ===== src/Kernel/Fs/Inode.antt =====
-- Inodes of xv6/fs.c: the locked in-memory copy, its blocks, and reading and writing its content.
-- The caller holds the inode's lock, and is in a transaction with room in the log for the blocks that it
-- changes: `log_write` is taken to accept each of them (Kernel/Log says when it does, and `filewrite` in
-- xv6/file.c sees to it), and its panics are not outcomes here. Numbers of type `uint` keep their wrap-around where the
-- code tests for it.
pub mod Slots
pub mod Map
pub mod Bmap
pub mod Find
pub mod Scarce
pub mod Content
pub mod Reading
pub mod Writing
pub mod Storing
pub mod Transfer
pub mod RoundTrip
use laboratorio_lukitas.Common.{
  ℕ, zero, suc, ◌+◌, ◌-◌, ◌*◌, ◌/◌, ◌%◌, Bool, true, false, ◌&&◌, Option, none, some, ltb, leb,
  ◌==◌, if◌then◌else◌, update,
}
use laboratorio_lukitas.Kernel.Fs.Disk.{
  Bytes, Fs, SuperBlock, bsize, with_block, balloc, bfree, get_word, put_word,
}

abbrev pub ndirect : ℕ
ndirect = 12

abbrev pub nindirect : ℕ
nindirect = 128

abbrev pub maxfile : ℕ
maxfile = 140

abbrev pub u32 : ℕ
u32 = 4294967296

-- The disk part of `struct inode`, with its number.
pub record Inode : Type 0 where
  pub inum : ℕ
  pub type : ℕ
  pub major : ℕ
  pub minor : ℕ
  pub nlink : ℕ
  pub size : ℕ
  pub addrs : ℕ → ℕ

abbrev pub with_addr : Inode → ℕ → ℕ → Inode
with_addr ip i a = record ip { addrs = update ip.addrs i a }

-- The address found or allocated, with the inode and the blocks after it.
pub record Mapped : Type 0 where
  pub addr : ℕ
  pub inode : Inode
  pub fs : Fs

-- The address in the slot `i` of `addrs`, allocated if there is none; `none` is a panic of `balloc`.
unfoldable pub addr_slot : Fs → Inode → ℕ → Option Mapped
addr_slot f ip i =
    if ip.addrs i == 0
    then elim (balloc f) [
      | none ↦ none
      | some r ↦ some (record { addr = r.0; inode = with_addr ip i r.0; fs = r.1 })
    ]
    else some (record { addr = ip.addrs i; inode = ip; fs = f })

-- The same for the slot `i` of the indirect block `ind`.
unfoldable pub indirect_slot : Fs → Inode → ℕ → ℕ → Option Mapped
indirect_slot f ip ind i =
    if get_word (f.block ind) i == 0
    then elim (balloc f) [
      | none ↦ none
      | some r ↦ some (record {
        addr = r.0;
        inode = ip;
        fs = with_block r.1 ind (put_word (r.1.block ind) i r.0);
      })
    ]
    else some (record { addr = get_word (f.block ind) i; inode = ip; fs = f })

unfoldable pub bmap : Fs → Inode → ℕ → Option Mapped
bmap f ip bn =
    if ltb bn ndirect
    then addr_slot f ip bn
    else if ltb (bn - ndirect) nindirect
    then elim (addr_slot f ip ndirect) [
      | none ↦ none
      | some m ↦ indirect_slot m.fs m.inode m.addr (bn - ndirect)
    ]
    else none

-- The macro `min`, at the bytes left and the rest of the block.
unfoldable pub chunk : ℕ → ℕ → ℕ
chunk left off = if ltb left (bsize - off % bsize) then left else bsize - off % bsize

abbrev pub Memory : Type 0
Memory = ℕ → ℕ

-- `memmove` of `n` bytes between a block and the caller's memory.
abbrev pub copy_bytes : Memory → ℕ → Bytes → ℕ → ℕ → Memory
copy_bytes mem dst d o n a = if leb dst a && ltb a (dst + n) then d (o + (a - dst)) else mem a

pub data Read : Type 0 where
  read_panics : Read
  read_fails : Read
  read_device : ℕ → Read
  reads : ℕ → Memory → Inode → Fs → Read

-- The loop of `readi`, with n - tot bytes left.
unfoldable pub read_blocks : ℕ → Fs → Inode → ℕ → ℕ → ℕ → Memory → Option (Memory × Inode × Fs)
read_blocks zero f ip dst off left mem = some (mem, ip, f)
read_blocks (suc rounds) f ip dst off left mem = elim (left == 0) [
  | true ↦ some (mem, ip, f)
  | false ↦ elim (bmap f ip (off / bsize)) [
    | none ↦ none
    | some m ↦
        let n = chunk left off in
        read_blocks rounds m.fs m.inode (dst + n) (off + n) (left - n)
          (copy_bytes mem dst (m.fs.block m.addr) (off % bsize) n)
  ]
]

-- The type of a device; `has_device` says which majors have the function in `devsw`.
abbrev pub t_dev : ℕ
t_dev = 3

abbrev pub ndev : ℕ
ndev = 10

unfoldable pub readi : (ℕ → Bool) → Fs → Inode → ℕ → ℕ → ℕ → Memory → Read
readi has_device f ip dst off n mem =
    if ip.type == t_dev
    then if ltb ip.major ndev && has_device ip.major then read_device ip.major else read_fails
    else if ltb ip.size off
    then read_fails
    else if ltb ((off + n) % u32) off
    then read_fails
    else let m = if ltb ip.size (off + n) then ip.size - off else n in
      elim (read_blocks m f ip dst off m mem) [ none ↦ read_panics | some r ↦ reads m r.0 r.1 r.2 ]

pub data Write : Type 0 where
  write_panics : Write
  write_fails : Write
  write_device : ℕ → Write
  writes : ℕ → Inode → Fs → Write

-- The loop of `writei`, with n - tot bytes left.
unfoldable pub write_blocks : ℕ → Fs → Inode → ℕ → ℕ → ℕ → Memory → Option (Inode × Fs)
write_blocks zero f ip src off left mem = some (ip, f)
write_blocks (suc rounds) f ip src off left mem = elim (left == 0) [
  | true ↦ some (ip, f)
  | false ↦ elim (bmap f ip (off / bsize)) [
    | none ↦ none
    | some m ↦
        let n = chunk left off in
        write_blocks rounds
          (with_block m.fs m.addr (copy_bytes (m.fs.block m.addr) (off % bsize) mem src n)) m.inode
          (src + n) (off + n) (left - n) mem
  ]
]

-- The half-word at the offset `o`.
abbrev pub get_half : Bytes → ℕ → ℕ
get_half d o = d o + d (o + 1) * 256

abbrev pub put_half : Bytes → ℕ → ℕ → Bytes
put_half d o v = update (update d o (v % 256)) (o + 1) (v / 256 % 256)

-- The loop of `memmove` on `addrs`, from the word `w` of the block on.
unfoldable pub put_addrs : ℕ → ℕ → ℕ → (ℕ → ℕ) → Bytes → Bytes
put_addrs zero w i addrs d = d
put_addrs (suc rounds) w i addrs d = put_addrs rounds (suc w) (suc i) addrs (put_word d w (addrs i))

abbrev pub iblock : ℕ → SuperBlock → ℕ
iblock i sb = i / 8 + sb.inodestart

-- `struct dinode` for the inode, in 64 bytes: four half-words and fourteen words.
abbrev pub put_dinode : Bytes → Inode → Bytes
put_dinode d ip =
    let o = ip.inum % 8 * 64 in
    let w = ip.inum % 8 * 16 in
    put_addrs 13 (w + 3) 0 ip.addrs (
      put_word
        (put_half (put_half (put_half (put_half d o ip.type) (o + 2) ip.major) (o + 4) ip.minor)
          (o + 6) ip.nlink)
        (w + 2) ip.size)

unfoldable pub iupdate : Fs → Inode → Fs
iupdate f ip = let b = iblock ip.inum f.sb in with_block f b (put_dinode (f.block b) ip)

abbrev pub sized : Inode → ℕ → Inode
sized ip n = record ip { size = n }

unfoldable pub writei : (ℕ → Bool) → Fs → Inode → ℕ → ℕ → ℕ → Memory → Write
writei has_device f ip src off n mem =
    if ip.type == t_dev
    then if ltb ip.major ndev && has_device ip.major then write_device ip.major else write_fails
    else if ltb ip.size off
    then write_fails
    else if ltb ((off + n) % u32) off
    then write_fails
    else if ltb (maxfile * bsize) (off + n)
    then write_fails
    else elim (write_blocks n f ip src off n mem) [
      | none ↦ write_panics
      | some r ↦
          if ltb 0 n && ltb r.0.size (off + n)
          then writes n (sized r.0 (off + n)) (iupdate r.1 (sized r.0 (off + n)))
          else writes n r.0 r.1
    ]
