-- ===== src/Kernel/Fs/Disk.antt =====
-- Blocks of xv6/fs.c: bytes, words of 32 bits in them, and the bitmap of blocks in use. Block
-- numbers are far below 2 ^ 32, so their arithmetic does not wrap around. `log_write` changes the block that
-- is read next; its panics, outside a transaction or with a full log, are left to Kernel/Log.
pub mod Bits
pub mod Bitmap
pub mod Alloc
pub mod Words
use laboratorio_lukitas.Common.{
  ℕ, zero, suc, ◌+◌, ◌-◌, ◌*◌, ◌/◌, ◌%◌, Bool, true, false, Option, none, some, ltb, ◌==◌,
  if◌then◌else◌, update,
}

abbrev pub bsize : ℕ
bsize = 512

-- Bits in a block.
abbrev pub bpb : ℕ
bpb = 4096

abbrev pub Bytes : Type 0
Bytes = ℕ → ℕ

-- The fields of `struct superblock` that the code reads.
pub record SuperBlock : Type 0 where
  pub size : ℕ
  pub ninodes : ℕ
  pub inodestart : ℕ
  pub bmapstart : ℕ

pub record Fs : Type 0 where
  pub sb : SuperBlock
  pub block : ℕ → Bytes

abbrev pub bblock : ℕ → SuperBlock → ℕ
bblock b sb = b / bpb + sb.bmapstart

abbrev pub with_block : Fs → ℕ → Bytes → Fs
with_block f b d = record f { block = update f.block b d }

-- The bit `k` of a byte: (byte & (1 << k)) != 0.
unfoldable pub bit : ℕ → ℕ → Bool
bit byte zero = byte % 2 == 1
bit byte (suc k) = bit (byte / 2) k

-- byte | (1 << k)
unfoldable pub set_bit : ℕ → ℕ → ℕ
set_bit byte zero = byte / 2 * 2 + 1
set_bit byte (suc k) = byte % 2 + set_bit (byte / 2) k * 2

-- byte & ~(1 << k)
unfoldable pub clear_bit : ℕ → ℕ → ℕ
clear_bit byte zero = byte / 2 * 2
clear_bit byte (suc k) = byte % 2 + clear_bit (byte / 2) k * 2

unfoldable pub bzero : Fs → ℕ → Fs
bzero f b = with_block f b (λ _. 0)

-- The inner loop of `balloc`, for the bits of the bitmap block at hand from `bi` on.
unfoldable pub find_bit : ℕ → ℕ → ℕ → ℕ → Bytes → Option ℕ
find_bit zero bi b size d = none
find_bit (suc rounds) bi b size d = elim (ltb (b + bi) size) [
  | false ↦ none
  | true ↦ elim (bit (d (bi / 8)) (bi % 8)) [
    | false ↦ some bi
    | true ↦ find_bit rounds (suc bi) b size d
  ]
]

abbrev pub mark : Fs → ℕ → ℕ → Fs
mark f b bi =
    let bn = bblock b f.sb in
    with_block f bn (update (f.block bn) (bi / 8) (set_bit (f.block bn (bi / 8)) (bi % 8)))

-- The outer loop of `balloc` from the block `b` on; `none` is its panic.
unfoldable pub balloc_from : ℕ → ℕ → Fs → Option (ℕ × Fs)
balloc_from zero b f = none
balloc_from (suc rounds) b f = elim (ltb b f.sb.size) [
  | false ↦ none
  | true ↦ elim (find_bit bpb 0 b f.sb.size (f.block (bblock b f.sb))) [
    | some bi ↦ some (b + bi, bzero (mark f b bi) (b + bi))
    | none ↦ balloc_from rounds (b + bpb) f
  ]
]

-- A round for each bitmap block.
unfoldable pub balloc : Fs → Option (ℕ × Fs)
balloc f = balloc_from (f.sb.size / bpb + 1) 0 f

-- `none` is its panic.
unfoldable pub bfree : Fs → ℕ → Option Fs
bfree f b =
    let bn = bblock b f.sb in
    let bi = b % bpb in
    if bit (f.block bn (bi / 8)) (bi % 8)
    then some
        (with_block f bn (update (f.block bn) (bi / 8) (clear_bit (f.block bn (bi / 8)) (bi % 8))))
    else none

-- The word `i` of an array of `uint` in a block.
unfoldable pub get_word : Bytes → ℕ → ℕ
get_word d i = d (4 * i) + d (4 * i + 1) * 256 + d (4 * i + 2) * 65536 + d (4 * i + 3) * 16777216

unfoldable pub put_word : Bytes → ℕ → ℕ → Bytes
put_word d i w =
    update
      (update (update (update d (4 * i) (w % 256)) (4 * i + 1) (w / 256 % 256)) (4 * i + 2)
        (w / 65536 % 256))
      (4 * i + 3) (w / 16777216 % 256)
