-- ===== src/Kernel/Fs/Tests.antt =====
-- Tests of the model of xv6/fs.c, and its theorems on a small disk.
use laboratorio_lukitas.Common.{
  ℕ, ◌+◌, ◌≡◌, Option, refl, subst, true, false, Bool, none, some, arith, update, ◌<◌,
}
use laboratorio_lukitas.Kernel.Fs.Disk.{
  Fs, bit, set_bit, clear_bit, bzero, find_bit, balloc_from, balloc, bfree, get_word, put_word,
  bblock,
}
use laboratorio_lukitas.Kernel.Fs.Disk.Bitmap.{used, bit_at}
use laboratorio_lukitas.Kernel.Fs.Inode.{
  Read, Inode, Write, writes, addr_slot, indirect_slot, bmap, chunk, read_blocks, write_blocks,
  readi, writei, iupdate, put_addrs, reads, iblock,
}
use laboratorio_lukitas.Kernel.Fs.Inode.Slots.{slot, IsFile, IsLaidOut}
use laboratorio_lukitas.Kernel.Fs.Inode.Find.{Finds, bmap_lem}
use laboratorio_lukitas.Kernel.Fs.Inode.Transfer.{FileWrite, writei_lem}
use laboratorio_lukitas.Kernel.Fs.Inode.RoundTrip.{FileRead, ReadsBack, readi_lem, readi-writei}

-- Eight blocks: boot, super, inodes, bitmap, and four of data, none of them in use.
abbrev small_disk : Fs
small_disk = record {
  sb = record { size = 8; ninodes = 8; inodestart = 2; bmapstart = 3 };
  block = update (λ b o. 7) 3 (update (λ o. 0) 0 15);
}

abbrev empty_file : Inode
empty_file = record {
  inum = 1;
  type = 2;
  major = 0;
  minor = 0;
  nlink = 1;
  size = 0;
  addrs = λ i. 0;
}

-- The bytes 40, 41, ... of the caller's memory.
abbrev memory : ℕ → ℕ
memory a = a

abbrev no_devices : ℕ → Bool
no_devices m = false

-- All block numbers of the disk have their bit in the one block of the bitmap.
one_map : (c : ℕ) → c < 8 → used small_disk (bblock c small_disk.sb) ≡ true
unfolding used bit_at bit
one_map c l =
    let same : 3 ≡ bblock c small_disk.sb = omega arith in
    subst (λ b. used small_disk b ≡ true) same refl

one_inode_block : (i : ℕ) → i < 8 → used small_disk (iblock i small_disk.sb) ≡ true
unfolding used bit_at bit
one_inode_block i l =
    let same : 2 ≡ iblock i small_disk.sb = omega arith in
    subst (λ b. used small_disk b ≡ true) same refl

small_disk-IsLaidOut : IsLaidOut small_disk
unfolding used bit_at bit
small_disk-IsLaidOut = record {
  small = omega arith;
  boot = refl;
  map = one_map;
  inodes = one_inode_block;
  apart = λ c i lc li. omega arith;
  some_blocks = omega arith;
  map_in = λ c l. omega arith;
  inodes_in = λ i l. omega arith;
}

no_slots : (s : ℕ) → slot small_disk empty_file s ≡ 0
unfolding slot
no_slots s = ground arith

empty_file-IsFile : IsFile small_disk empty_file
empty_file-IsFile = record {
  laid_out = small_disk-IsLaidOut;
  owned = λ s l ne. absurd (ne (no_slots s));
  distinct = λ s t ls lt ne e. absurd (ne (no_slots s));
}

abbrev block_number : Option (ℕ × Fs) → ℕ
block_number none = 0
block_number (some r) = r.0

first_free : block_number (balloc small_disk) ≡ 4
unfolding balloc balloc_from find_bit bit bzero set_bit
first_free = refl

free_twice : bfree small_disk 5 ≡ none
unfolding bfree bit clear_bit
free_twice = refl

abbrev written : Write
written = writei no_devices small_disk empty_file 40 0 3 memory

inode_after : Inode
inode_after = elim written [ writes _ ip _ ↦ ip | _ ↦ empty_file ]

disk_after : Fs
disk_after = elim written [ writes _ _ f ↦ f | _ ↦ small_disk ]

three_written : written ≡ writes 3 inode_after disk_after
unfolding inode_after disk_after writei write_blocks chunk bmap addr_slot balloc balloc_from
    find_bit bit bzero set_bit
three_written = refl

abbrev count_and_byte : Read → ℕ
count_and_byte (reads n mem _ _) = n + mem 900
count_and_byte _ = 0

second_byte : count_and_byte (readi no_devices disk_after inode_after 900 1 9 memory) ≡ 43
unfolding inode_after disk_after writei write_blocks readi read_blocks chunk bmap addr_slot
    indirect_slot balloc balloc_from find_bit bit bzero set_bit iupdate put_addrs put_word get_word
second_byte = refl

bmap_lem_example : Finds small_disk empty_file 20 (bmap small_disk empty_file 20)
bmap_lem_example = bmap_lem small_disk empty_file 20 empty_file-IsFile (omega arith)

writei_lem_example :
    FileWrite small_disk empty_file 40 0 3 memory
      (writei no_devices small_disk empty_file 40 0 3 memory)
writei_lem_example =
    writei_lem no_devices small_disk empty_file 40 0 3 memory empty_file-IsFile (omega arith)
      (omega arith) (omega arith)

readi_lem_example :
    FileRead small_disk empty_file 900 0 3 memory
      (readi no_devices small_disk empty_file 900 0 3 memory)
readi_lem_example =
    readi_lem no_devices small_disk empty_file 900 0 3 memory empty_file-IsFile (omega arith)
      (omega arith) (omega arith)

abbrev three : ℕ
three = 3

readi-writei_example :
    (three ≡ three)
    × ReadsBack 900 40 three memory (readi no_devices disk_after inode_after 900 0 three memory)
readi-writei_example =
    readi-writei no_devices small_disk empty_file 40 900 0 three three memory inode_after disk_after
      empty_file-IsFile (omega arith) (omega arith) (omega arith) (omega arith) three_written
