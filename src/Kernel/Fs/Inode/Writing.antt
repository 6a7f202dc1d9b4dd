-- ===== src/Kernel/Fs/Inode/Writing.antt =====
-- The loop of `writei` in xv6/fs.c.
use laboratorio_lukitas.Common.{
  ℕ, ◌+◌, ◌/◌, ◌%◌, ◌≤◌, ◌<◌, ◌≡◌, refl, sym, ◌∙◌, ap, ◌≢◌, ◌⊎◌, inl, inr, Option, none, some,
  arith, eq_cases, update_self,
}
use laboratorio_lukitas.Kernel.Fs.Disk.{Bytes, Fs, bblock, with_block}
use laboratorio_lukitas.Kernel.Fs.Disk.Bitmap.{used, used-with_block}
use laboratorio_lukitas.Kernel.Fs.Inode.{Inode, Mapped, Memory, copy_bytes}
use laboratorio_lukitas.Kernel.Fs.Inode.Slots.{slot, IsFile, slot_index}
use laboratorio_lukitas.Kernel.Fs.Inode.Map.{Has}
use laboratorio_lukitas.Kernel.Fs.Inode.Scarce.{Scarce}
use laboratorio_lukitas.Kernel.Fs.Inode.Content.{
  content, content_at, write-IsFile, slot_kept, content_kept,
}
use laboratorio_lukitas.Kernel.Fs.Inode.Reading.{copied_in, copied_out}

-- The bytes at `src` stand in the file from `off` on; the rest of the file is as before.
pub record Stored (f : Fs) (ip : Inode) (src off left : ℕ) (mem : Memory) (ip' : Inode) (f' : Fs)
    : Type 0 where
  pub file : IsFile f' ip'
  pub bytes : (i : ℕ) → i < left → content f' ip' (off + i) ≡ mem (src + i)
  pub rest : (o : ℕ) → o < 71680 → (o < off) ⊎ (off + left ≤ o) → content f' ip' o ≡ content f ip o
  pub present : (i : ℕ) → i < left → slot f' ip' ((off + i) / 512) ≢ 0
  pub grown : (t : ℕ) → t < 140 → slot f ip t ≢ 0 → slot f' ip' t ≢ 0
  pub fields : ip' ≡ record ip { addrs = ip'.addrs }
  pub same_sb : f'.sb ≡ f.sb

pub data WriteLoop (f : Fs) (ip : Inode) (src off left : ℕ) (mem : Memory)
    : Option (Inode × Fs) → Type 0 where
  write_stuck :
      (o : ℕ)
      → off ≤ o
      → o < off + left
      → slot f ip (o / 512) ≡ 0
      → Scarce f ip off o
      → WriteLoop f ip src off left mem none
  write_all :
      {ip' : Inode} {f' : Fs}
      → Stored f ip src off left mem ip' f'
      → WriteLoop f ip src off left mem (some (ip', f'))

pub nothing-Stored :
    (f : Fs) (ip : Inode) (src off left : ℕ) (mem : Memory)
    → IsFile f ip
    → left ≡ 0
    → Stored f ip src off left mem ip f
nothing-Stored f ip src off left mem x e = record {
  file = x;
  bytes = λ i l. absurd (omega arith);
  rest = λ o l out. refl;
  present = λ i l. absurd (omega arith);
  grown = λ t l ne. ne;
  fields = refl;
  same_sb = refl;
}

-- The file after a part of the block that `bmap` found has been written.
module _ (f : Fs) (ip : Inode) (src off n : ℕ) (mem : Memory) (m : Mapped) (low : off < 71680)
    (fits : off % 512 + n ≤ 512) (x : Has f ip (off / 512) m) where
  unfoldable pub bytes_now : Bytes
  bytes_now = copy_bytes (m.fs.block m.addr) (off % 512) mem src n

  unfoldable pub written : Fs
  unfolding bytes_now
  written = with_block m.fs m.addr bytes_now

  ne_slot : slot m.fs m.inode (off / 512) ≢ 0
  ne_slot z = x.there_is (sym x.here ∙ z)

  off_map : (c : ℕ) → c < m.fs.sb.size → bblock c m.fs.sb ≢ m.addr
  off_map c l e = (x.file.owned (off / 512) (omega arith) ne_slot).off.off_map c l (e ∙ sym x.here)

  not_slot :
      (t : ℕ) → t ≤ 140 → off / 512 ≢ t → slot m.fs m.inode t ≢ 0 → m.addr ≢ slot m.fs m.inode t
  not_slot t l ne full e = ne (x.file.distinct (off / 512) t (omega arith) l ne_slot (x.here ∙ e))

  not_index : m.inode.addrs 12 ≢ 0 → m.addr ≢ m.inode.addrs 12
  not_index ne e =
      not_slot 140 (omega arith) (omega arith) (λ z. ne (sym (slot_index m.fs m.inode) ∙ z))
        (e ∙ sym (slot_index m.fs m.inode))

  pub written-IsFile : IsFile written m.inode
  unfolding written
  written-IsFile = write-IsFile m.fs m.inode m.addr bytes_now x.file off_map not_index

  pub written_slot : (t : ℕ) → t ≤ 140 → slot written m.inode t ≡ slot m.fs m.inode t
  unfolding written
  written_slot = slot_kept m.fs m.inode m.addr bytes_now x.file off_map not_index

  pub written_marks : (c : ℕ) → c < m.fs.sb.size → used written c ≡ used m.fs c
  unfolding written
  written_marks c l = used-with_block m.fs m.addr bytes_now c (λ e. off_map c l (sym e))

  pub written_in : (i : ℕ) → i < n → content written m.inode (off + i) ≡ mem (src + i)
  unfolding written bytes_now
  written_in i l =
      content_at written m.inode (off + i) m.addr
        (ap (slot written m.inode) same_slot ∙ written_slot (off / 512) (omega arith) ∙ x.here)
        x.there_is
      ∙ ap (λ d. d ((off + i) % 512)) (update_self m.fs.block m.addr bytes_now)
      ∙ ap bytes_now same_place
      ∙ copied_in (m.fs.block m.addr) (off % 512) mem src n i l
    where
      same_slot : (off + i) / 512 ≡ off / 512
      same_slot = omega arith

      same_place : (off + i) % 512 ≡ off % 512 + i
      same_place = omega arith

  pub written_out :
      (o : ℕ)
      → o < 71680
      → (o < off) ⊎ (off + n ≤ o)
      → content written m.inode o ≡ content m.fs m.inode o
  unfolding written bytes_now
  written_out o l out = elim (eq_cases (off / 512) (o / 512)) [
    | inl (e, _) ↦
        content_at written m.inode o m.addr
          (written_slot (o / 512) (omega arith) ∙ ap (slot m.fs m.inode) (sym e) ∙ x.here)
          x.there_is
        ∙ ap (λ d. d (o % 512)) (update_self m.fs.block m.addr bytes_now)
        ∙ copied_out (m.fs.block m.addr) (off % 512) mem src n (o % 512)
            (elim out [ inl k ↦ inl (omega arith) | inr k ↦ inr (omega arith) ])
        ∙ sym
            (content_at m.fs m.inode o m.addr (ap (slot m.fs m.inode) (sym e) ∙ x.here) x.there_is)
    | inr (ne, _) ↦
        content_kept m.fs m.inode m.addr bytes_now x.file off_map not_index o (omega arith)
          (not_slot (o / 512) (omega arith) ne)
  ]
