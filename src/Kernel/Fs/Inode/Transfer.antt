-- ===== src/Kernel/Fs/Inode/Transfer.antt =====
-- `readi` and `writei` of xv6/fs.c on the content of a file.
use laboratorio_lukitas.Common.{
  ℕ, ◌+◌, ◌/◌, ◌%◌, ◌≤◌, ◌<◌, ◌≡◌, refl, sym, ◌∙◌, ap, subst, ◌≢◌, ◌⊎◌, inl, inr, Bool, true, false,
  ◌&&◌, Option, none, some, arith, ltb, if◌then◌else◌, eq_cases, lt_cases, Bool-cases,
}
use laboratorio_lukitas.Kernel.Fs.Disk.{Fs, bblock}
use laboratorio_lukitas.Kernel.Fs.Inode.{
  Inode, Memory, Write, write_panics, write_fails, writes, t_dev, u32, write_blocks, writei, sized,
  iupdate, iblock, put_dinode,
}
use laboratorio_lukitas.Kernel.Fs.Inode.Slots.{slot, IsFile, slot_index}
use laboratorio_lukitas.Kernel.Fs.Inode.Content.{content, write-IsFile, slot_kept, content_kept}
use laboratorio_lukitas.Kernel.Fs.Inode.Scarce.{Scarce}
use laboratorio_lukitas.Kernel.Fs.Inode.Writing.{Stored, WriteLoop, write_stuck, write_all}
use laboratorio_lukitas.Kernel.Fs.Inode.Storing.{write_blocks_lem}

-- The size in the inode plays no part in where its blocks are.
sized-IsFile : (f : Fs) (ip : Inode) (n : ℕ) → IsFile f ip → IsFile f (sized ip n)
unfolding slot
sized-IsFile f ip n x = record { laid_out = x.laid_out; owned = x.owned; distinct = x.distinct }

slot-sized : (f : Fs) (ip : Inode) (n t : ℕ) → slot f (sized ip n) t ≡ slot f ip t
unfolding slot
slot-sized f ip n t = refl

content-sized : (f : Fs) (ip : Inode) (n o : ℕ) → content f (sized ip n) o ≡ content f ip o
unfolding content slot
content-sized f ip n o = refl

-- `iupdate` writes the inode's own block, which holds no content.
module _ (f : Fs) (ip : Inode) (x : IsFile f ip) (known : ip.inum < f.sb.ninodes) where
  off_map : (c : ℕ) → c < f.sb.size → bblock c f.sb ≢ iblock ip.inum f.sb
  off_map c l = x.laid_out.apart c ip.inum l known

  not_index : ip.addrs 12 ≢ 0 → iblock ip.inum f.sb ≢ ip.addrs 12
  not_index ne e =
      (x.owned 140 (omega arith) (λ z. ne (sym (slot_index f ip) ∙ z))).off.off_inodes ip.inum known
        (e ∙ sym (slot_index f ip))

  iupdate-IsFile : IsFile (iupdate f ip) ip
  unfolding iupdate
  iupdate-IsFile =
      write-IsFile f ip (iblock ip.inum f.sb) (put_dinode (f.block (iblock ip.inum f.sb)) ip) x
        off_map not_index

  slot-iupdate : (t : ℕ) → t ≤ 140 → slot (iupdate f ip) ip t ≡ slot f ip t
  unfolding iupdate
  slot-iupdate =
      slot_kept f ip (iblock ip.inum f.sb) (put_dinode (f.block (iblock ip.inum f.sb)) ip) x off_map
        not_index

  content-iupdate : (o : ℕ) → o < 71680 → content (iupdate f ip) ip o ≡ content f ip o
  unfolding iupdate
  content-iupdate o l =
      content_kept f ip (iblock ip.inum f.sb) (put_dinode (f.block (iblock ip.inum f.sb)) ip) x
        off_map not_index o (omega arith)
        (λ ne. (x.owned (o / 512) (omega arith) ne).off.off_inodes ip.inum known)

-- The requests that `writei` refuses on a file.
abbrev pub Refused : Inode → ℕ → ℕ → Type 0
Refused ip off n = (ip.size < off) ⊎ (71680 < off + n)

abbrev pub bigger : ℕ → ℕ → ℕ → ℕ
bigger n end size = if ltb 0 n && ltb size end then end else size

-- A write that is carried out.
pub record Written (f : Fs) (ip : Inode) (src off n : ℕ) (mem : Memory) (ip' : Inode) (f' : Fs)
    : Type 0 where
  pub file : IsFile f' ip'
  pub bytes : (i : ℕ) → i < n → content f' ip' (off + i) ≡ mem (src + i)
  pub rest : (o : ℕ) → o < 71680 → (o < off) ⊎ (off + n ≤ o) → content f' ip' o ≡ content f ip o
  pub present : (i : ℕ) → i < n → slot f' ip' ((off + i) / 512) ≢ 0
  pub fields : ip' ≡ record ip { addrs = ip'.addrs; size = bigger n (off + n) ip.size }

-- What `writei` does to a file, on each branch.
pub data FileWrite (f : Fs) (ip : Inode) (src off n : ℕ) (mem : Memory) : Write → Type 0 where
  refused : Refused ip off n → FileWrite f ip src off n mem write_fails
  disk_full :
      (o : ℕ)
      → off ≤ o
      → o < off + n
      → slot f ip (o / 512) ≡ 0
      → Scarce f ip off o
      → FileWrite f ip src off n mem write_panics
  done :
      {ip' : Inode} {f' : Fs}
      → ¬ Refused ip off n
      → Written f ip src off n mem ip' f'
      → FileWrite f ip src off n mem (writes n ip' f')

finish-Written :
    (f : Fs) (ip : Inode) (src off n : ℕ) (mem : Memory) (ip' : Inode) (f' : Fs)
    → ip.inum < f.sb.ninodes
    → off + n ≤ 71680
    → Stored f ip src off n mem ip' f'
    → (ltb 0 n && ltb ip.size (off + n)) ≡ true
    → Written f ip src off n mem (sized ip' (off + n)) (iupdate f' (sized ip' (off + n)))
finish-Written f ip src off n mem ip' f' known room y t =
    let ip'' = sized ip' (off + n) in
    let x = sized-IsFile f' ip' (off + n) y.file in
    record {
      file = iupdate-IsFile f' ip'' x known';
      bytes = λ i l.
          content-iupdate f' ip'' x known' (off + i) (omega arith)
          ∙ content-sized f' ip' (off + n) (off + i)
          ∙ y.bytes i l;
      rest = λ o l out.
          content-iupdate f' ip'' x known' o l ∙ content-sized f' ip' (off + n) o ∙ y.rest o l out;
      present = λ i l z. y.present i l (
          sym (slot-sized f' ip' (off + n) ((off + i) / 512))
          ∙ sym (slot-iupdate f' ip'' x known' ((off + i) / 512) (omega arith))
          ∙ z);
      fields = rw t (ap (λ (k : Inode). record k { addrs = ip'.addrs; size = off + n }) y.fields);
    }
  where
    known' : ip'.inum < f'.sb.ninodes
    known' =
        subst (λ k. k < f'.sb.ninodes) (sym (ap (λ (k : Inode). k.inum) y.fields))
          (subst (λ k. ip.inum < k.ninodes) (sym y.same_sb) known)

keep-Written :
    (f : Fs) (ip : Inode) (src off n : ℕ) (mem : Memory) (ip' : Inode) (f' : Fs)
    → Stored f ip src off n mem ip' f'
    → (ltb 0 n && ltb ip.size (off + n)) ≡ false
    → Written f ip src off n mem ip' f'
keep-Written f ip src off n mem ip' f' y t = record {
  file = y.file;
  bytes = y.bytes;
  rest = y.rest;
  present = y.present;
  fields = rw t y.fields;
}

-- On a well-formed file, `writei` refuses to start past the end or to end past the largest size;
-- else it puts the bytes into the content, keeps the rest of it, grows the size to the end of the
-- write if that is larger, and leaves the file well formed. Where the log takes every block, it panics
-- only at a hole in the range, when there are no more free blocks than holes before it in the range,
-- with the indirect block as one if the file has none.
pub writei_lem :
    (has_device : ℕ → Bool) (f : Fs) (ip : Inode) (src off n : ℕ) (mem : Memory)
    → IsFile f ip
    → ip.inum < f.sb.ninodes
    → ip.type ≢ t_dev
    → n < u32
    → FileWrite f ip src off n mem (writei has_device f ip src off n mem)
unfolding writei
writei_lem has_device f ip src off n mem x known not_device small = elim (eq_cases ip.type t_dev) [
  | inl (e, _) ↦ absurd (not_device e)
  | inr (_, t) ↦ elim (lt_cases ip.size off) [
    | inl (l, u) ↦ rw (t, u, writei) (refused (inl l))
    | inr (le, u) ↦ elim (Bool-cases (ltb ((off + n) % u32) off)) [
      | inl v ↦ rw (t, u, v, writei) (refused (inr (over v)))
      | inr v ↦ elim (lt_cases 71680 (off + n)) [
        | inl (l, w) ↦ rw (t, u, v, w, writei) (refused (inr l))
        | inr (l, w) ↦
            rw (t, u, v, w, writei)
              (ended le l (write_blocks n f ip src off n mem)
                (write_blocks_lem n f ip src off n mem x (omega arith) l))
      ]
    ]
  ]
]
  where
    over : ltb ((off + n) % u32) off ≡ true → 71680 < off + n
    over v = ground arith

    ended :
        off ≤ ip.size
        → off + n ≤ 71680
        → (o : Option (Inode × Fs)) → WriteLoop f ip src off n mem o
        → FileWrite f ip src off n mem (elim o as (λ _. Write) [
          | none ↦ write_panics
          | some r ↦
              if ltb 0 n && ltb r.0.size (off + n)
              then writes n (sized r.0 (off + n)) (iupdate r.1 (sized r.0 (off + n)))
              else writes n r.0 r.1
        ])
    ended le l _ (write_stuck o lo hi empty scarce) = disk_full o lo hi empty scarce
    ended le l _ (write_all {ip'} {f'} y) = elim (Bool-cases (ltb 0 n && ltb ip'.size (off + n))) [
      | inl v ↦
          rw v (done allowed (finish-Written f ip src off n mem ip' f' known l y (as_before ∙ v)))
      | inr v ↦ rw v (done allowed (keep-Written f ip src off n mem ip' f' y (as_before ∙ v)))
    ]
      where
        allowed : ¬ Refused ip off n
        allowed r = elim r [ inl k ↦ absurd (omega arith) | inr k ↦ absurd (omega arith) ]

        as_before : (ltb 0 n && ltb ip.size (off + n)) ≡ (ltb 0 n && ltb ip'.size (off + n))
        as_before = ap (λ (k : Inode). ltb 0 n && ltb k.size (off + n)) (sym y.fields)
