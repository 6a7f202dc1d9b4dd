-- ===== src/Kernel/Fs/Inode/Storing.antt =====
-- The loop of `writei` in xv6/fs.c from its rounds.
use laboratorio_lukitas.Common.{
  ℕ, zero, suc, ◌+◌, ◌-◌, ◌/◌, ◌%◌, ◌≤◌, ◌<◌, ◌≡◌, refl, sym, ◌∙◌, ap, subst, ◌≢◌, inl, inr, Option,
  none, some, arith, eq_cases, lt_cases,
}
use laboratorio_lukitas.Kernel.Fs.Disk.{Fs, with_block}
use laboratorio_lukitas.Kernel.Fs.Inode.{
  Inode, Mapped, Memory, chunk, bmap, copy_bytes, write_blocks,
}
use laboratorio_lukitas.Kernel.Fs.Inode.Slots.{slot, IsFile}
use laboratorio_lukitas.Kernel.Fs.Inode.Map.{Has}
use laboratorio_lukitas.Kernel.Fs.Inode.Find.{Finds, no_space, finds, bmap_lem}
use laboratorio_lukitas.Kernel.Fs.Inode.Scarce.{Scarce, no_space-Scarce, step-Scarce}
use laboratorio_lukitas.Kernel.Fs.Inode.Content.{content, Has-content, chunk_lem}
use laboratorio_lukitas.Kernel.Fs.Inode.Writing.{
  Stored, WriteLoop, write_stuck, write_all, nothing-Stored, written, bytes_now, written-IsFile,
  written_slot, written_marks, written_in, written_out,
}

module _ (f : Fs) (ip : Inode) (src off left n : ℕ) (mem : Memory) (m : Mapped)
    (room : off + left ≤ 71680) (some_left : left ≢ 0) (few : n ≤ left) (one : 1 ≤ n)
    (fits : off % 512 + n ≤ 512) (x : Has f ip (off / 512) m) where
  pub low : off < 71680
  low = omega arith

  abbrev store : Fs
  store = written f ip src off n mem m low fits x

  pub step-Stored :
      (ip' : Inode) (f' : Fs)
      → Stored store m.inode (src + n) (off + n) (left - n) mem ip' f'
      → Stored f ip src off left mem ip' f'
  unfolding written
  step-Stored ip' f' y = record {
    file = y.file;
    bytes = λ i l. elim (lt_cases i n) [
      | inl (k, _) ↦
          y.rest (off + i) (omega arith) (inl (omega arith))
          ∙ written_in f ip src off n mem m low fits x i k
      | inr (k, _) ↦
          ap (content f' ip') (there i k) ∙ y.bytes (i - n) (omega arith) ∙ ap mem (sym (from i k))
    ];
    rest = λ o l out.
        y.rest o l (elim out [ inl k ↦ inl (omega arith) | inr k ↦ inr (omega arith) ])
        ∙ written_out f ip src off n mem m low fits x o l
            (elim out [ inl k ↦ inl k | inr k ↦ inr (omega arith) ])
        ∙ Has-content f ip (off / 512) o m x (omega arith);
    present = λ i l. elim (lt_cases i n) [
      | inl (k, _) ↦ y.grown ((off + i) / 512) (omega arith) (stored_slot i k)
      | inr (k, _) ↦
          subst (λ o. slot f' ip' (o / 512) ≢ 0) (sym (there i k)) (y.present (i - n) (omega arith))
    ];
    grown = λ t l ne. y.grown t l (kept_slot t l ne);
    fields = y.fields ∙ ap (λ (k : Inode). record k { addrs = ip'.addrs }) x.same_inode;
    same_sb = y.same_sb ∙ store_sb;
  }
    where
      there : (i : ℕ) → n ≤ i → off + i ≡ off + n + (i - n)
      there i k = omega arith

      from : (i : ℕ) → n ≤ i → src + i ≡ src + n + (i - n)
      from i k = omega arith

      stored_slot : (i : ℕ) → i < n → slot store m.inode ((off + i) / 512) ≢ 0
      stored_slot i k z =
          let same : (off + i) / 512 ≡ off / 512 = omega arith in
          x.there_is (
            sym x.here
            ∙ ap (slot m.fs m.inode) (sym same)
            ∙ sym (written_slot f ip src off n mem m low fits x ((off + i) / 512) (omega arith))
            ∙ z)

      kept_slot : (t : ℕ) → t < 140 → slot f ip t ≢ 0 → slot store m.inode t ≢ 0
      kept_slot t l ne z = elim (eq_cases (off / 512) t) [
        | inl (e, _) ↦ x.there_is (sym x.here ∙ ap (slot m.fs m.inode) e ∙ before t l z)
        | inr (other, _) ↦ ne (sym (x.others t l other) ∙ before t l z)
      ]
        where
          before : (t : ℕ) → t < 140 → slot store m.inode t ≡ 0 → slot m.fs m.inode t ≡ 0
          before t l z = sym (written_slot f ip src off n mem m low fits x t (omega arith)) ∙ z

      store_sb : store.sb ≡ f.sb
      store_sb = written_sb ∙ x.same_sb
        where
          written_sb : store.sb ≡ m.fs.sb
          written_sb = refl

  -- A hole that the rest of the loop meets was there before, with too few free blocks.
  pub step_hole :
      (o : ℕ)
      → IsFile f ip
      → off + n ≤ o
      → o < off + left
      → slot store m.inode (o / 512) ≡ 0
      → Scarce store m.inode (off + n) o
      → (slot f ip (o / 512) ≡ 0) × Scarce f ip off o
  unfolding written
  step_hole o file lo hi empty scarce = (
    sym (x.others (o / 512) (omega arith) apart) ∙ before,
    step-Scarce f store ip off (off + n) o m file x (written_slot f ip src off n mem m low fits x)
        (written_marks f ip src off n mem m low fits x) refl (omega (arith, apart, lo, one))
        (omega arith) (omega arith) scarce,
  )
    where
      before : slot m.fs m.inode (o / 512) ≡ 0
      before = sym (written_slot f ip src off n mem m low fits x (o / 512) (omega arith)) ∙ empty

      apart : off / 512 ≢ o / 512
      apart e = x.there_is (sym x.here ∙ ap (slot m.fs m.inode) e ∙ before)

pub write_blocks_lem :
    (rounds : ℕ) (f : Fs) (ip : Inode) (src off left : ℕ) (mem : Memory)
    → IsFile f ip
    → left ≤ rounds
    → off + left ≤ 71680
    → WriteLoop f ip src off left mem (write_blocks rounds f ip src off left mem)
unfolding write_blocks written bytes_now
write_blocks_lem zero f ip src off left mem x enough room =
    write_all (nothing-Stored f ip src off left mem x (omega arith))
write_blocks_lem (suc rounds) f ip src off left mem x enough room = elim (eq_cases left 0) [
  | inl (z, t) ↦ rw (t, write_blocks) (write_all (nothing-Stored f ip src off left mem x z))
  | inr (ne, t) ↦
      rw (t, write_blocks)
        (found ne (bmap f ip (off / 512)) (bmap_lem f ip (off / 512) x (omega arith)) (λ m y.
          let (one, few, fits) = chunk_lem left off ne in
          write_blocks_lem rounds (store m) m.inode (src + chunk left off) (off + chunk left off)
            (left - chunk left off) mem y (omega arith) (omega arith)))
]
  where
    store : Mapped → Fs
    store m =
        with_block m.fs m.addr (copy_bytes (m.fs.block m.addr) (off % 512) mem src (chunk left off))

    after : Mapped → Option (Inode × Fs)
    after m =
        write_blocks rounds (store m) m.inode (src + chunk left off) (off + chunk left off)
          (left - chunk left off) mem

    ends :
        (ne : left ≢ 0) (m : Mapped)
        → Has f ip (off / 512) m
        → (o : Option (Inode × Fs))
        → WriteLoop
            (store m)
            m.inode
            (src + chunk left off)
            (off + chunk left off)
            (left - chunk left off)
            mem
            o
        → WriteLoop f ip src off left mem o
    ends ne m has _ (write_stuck o lo hi empty scarce) =
        let (one, few, fits) = chunk_lem left off ne in
        let (hole, short) =
          step_hole f ip src off left (chunk left off) mem m room ne few one fits has o x lo
            (omega arith) empty scarce in
        write_stuck o (omega arith) (omega arith) hole short
    ends ne m x _ (write_all {ip'} {f'} y) =
        let (one, few, fits) = chunk_lem left off ne in
        write_all
          (step-Stored f ip src off left (chunk left off) mem m room ne few one fits x ip' f' y)

    found :
        left ≢ 0
        → (o : Option Mapped) → Finds f ip (off / 512) o
        → ((m : Mapped)
            → IsFile (store m) m.inode
            → WriteLoop
                (store m)
                m.inode
                (src + chunk left off)
                (off + chunk left off)
                (left - chunk left off)
                mem
                (after m))
        → WriteLoop f ip src off left mem
            (elim o as (λ _. Option (Inode × Fs)) [ none ↦ none | some m ↦ after m ])
    found ne _ (no_space empty all why) rest =
        write_stuck off (omega arith) (omega arith) empty
          (no_space-Scarce f ip off (omega arith) (no_space empty all why))
    found ne _ (finds {m} x) rest =
        let (one, few, fits) = chunk_lem left off ne in
        ends ne m x (after m)
          (rest m (written-IsFile f ip src off (chunk left off) mem m (omega arith) fits x))
