-- ===== src/Kernel/Fs/Inode/Find.antt =====
-- `bmap` of xv6/fs.c as a whole.
use laboratorio_lukitas.Common.{
  ℕ, ◌-◌, ◌≤◌, ◌<◌, ◌≡◌, refl, sym, ◌∙◌, ap, subst, ◌⊎◌, inl, inr, ◌≢◌, true, false, Bool-cases,
  Option, none, some, arith, ◌==◌, eq_cases, lt_cases,
}
use laboratorio_lukitas.Kernel.Fs.Disk.{Fs, SuperBlock, with_block, balloc, get_word, put_word}
use laboratorio_lukitas.Kernel.Fs.Disk.Bitmap.{used}
use laboratorio_lukitas.Kernel.Fs.Disk.Alloc.{Balloc, out_of_blocks, allocated, balloc_lem}
use laboratorio_lukitas.Kernel.Fs.Inode.{Inode, Mapped, addr_slot, indirect_slot, bmap}
use laboratorio_lukitas.Kernel.Fs.Inode.Slots.{
  slot, IsFile, slot_direct, slot_index, slot_indirect, in_index,
}
use laboratorio_lukitas.Kernel.Fs.Inode.Map.{Has, stays-Has, addr-Has}
use laboratorio_lukitas.Kernel.Fs.Inode.Bmap.{entry-Has, after}

-- What `bmap` ends with: a block for the slot, or a panic as the slot has none and none could be
-- allocated.
pub data Finds (f : Fs) (ip : Inode) (s : ℕ) : Option Mapped → Type 0 where
  no_space :
      {g : Fs}
      → slot f ip s ≡ 0
      → ((t : ℕ) → t < g.sb.size → used g t ≡ true)
      → (g ≡ f) ⊎ ((m : Mapped) × Has f ip 140 m × (g ≡ m.fs))
      → Finds f ip s none
  finds : {m : Mapped} → Has f ip s m → Finds f ip s (some m)

addr_slot_lem :
    (f : Fs) (ip : Inode) (i s : ℕ)
    → IsFile f ip
    → ((i < 12) × (s ≡ i)) ⊎ ((i ≡ 12) × (s ≡ 140))
    → Finds f ip s (addr_slot f ip i)
unfolding addr_slot
addr_slot_lem f ip i s x which = elim (eq_cases (ip.addrs i) 0) [
  | inr (ne, t) ↦ rw (t, addr_slot) (finds (stays-Has f ip s (ip.addrs i) x at ne))
  | inl (z, t) ↦ go z t (balloc f) refl (balloc_lem f x.laid_out.map)
]
  where
    at : slot f ip s ≡ ip.addrs i
    at = elim which [
      | inl (l, e) ↦ slot_direct f ip s (omega arith) ∙ ap ip.addrs e
      | inr (e, k) ↦ ap (slot f ip) k ∙ slot_index f ip ∙ ap ip.addrs (sym e)
    ]

    go :
        ip.addrs i ≡ 0
        → (ip.addrs i == 0) ≡ true
        → (o : Option (ℕ × Fs)) → balloc f ≡ o
        → Balloc f o
        → Finds f ip s (addr_slot f ip i)
    go z t _ e (out_of_blocks all) = rw (t, e, addr_slot) (no_space (at ∙ z) all (inl refl))
    go z t _ e (allocated {b} {g} taken) =
        rw (t, e, addr_slot) (finds (addr-Has f g ip b i s x taken which z))

-- The indirect block first, and then its entry.
Has-index :
    (f : Fs) (ip : Inode) (s : ℕ) (m n : Mapped)
    → s < 140
    → Has f ip 140 m
    → Has m.fs m.inode s n
    → Has f ip s n
Has-index f ip s m n l x y = record {
  file = y.file;
  here = y.here;
  there_is = y.there_is;
  kept = λ ne. y.kept (λ z. ne (sym same ∙ z)) ∙ same;
  fresh = λ z.
      let (low, free) = y.fresh (same ∙ z) in
      let low_before : n.addr < f.sb.size =
        subst (λ (b : SuperBlock). n.addr < b.size) x.same_sb low in
      (low_before, free_before low_before free);
  used_more = λ c lc u.
      y.used_more c (subst (λ (b : SuperBlock). c < b.size) (sym x.same_sb) lc)
        (x.used_more c lc u);
  taken_for = taken;
  slots_kept = both;
  zeroed = λ z. y.zeroed (same ∙ z);
  others = λ t k ne. y.others t k ne ∙ x.others t k (omega arith);
  blocks = λ t k ne.
      let e = x.others t k (omega arith) in
      subst (λ a. n.fs.block a ≡ m.fs.block a) e (y.blocks t k (λ z. ne (sym e ∙ z)))
      ∙ x.blocks t k ne;
  same_sb = y.same_sb ∙ x.same_sb;
  same_inode = y.same_inode ∙ ap (λ (k : Inode). record k { addrs = n.inode.addrs }) x.same_inode;
}
  where
    same : slot m.fs m.inode s ≡ slot f ip s
    same = x.others s l (omega arith)

    both : (t : ℕ) → t ≤ 140 → slot f ip t ≢ 0 → slot n.fs n.inode t ≡ slot f ip t
    both t le ne = let e = x.slots_kept t le ne in y.slots_kept t le (λ z. ne (sym e ∙ z)) ∙ e

    taken :
        (c : ℕ)
        → c < f.sb.size
        → used f c ≡ false
        → used n.fs c ≡ true
        → (t : ℕ) × ((t ≡ s) ⊎ (t ≡ 140)) × (slot f ip t ≡ 0) × (slot n.fs n.inode t ≡ c)
    taken c lc free now = elim (Bool-cases (used m.fs c)) [
      | inl u ↦
          let (t, w, z, e) = x.taken_for c lc free u in
          let at : t ≡ 140 = elim w [ inl k ↦ k | inr k ↦ k ] in
          let full : slot m.fs m.inode t ≢ 0 =
            λ q. x.there_is (sym x.here ∙ ap (slot m.fs m.inode) (sym at) ∙ q) in
          (t, inr at, z, y.slots_kept t (omega arith) full ∙ e)
      | inr u ↦
          let (t, w, z, e) =
            y.taken_for c (subst (λ (b : SuperBlock). c < b.size) (sym x.same_sb) lc) u now in
          let le : t ≤ 140 = elim w [ inl k ↦ omega arith | inr k ↦ omega arith ] in
          (t, w, empty_before t le z, e)
    ]
      where
        empty_before : (t : ℕ) → t ≤ 140 → slot m.fs m.inode t ≡ 0 → slot f ip t ≡ 0
        empty_before t le z = elim (eq_cases (slot f ip t) 0) [
          | inl (e, _) ↦ e
          | inr (ne, _) ↦ absurd (ne (sym (x.slots_kept t le ne) ∙ z))
        ]

    free_before : n.addr < f.sb.size → used m.fs n.addr ≡ false → used f n.addr ≡ false
    free_before low free = elim (Bool-cases (used f n.addr)) [
      | inl u ↦ absurd (cc (sym (x.used_more n.addr low u) ∙ free))
      | inr u ↦ u
    ]

indirect_slot_lem :
    (f : Fs) (ip : Inode) (s : ℕ) (m : Mapped)
    → 12 ≤ s
    → s < 140
    → Has f ip 140 m
    → Finds f ip s (indirect_slot m.fs m.inode m.addr (s - 12))
unfolding indirect_slot after
indirect_slot_lem f ip s m lo hi x = elim (eq_cases (get_word (m.fs.block m.addr) (s - 12)) 0) [
  | inr (ne, t) ↦
      rw (t, indirect_slot)
        (finds (
          Has-index f ip s m
            (record { addr = get_word (m.fs.block m.addr) (s - 12); inode = m.inode; fs = m.fs }) hi
            x
            (stays-Has m.fs m.inode s (get_word (m.fs.block m.addr) (s - 12)) x.file at_entry ne)))
  | inl (z, t) ↦ go z t (balloc m.fs) refl (balloc_lem m.fs x.file.laid_out.map)
]
  where
    at : m.inode.addrs 12 ≡ m.addr
    at = sym (slot_index m.fs m.inode) ∙ x.here

    at_entry : slot m.fs m.inode s ≡ get_word (m.fs.block m.addr) (s - 12)
    at_entry = slot_indirect m.fs m.inode s lo hi ∙ ap (λ a. in_index m.fs a (s - 12)) at ∙ shown
      where
        shown : in_index m.fs m.addr (s - 12) ≡ get_word (m.fs.block m.addr) (s - 12)
        shown = elim (eq_cases m.addr 0) [
          | inl (z, _) ↦ absurd (x.there_is z)
          | inr (_, t) ↦ rw t refl
        ]

    go :
        get_word (m.fs.block m.addr) (s - 12) ≡ 0
        → (get_word (m.fs.block m.addr) (s - 12) == 0) ≡ true
        → (o : Option (ℕ × Fs)) → balloc m.fs ≡ o
        → Balloc m.fs o
        → Finds f ip s (indirect_slot m.fs m.inode m.addr (s - 12))
    go z t _ e (out_of_blocks all) =
        rw (t, e, indirect_slot)
          (no_space (sym (x.others s hi (omega arith)) ∙ at_entry ∙ z) all (inr (m, x, refl)))
    go z t _ e (allocated {b} {g = h} taken) =
        rw (t, e, indirect_slot)
          (finds (
            Has-index f ip s m
              (record {
                addr = b;
                inode = m.inode;
                fs = with_block h m.addr (put_word (h.block m.addr) (s - 12) b);
              })
              hi x (entry-Has m.fs h m.inode b s m.addr x.file taken lo hi at x.there_is z)))

-- For a block number of a file, `bmap` gives the block that the file has there, or a zeroed one that
-- was free; the file keeps its other blocks with their contents, and remains well formed. It panics
-- only when the file has no block there and every block is in use, at once or after one has been
-- taken for the indirect block.
pub bmap_lem : (f : Fs) (ip : Inode) (s : ℕ) → IsFile f ip → s < 140 → Finds f ip s (bmap f ip s)
unfolding bmap
bmap_lem f ip s x l = elim (lt_cases s 12) [
  | inl (k, t) ↦ rw (t, bmap) (addr_slot_lem f ip s s x (inl (k, refl)))
  | inr (k, t) ↦ elim (lt_cases (s - 12) 128) [
    | inr (over, _) ↦ absurd (omega arith)
    | inl (_, u) ↦
        rw (t, u, bmap)
          (both k (addr_slot f ip 12) (addr_slot_lem f ip 12 140 x (inr (refl, refl))))
  ]
]
  where
    both :
        12 ≤ s
        → (o : Option Mapped) → Finds f ip 140 o
        → Finds f ip s (elim o as (λ _. Option Mapped) [
          | none ↦ none
          | some m ↦ indirect_slot m.fs m.inode m.addr (s - 12)
        ])
    both k _ (no_space empty all why) =
        no_space
          (slot_indirect f ip s k l
            ∙ ap (λ a. in_index f a (s - 12)) (sym (slot_index f ip) ∙ empty))
          all why
    both k _ (finds {m} y) = indirect_slot_lem f ip s m k l y
