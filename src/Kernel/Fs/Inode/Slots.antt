-- ===== src/Kernel/Fs/Inode/Slots.antt =====
-- The block addresses of an inode of xv6/fs.c as one array: the slots below 140 are those of the
-- content, and the slot 140 that of the indirect block.
use laboratorio_lukitas.Common.{
  ℕ, ◌-◌, ◌≤◌, ◌<◌, ◌≡◌, refl, sym, ◌∙◌, ap, subst, ◌≢◌, inl, inr, true, false, arith, ltb, ◌==◌,
  if◌then◌else◌, eq_cases, lt_cases,
}
use laboratorio_lukitas.Kernel.Fs.Disk.{Fs, SuperBlock, bblock, get_word}
use laboratorio_lukitas.Kernel.Fs.Disk.Bitmap.{used, Layout}
use laboratorio_lukitas.Kernel.Fs.Disk.Alloc.{Taken}
use laboratorio_lukitas.Kernel.Fs.Inode.{Inode, iblock}

-- An entry of the indirect block, 0 when there is no such block.
abbrev pub in_index : Fs → ℕ → ℕ → ℕ
in_index f ind i = if ind == 0 then 0 else get_word (f.block ind) i

unfoldable pub slot : Fs → Inode → ℕ → ℕ
slot f ip s =
    if ltb s 12
    then ip.addrs s
    else if ltb s 140
    then in_index f (ip.addrs 12) (s - 12)
    else ip.addrs 12

-- The block holds no part of the bitmap and no inodes.
pub record Off (sb : SuperBlock) (a : ℕ) : Type 0 where
  pub off_map : (c : ℕ) → c < sb.size → bblock c sb ≢ a
  pub off_inodes : (i : ℕ) → i < sb.ninodes → iblock i sb ≢ a

-- The boot block, the bitmap and the inodes are marked as in use.
pub record IsLaidOut (f : Fs) : Type 0 where
  pub small : f.sb.size < 4294967296
  pub boot : used f 0 ≡ true
  pub map : Layout f
  pub inodes : (i : ℕ) → i < f.sb.ninodes → used f (iblock i f.sb) ≡ true
  pub apart : (c i : ℕ) → c < f.sb.size → i < f.sb.ninodes → bblock c f.sb ≢ iblock i f.sb
  pub some_blocks : 0 < f.sb.size
  pub map_in : (c : ℕ) → c < f.sb.size → bblock c f.sb < f.sb.size
  pub inodes_in : (i : ℕ) → i < f.sb.ninodes → iblock i f.sb < f.sb.size

pub record Owned (f : Fs) (a : ℕ) : Type 0 where
  pub in_range : a < f.sb.size
  pub in_use : used f a ≡ true
  pub off : Off f.sb a

-- The blocks of the file are in use, hold nothing else, and are all different.
pub record IsFile (f : Fs) (ip : Inode) : Type 0 where
  pub laid_out : IsLaidOut f
  pub owned : (s : ℕ) → s ≤ 140 → slot f ip s ≢ 0 → Owned f (slot f ip s)
  pub distinct : (s t : ℕ) → s ≤ 140 → t ≤ 140 → slot f ip s ≢ 0 → slot f ip s ≡ slot f ip t → s ≡ t

pub free_Off : (f : Fs) (b : ℕ) → IsLaidOut f → used f b ≡ false → Off f.sb b
free_Off f b l free = record {
  off_map = λ c lc e. cc (sym free ∙ ap (used f) (sym e) ∙ l.map c lc);
  off_inodes = λ i li e. cc (sym free ∙ ap (used f) (sym e) ∙ l.inodes i li);
}

pub free_nonzero : (f : Fs) (b : ℕ) → IsLaidOut f → used f b ≡ false → b ≢ 0
free_nonzero f b l free e = cc (sym free ∙ ap (used f) e ∙ l.boot)

-- Marks that stay or are set keep the layout.
pub IsLaidOut-grow :
    (f g : Fs)
    → g.sb ≡ f.sb
    → ((c : ℕ) → c < f.sb.size → used f c ≡ true → used g c ≡ true)
    → IsLaidOut f
    → IsLaidOut g
IsLaidOut-grow f g sb more l = record {
  small = subst (λ k. k.size < 4294967296) (sym sb) l.small;
  boot = more 0 l.some_blocks l.boot;
  map = λ c lc.
      subst (λ k. used g (bblock c k) ≡ true) (sym sb)
        (more (bblock c f.sb) (l.map_in c (subst (λ k. c < k.size) sb lc))
          (l.map c (subst (λ k. c < k.size) sb lc)));
  inodes = λ i li.
      subst (λ k. used g (iblock i k) ≡ true) (sym sb)
        (more (iblock i f.sb) (l.inodes_in i (subst (λ k. i < k.ninodes) sb li))
          (l.inodes i (subst (λ k. i < k.ninodes) sb li)));
  apart =
      subst (λ k. (c i : ℕ) → c < k.size → i < k.ninodes → bblock c k ≢ iblock i k) (sym sb)
        l.apart;
  some_blocks = subst (λ k. 0 < k.size) (sym sb) l.some_blocks;
  map_in = λ c lc.
      subst (λ k. bblock c k < k.size) (sym sb) (l.map_in c (subst (λ k. c < k.size) sb lc));
  inodes_in = λ i li.
      subst (λ k. iblock i k < k.size) (sym sb) (l.inodes_in i (subst (λ k. i < k.ninodes) sb li));
}

-- One empty slot gets a block that was free; the other slots stay.
pub fill-IsFile :
    (f g : Fs) (ip ip' : Inode) (b s : ℕ)
    → IsFile f ip
    → s ≤ 140
    → b < f.sb.size
    → used f b ≡ false
    → g.sb ≡ f.sb
    → used g b ≡ true
    → ((c : ℕ) → c < f.sb.size → used f c ≡ true → used g c ≡ true)
    → slot g ip' s ≡ b
    → ((t : ℕ) → t ≤ 140 → s ≢ t → slot g ip' t ≡ slot f ip t)
    → IsFile g ip'
fill-IsFile f g ip ip' b s x ls lb free sb taken more here others = record {
  laid_out = IsLaidOut-grow f g sb more x.laid_out;
  owned = λ t lt ne. elim (eq_cases s t) [
    | inl (e, _) ↦ subst (Owned g) (sym here ∙ ap (slot g ip') e) (record {
      in_range = subst (λ k. b < k.size) (sym sb) lb;
      in_use = taken;
      off = subst (λ k. Off k b) (sym sb) (free_Off f b x.laid_out free);
    })
    | inr (other, _) ↦ subst (Owned g) (sym (others t lt other)) (old t lt other ne)
  ];
  distinct = λ t u lt lu ne e. elim (eq_cases s t) [
    | inl (st, _) ↦ elim (eq_cases s u) [
      | inl (su, _) ↦ sym st ∙ su
      | inr (other, _) ↦
          absurd
            (fresh u lu other (sym (others u lu other) ∙ sym e ∙ ap (slot g ip') (sym st) ∙ here))
    ]
    | inr (other, _) ↦ elim (eq_cases s u) [
      | inl (su, _) ↦
          absurd (fresh t lt other (sym (others t lt other) ∙ e ∙ ap (slot g ip') (sym su) ∙ here))
      | inr (other', _) ↦
          x.distinct t u lt lu (λ z. ne (others t lt other ∙ z))
            (sym (others t lt other) ∙ e ∙ others u lu other')
    ]
  ];
}
  where
    old : (t : ℕ) → t ≤ 140 → s ≢ t → slot g ip' t ≢ 0 → Owned g (slot f ip t)
    old t lt other ne =
        let o = x.owned t lt (λ z. ne (others t lt other ∙ z)) in
        record {
          in_range = subst (λ k. slot f ip t < k.size) (sym sb) o.in_range;
          in_use = more (slot f ip t) o.in_range o.in_use;
          off = subst (λ k. Off k (slot f ip t)) (sym sb) o.off;
        }

    fresh : (t : ℕ) → t ≤ 140 → s ≢ t → slot f ip t ≢ b
    fresh t lt other e =
        let o = x.owned t lt (λ z. free_nonzero f b x.laid_out free (sym e ∙ z)) in
        cc (sym free ∙ ap (used f) (sym e) ∙ o.in_use)

-- `Taken` as a growth of the marks.
pub Taken-more :
    (f g : Fs) (b : ℕ) → Taken f g b → (c : ℕ) → c < f.sb.size → used f c ≡ true → used g c ≡ true
Taken-more f g b x c lc e = elim (eq_cases b c) [
  | inl (same, _) ↦ subst (λ k. used g k ≡ true) same x.now_used
  | inr (ne, _) ↦ x.others c lc ne ∙ e
]

pub slot_direct : (f : Fs) (ip : Inode) (s : ℕ) → s < 12 → slot f ip s ≡ ip.addrs s
unfolding slot
slot_direct f ip s l = ground arith

pub slot_index : (f : Fs) (ip : Inode) → slot f ip 140 ≡ ip.addrs 12
unfolding slot
slot_index f ip = refl

pub slot_indirect :
    (f : Fs) (ip : Inode) (s : ℕ)
    → 12 ≤ s
    → s < 140
    → slot f ip s ≡ in_index f (ip.addrs 12) (s - 12)
unfolding slot
slot_indirect f ip s lo hi = elim (lt_cases s 12) [
  | inl (l, _) ↦ absurd (omega arith)
  | inr (_, t) ↦ elim (lt_cases s 140) [
    | inl (_, u) ↦ rw (t, u) refl
    | inr (l, _) ↦ absurd (omega arith)
  ]
]

-- Two inodes agree at a slot when they agree in its address, or through the indirect block.
pub slot_cases :
    (f g : Fs) (ip ip' : Inode) (t : ℕ)
    → t ≤ 140
    → (t < 12 → ip'.addrs t ≡ ip.addrs t)
    → (12 ≤ t → t < 140 → in_index g (ip'.addrs 12) (t - 12) ≡ in_index f (ip.addrs 12) (t - 12))
    → (t ≡ 140 → ip'.addrs 12 ≡ ip.addrs 12)
    → slot g ip' t ≡ slot f ip t
slot_cases f g ip ip' t l direct indirect index = elim (lt_cases t 12) [
  | inl (k, _) ↦ slot_direct g ip' t k ∙ direct k ∙ sym (slot_direct f ip t k)
  | inr (lo, _) ↦ elim (lt_cases t 140) [
    | inl (k, _) ↦ slot_indirect g ip' t lo k ∙ indirect lo k ∙ sym (slot_indirect f ip t lo k)
    | inr (k, _) ↦
        let e : t ≡ 140 = omega arith in
        subst (λ s. slot g ip' s ≡ slot f ip s) (sym e)
          (slot_index g ip' ∙ index e ∙ sym (slot_index f ip))
  ]
]
