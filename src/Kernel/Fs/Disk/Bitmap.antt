-- ===== src/Kernel/Fs/Disk/Bitmap.antt =====
-- The bitmap as a set of blocks in use: what `balloc` and `bfree` of xv6/fs.c do to it.
use laboratorio_lukitas.Common.{
  ℕ, zero, suc, ◌+◌, ◌/◌, ◌%◌, ◌≤◌, ◌<◌, ◌≡◌, refl, ◌∙◌, ap, subst, ◌≢◌, inl, inr, Bool, true,
  false, Option, none, some, arith, ltb, eq_cases, Bool-cases, update, update_self, update_ne,
}
use laboratorio_lukitas.Kernel.Fs.Disk.{Bytes, Fs, bpb, bblock, with_block, bit, find_bit}

-- The bit `i` of a block.
unfoldable pub bit_at : Bytes → ℕ → Bool
bit_at d i = bit (d (i / 8)) (i % 8)

unfoldable pub used : Fs → ℕ → Bool
unfolding bit_at
used f b = bit_at (f.block (bblock b f.sb)) (b % bpb)

-- The blocks of the bitmap are in use themselves.
abbrev pub Layout : Fs → Type 0
Layout f = (c : ℕ) → c < f.sb.size → used f (bblock c f.sb) ≡ true

-- A change of the bit `i` by `op`, to `v`.
module _ (op : ℕ → ℕ → ℕ) (v : Bool) (self : (k byte : ℕ) → bit (op byte k) k ≡ v)
    (other : (k j byte : ℕ) → k ≢ j → bit (op byte k) j ≡ bit byte j) where
  bit_at-change_self :
      (d : Bytes) (i : ℕ) → bit_at (update d (i / 8) (op (d (i / 8)) (i % 8))) i ≡ v
  unfolding bit_at
  bit_at-change_self d i =
      ap (λ byte. bit byte (i % 8)) (update_self d (i / 8) (op (d (i / 8)) (i % 8)))
      ∙ self (i % 8) (d (i / 8))

  bit_at-change_ne :
      (d : Bytes) (i j : ℕ)
      → i ≢ j
      → bit_at (update d (i / 8) (op (d (i / 8)) (i % 8))) j ≡ bit_at d j
  unfolding bit_at
  bit_at-change_ne d i j ne = elim (eq_cases (i / 8) (j / 8)) [
    | inl (e, t) ↦
        rw t (other (i % 8) (j % 8) (d (i / 8)) (omega arith) ∙ ap (λ o. bit (d o) (j % 8)) e)
    | inr (_, t) ↦ rw t refl
  ]

-- The bit changed in its block of the bitmap, as a change of the set.
pub record Flipped (f g : Fs) (b : ℕ) (v : Bool) : Type 0 where
  pub same_sb : g.sb ≡ f.sb
  pub at_b : used g b ≡ v
  pub others : (c : ℕ) → b ≢ c → used g c ≡ used f c
  pub blocks : (c : ℕ) → bblock b f.sb ≢ c → g.block c ≡ f.block c

module _ (op : ℕ → ℕ → ℕ) (v : Bool) (self : (k byte : ℕ) → bit (op byte k) k ≡ v)
    (other : (k j byte : ℕ) → k ≢ j → bit (op byte k) j ≡ bit byte j) where
  pub flip-Flipped :
      (f : Fs) (b i bn : ℕ)
      → b % bpb ≡ i
      → bblock b f.sb ≡ bn
      → Flipped f
          (with_block f bn (update (f.block bn) (i / 8) (op (f.block bn (i / 8)) (i % 8))))
          b
          v
  unfolding used
  flip-Flipped f b i bn ei en = record {
    same_sb = refl;
    at_b =
        rw (ei, en)
          (ap (λ d. bit_at d i) (update_self f.block bn changed)
            ∙ bit_at-change_self op v self other (f.block bn) i);
    others = λ c ne. elim (eq_cases bn (bblock c f.sb)) [
      | inl (e, t) ↦ rw t (
          bit_at-change_ne op v self other (f.block bn) i (c % bpb) (differ c ne e)
          ∙ ap (λ k. bit_at (f.block k) (c % bpb)) e)
      | inr (_, t) ↦ rw t refl
    ];
    blocks = λ c ne. update_ne f.block bn changed c (λ e. ne (en ∙ e));
  }
    where
      changed : Bytes
      changed = update (f.block bn) (i / 8) (op (f.block bn (i / 8)) (i % 8))

      differ : (c : ℕ) → b ≢ c → bn ≡ bblock c f.sb → i ≢ c % bpb
      differ c ne e = omega (arith, en)

-- The first free block from `b + lo` on, among the bits below `hi` and the blocks below `size`.
pub data FreeBit (b size : ℕ) (d : Bytes) (lo hi : ℕ) : Option ℕ → Type 0 where
  no_bit :
      ((i : ℕ) → lo ≤ i → i < hi → b + i < size → bit_at d i ≡ true) → FreeBit b size d lo hi none
  bit_found :
      (i : ℕ)
      → lo ≤ i
      → i < hi
      → b + i < size
      → bit_at d i ≡ false
      → FreeBit b size d lo hi (some i)

pub find_bit_lem :
    (rounds bi hi b size : ℕ) (d : Bytes)
    → hi ≡ bi + rounds
    → FreeBit b size d bi hi (find_bit rounds bi b size d)
unfolding find_bit bit_at
find_bit_lem zero bi hi b size d e = no_bit (λ i lo up l. absurd (omega arith))
find_bit_lem (suc rounds) bi hi b size d e = elim (Bool-cases (ltb (b + bi) size)) [
  | inr t ↦ rw (t, find_bit) (no_bit (λ i lo up l. absurd (ground arith)))
  | inl t ↦ elim (Bool-cases (bit_at d bi)) [
    | inr z ↦ rw (t, z, find_bit) (bit_found bi (omega arith) (omega arith) (ground arith) z)
    | inl z ↦
        rw (t, z, find_bit)
          (later z (find_bit rounds (suc bi) b size d)
            (find_bit_lem rounds (suc bi) hi b size d (omega arith)))
  ]
]
  where
    later :
        bit_at d bi ≡ true
        → (o : Option ℕ) → FreeBit b size d (suc bi) hi o
        → FreeBit b size d bi hi o
    later z _ (no_bit rest) = no_bit (λ i lo up l. elim (eq_cases bi i) [
      | inl (e, _) ↦ subst (λ k. bit_at d k ≡ true) e z
      | inr (ne, _) ↦ rest i (omega arith) up l
    ])
    later z _ (bit_found i lo up l clear) = bit_found i (omega arith) up l clear

-- A change of a block that holds none of the bit's word.
pub used-with_block :
    (f : Fs) (a : ℕ) (d : Bytes) (c : ℕ) → a ≢ bblock c f.sb → used (with_block f a d) c ≡ used f c
unfolding used
used-with_block f a d c ne = ap (λ k. bit_at k (c % bpb)) (update_ne f.block a d (bblock c f.sb) ne)
