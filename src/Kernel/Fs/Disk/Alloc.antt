-- ===== src/Kernel/Fs/Disk/Alloc.antt =====
-- `balloc` and `bfree` of xv6/fs.c on the set of blocks in use.
use laboratorio_lukitas.Common.{
  ℕ, zero, suc, ◌+◌, ◌-◌, ◌*◌, ◌/◌, ◌%◌, ◌≤◌, ◌<◌, ◌≡◌, refl, sym, ◌∙◌, ap, ◌≢◌, inl, inr, true,
  false, Option, none, some, arith, ltb, lt_cases, Bool-cases, update_self, update_ne,
}
use laboratorio_lukitas.Kernel.Fs.Disk.{
  Fs, bpb, bblock, set_bit, clear_bit, bzero, find_bit, mark, balloc_from, balloc, bfree,
}
use laboratorio_lukitas.Kernel.Fs.Disk.Bits.{
  bit-set_bit_self, bit-set_bit_ne, bit-clear_bit_self, bit-clear_bit_ne,
}
use laboratorio_lukitas.Kernel.Fs.Disk.Bitmap.{
  bit_at, used, Layout, Flipped, flip-Flipped, FreeBit, no_bit, bit_found, find_bit_lem,
}

-- The block is none of the bitmap's.
abbrev pub OffMap : Fs → ℕ → Type 0
OffMap f b = (c : ℕ) → c < f.sb.size → bblock c f.sb ≢ b

-- The block `b` was free, and is now in use and zero; nothing else has changed.
pub record Taken (f g : Fs) (b : ℕ) : Type 0 where
  pub in_range : b < f.sb.size
  pub was_free : used f b ≡ false
  pub same_sb : g.sb ≡ f.sb
  pub now_used : used g b ≡ true
  pub others : (c : ℕ) → c < f.sb.size → b ≢ c → used g c ≡ used f c
  pub zeroed : (o : ℕ) → g.block b o ≡ 0
  pub blocks : (c : ℕ) → OffMap f c → b ≢ c → g.block c ≡ f.block c

-- What `balloc` does, on each branch.
pub data Balloc (f : Fs) : Option (ℕ × Fs) → Type 0 where
  out_of_blocks : ((c : ℕ) → c < f.sb.size → used f c ≡ true) → Balloc f none
  allocated : {b : ℕ} {g : Fs} → Taken f g b → Balloc f (some (b, g))

used-free_OffMap : (f : Fs) (b : ℕ) → Layout f → used f b ≡ false → OffMap f b
used-free_OffMap f b layout free c l e = cc (sym free ∙ ap (used f) (sym e) ∙ layout c l)

zero-Taken :
    (f g : Fs) (b : ℕ)
    → Layout f
    → b < f.sb.size
    → used f b ≡ false
    → Flipped f g b true
    → Taken f (bzero g b) b
unfolding bzero used
zero-Taken f g b layout l free x = record {
  in_range = l;
  was_free = free;
  same_sb = x.same_sb;
  now_used =
      ap (λ d. bit_at d (b % bpb))
        (update_ne g.block b (λ _. 0) (bblock b g.sb) (λ e. off b l (at_g b ∙ sym e)))
      ∙ x.at_b;
  others = λ c lc ne.
      ap (λ d. bit_at d (c % bpb))
        (update_ne g.block b (λ _. 0) (bblock c g.sb) (λ e. off c lc (at_g c ∙ sym e)))
      ∙ x.others c ne;
  zeroed = λ o. ap (λ d. d o) (update_self g.block b (λ _. 0));
  blocks = λ c away ne. update_ne g.block b (λ _. 0) c ne ∙ x.blocks c (away b l);
}
  where
    off : OffMap f b
    off = used-free_OffMap f b layout free

    at_g : (c : ℕ) → bblock c f.sb ≡ bblock c g.sb
    at_g c = ap (bblock c) (sym x.same_sb)

bit_used :
    (f : Fs) (b i : ℕ) → b % bpb ≡ 0 → i < bpb → used f (b + i) ≡ bit_at (f.block (bblock b f.sb)) i
unfolding used
bit_used f b i al l =
    ap (λ k. bit_at (f.block (k + f.sb.bmapstart)) ((b + i) % bpb)) same_block
    ∙ ap (bit_at (f.block (bblock b f.sb))) same_bit
  where
    same_block : (b + i) / bpb ≡ b / bpb
    same_block = omega arith

    same_bit : (b + i) % bpb ≡ i
    same_bit = omega arith

mark-Taken :
    (f : Fs) (b i : ℕ)
    → Layout f
    → b % bpb ≡ 0
    → i < bpb
    → b + i < f.sb.size
    → bit_at (f.block (bblock b f.sb)) i ≡ false
    → Taken f (bzero (mark f b i) (b + i)) (b + i)
mark-Taken f b i layout al li lt clear =
    zero-Taken f (mark f b i) (b + i) layout lt (bit_used f b i al li ∙ clear) (
      flip-Flipped set_bit true bit-set_bit_self bit-set_bit_ne f (b + i) i (bblock b f.sb)
        (omega arith) (omega arith))

-- The blocks that the loop has passed.
abbrev UsedBelow : Fs → ℕ → Type 0
UsedBelow f b = (c : ℕ) → c < b → c < f.sb.size → used f c ≡ true

used_to :
    (f : Fs) (b j : ℕ)
    → b % bpb ≡ 0
    → j ≤ bpb
    → UsedBelow f b
    → ((i : ℕ) → 0 ≤ i → i < j → b + i < f.sb.size → bit_at (f.block (bblock b f.sb)) i ≡ true)
    → UsedBelow f (b + j)
used_to f b j al lj before here c l lc = elim (lt_cases c b) [
  | inl (below, _) ↦ before c below lc
  | inr (le, _) ↦
      let same : b + (c - b) ≡ c = omega arith in
      ap (used f) (sym same)
      ∙ bit_used f b (c - b) al (omega arith)
      ∙ here (c - b) (omega arith) (omega arith) (omega arith)
]

balloc_from_lem :
    (rounds b : ℕ) (f : Fs)
    → Layout f
    → b % bpb ≡ 0
    → f.sb.size ≤ b + rounds * bpb
    → UsedBelow f b
    → Balloc f (balloc_from rounds b f)
unfolding balloc_from
balloc_from_lem zero b f layout al hi before = out_of_blocks (λ c l. before c (omega arith) l)
balloc_from_lem (suc rounds) b f layout al hi before = elim (lt_cases b f.sb.size) [
  | inr (le, t) ↦ rw (t, balloc_from) (out_of_blocks (λ c l. before c (omega arith) l))
  | inl (lt, t) ↦
      found t (find_bit bpb 0 b f.sb.size (f.block (bblock b f.sb))) refl
        (find_bit_lem bpb 0 bpb b f.sb.size (f.block (bblock b f.sb)) refl)
        (λ rest. balloc_from_lem rounds (b + bpb) f layout (omega arith) (omega arith) rest)
]
  where
    found :
        ltb b f.sb.size ≡ true
        → (o : Option ℕ) → find_bit bpb 0 b f.sb.size (f.block (bblock b f.sb)) ≡ o
        → FreeBit b f.sb.size (f.block (bblock b f.sb)) 0 bpb o
        → (UsedBelow f (b + bpb) → Balloc f (balloc_from rounds (b + bpb) f))
        → Balloc f (balloc_from (suc rounds) b f)
    found t _ e (no_bit all_used) rest =
        rw (t, e, balloc_from) (rest (used_to f b bpb al (omega arith) before all_used))
    found t _ e (bit_found i lo up lt clear) rest =
        rw (t, e, balloc_from) (allocated (mark-Taken f b i layout al up lt clear))

-- When the bitmap's own blocks are in use, `balloc` takes a free block, marks it and zeroes it, and
-- changes no other mark and no other block outside the bitmap; it panics only when every
-- block is in use.
pub balloc_lem : (f : Fs) → Layout f → Balloc f (balloc f)
unfolding balloc
balloc_lem f layout =
    balloc_from_lem (f.sb.size / bpb + 1) 0 f layout refl (omega arith)
      (λ c l lc. absurd (omega arith))

-- What `bfree` does, on each branch.
pub data Bfree (f : Fs) (b : ℕ) : Option Fs → Type 0 where
  was_free : used f b ≡ false → Bfree f b none
  freed : {g : Fs} → used f b ≡ true → Flipped f g b false → Bfree f b (some g)

-- `bfree` clears the mark of a block in use, and changes no other mark and no block outside
-- the bitmap; it panics exactly when the block is free.
pub bfree_lem : (f : Fs) (b : ℕ) → Bfree f b (bfree f b)
unfolding bfree used bit_at
bfree_lem f b = elim (Bool-cases (used f b)) [
  | inl e ↦
      rw (e, bfree)
        (freed e (
          flip-Flipped clear_bit false bit-clear_bit_self bit-clear_bit_ne f b (b % bpb)
            (bblock b f.sb) refl refl))
  | inr e ↦ rw (e, bfree) (was_free e)
]
