-- ===== src/Kernel/Log/Header.antt =====
-- The header block of xv6/log.c: what `write_head` writes and `read_head` reads back.
use laboratorio_lukitas.Common.{
  ℕ, zero, suc, ◌+◌, ◌≤◌, ◌<◌, ◌≡◌, refl, ◌∙◌, List, arith, length, get_or, set, length-set,
  get_or-set_self, get_or-set_ne, inl, inr, eq_cases,
}
use laboratorio_lukitas.Kernel.Log.{Block, LogHeader, read_entries, copy_entries, head_block}

-- The entries below the loop's index are kept.
read_entries_below :
    (r i : ℕ) (hb : Block) (block : List ℕ) (j : ℕ)
    → j < i
    → get_or (read_entries r i hb block) j 0 ≡ get_or block j 0
unfolding read_entries
read_entries_below zero i hb block j h = refl
read_entries_below (suc r) i hb block j h =
    read_entries_below r (suc i) hb (set block i (get_or hb (suc i) 0)) j (omega arith)
    ∙ get_or-set_ne block i j (get_or hb (suc i) 0) 0 (omega arith)

-- The entries that the loop goes over come from the header block.
pub get_or-read_entries :
    (r i : ℕ) (hb : Block) (block : List ℕ) (j : ℕ)
    → i ≤ j
    → j < i + r
    → i + r ≤ length block
    → get_or (read_entries r i hb block) j 0 ≡ get_or hb (suc j) 0
unfolding read_entries
get_or-read_entries zero i hb block j h k l = absurd (omega arith)
get_or-read_entries (suc r) i hb block j h k l =
    let b' = set block i (get_or hb (suc i) 0) in
    elim (eq_cases i j) [
      | inl (e, _) ↦
          read_entries_below r (suc i) hb b' j (omega arith)
          ∙ subst_index e (get_or-set_self block i (get_or hb (suc i) 0) 0 (omega arith))
      | inr (ne, _) ↦
          get_or-read_entries r (suc i) hb b' j (omega arith) (omega arith)
            (omega (arith, length-set block i (get_or hb (suc i) 0)))
    ]
  where
    subst_index :
        i ≡ j
        → get_or (set block i (get_or hb (suc i) 0)) i 0 ≡ get_or hb (suc i) 0
        → get_or (set block i (get_or hb (suc i) 0)) j 0 ≡ get_or hb (suc j) 0
    subst_index e p = rw (← e) p

pub length-read_entries :
    (r i : ℕ) (hb : Block) (block : List ℕ) → length (read_entries r i hb block) ≡ length block
unfolding read_entries
length-read_entries zero i hb block = refl
length-read_entries (suc r) i hb block =
    length-read_entries r (suc i) hb (set block i (get_or hb (suc i) 0))
    ∙ length-set block i (get_or hb (suc i) 0)

length-copy_entries :
    (r i : ℕ) (block : List ℕ) (hb : Block) → length (copy_entries r i block hb) ≡ length hb
unfolding copy_entries
length-copy_entries zero i block hb = refl
length-copy_entries (suc r) i block hb =
    length-copy_entries r (suc i) block (set hb (suc i) (get_or block i 0))
    ∙ length-set hb (suc i) (get_or block i 0)

copy_entries_below :
    (r i : ℕ) (block : List ℕ) (hb : Block) (j : ℕ)
    → j < suc i
    → get_or (copy_entries r i block hb) j 0 ≡ get_or hb j 0
unfolding copy_entries
copy_entries_below zero i block hb j h = refl
copy_entries_below (suc r) i block hb j h =
    copy_entries_below r (suc i) block (set hb (suc i) (get_or block i 0)) j (omega arith)
    ∙ get_or-set_ne hb (suc i) j (get_or block i 0) 0 (omega arith)

get_or-copy_entries :
    (r i : ℕ) (block : List ℕ) (hb : Block) (j : ℕ)
    → i ≤ j
    → j < i + r
    → i + r < length hb
    → get_or (copy_entries r i block hb) (suc j) 0 ≡ get_or block j 0
unfolding copy_entries
get_or-copy_entries zero i block hb j h k l = absurd (omega arith)
get_or-copy_entries (suc r) i block hb j h k l =
    let hb' = set hb (suc i) (get_or block i 0) in
    elim (eq_cases i j) [
      | inl (e, _) ↦
          copy_entries_below r (suc i) block hb' (suc j) (omega arith)
          ∙ subst_index e (get_or-set_self hb (suc i) (get_or block i 0) 0 (omega arith))
      | inr (ne, _) ↦
          get_or-copy_entries r (suc i) block hb' j (omega arith) (omega arith)
            (omega (arith, length-set hb (suc i) (get_or block i 0)))
    ]
  where
    subst_index :
        i ≡ j
        → get_or (set hb (suc i) (get_or block i 0)) (suc i) 0 ≡ get_or block i 0
        → get_or (set hb (suc i) (get_or block i 0)) (suc j) 0 ≡ get_or block j 0
    subst_index e p = rw (← e) p

module _ (lh : LogHeader) (hb : Block) where
  pub length-head_block : length (head_block lh hb) ≡ length hb
  unfolding head_block
  length-head_block = length-copy_entries lh.n 0 lh.block (set hb 0 lh.n) ∙ length-set hb 0 lh.n

  pub head_block_count : 0 < length hb → get_or (head_block lh hb) 0 0 ≡ lh.n
  unfolding head_block
  head_block_count h =
      copy_entries_below lh.n 0 lh.block (set hb 0 lh.n) 0 (omega arith)
      ∙ get_or-set_self hb 0 lh.n 0 h

  pub head_block_entry :
      (j : ℕ)
      → j < lh.n
      → lh.n < length hb
      → get_or (head_block lh hb) (suc j) 0 ≡ get_or lh.block j 0
  unfolding head_block
  head_block_entry j h l =
      get_or-copy_entries lh.n 0 lh.block (set hb 0 lh.n) j (omega arith) (omega arith)
        (omega (arith, length-set hb 0 lh.n))
