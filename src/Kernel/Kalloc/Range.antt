-- ===== src/Kernel/Kalloc/Range.antt =====
-- `freerange` of xv6/kalloc.c: which pages it frees, and that its rounds are enough.
use laboratorio_lukitas.Common.{
  ℕ, zero, suc, ◌+◌, ◌*◌, ◌/◌, ◌%◌, ◌≤◌, ◌<◌, ◌≡◌, sym, ◌∙◌, ◌≢◌, inl, inr, Bool, true, false, not,
  ◌&&◌, List, ◌∷◌, arith, leb, ◌==◌, eq_cases, Bool-cases, update, update_ne,
}
use laboratorio_lukitas.Kernel.Kalloc.{
  Kmem, Freed, freed, pgsize, wrap, pg_round_up, link, free_pages, freerange,
}
use laboratorio_lukitas.Kernel.Kalloc.Pool.{IsPage, IsPool, link-IsPool, kfree-freed}

-- The page lies between the addresses.
abbrev pub within : ℕ → ℕ → ℕ → Bool
within vstart vend y = y % 4096 == 0 && leb vstart y && leb (y + 4096) vend

-- Who holds what once the pages between the addresses are freed.
abbrev pub released : (ℕ → Bool) → ℕ → ℕ → ℕ → Bool
released held vstart vend y = held y && not (within vstart vend y)

IsPool-ext :
    {kernel_end : ℕ} {all h g : ℕ → Bool} {k : Kmem} {xs : List ℕ}
    → ((y : ℕ) → g y ≡ h y)
    → IsPool kernel_end all h k xs
    → IsPool kernel_end all g k xs
IsPool-ext same p = record {
  pages = p.pages;
  owned = λ y h. p.owned y (sym (same y) ∙ h);
  chain = p.chain;
  free = λ y on. ((p.free y on).0, same y ∙ (p.free y on).1);
  kept = λ y mem out. p.kept y mem (sym (same y) ∙ out);
}

-- What the loop ends with: the pages of the range are on the list.
pub data RangeFreed (kernel_end : ℕ) (all held : ℕ → Bool) : Freed → Type 0 where
  range_freed :
      {k : Kmem} (xs : List ℕ)
      → IsPool kernel_end all held k xs
      → RangeFreed kernel_end all held (freed k)

RangeFreed-ext :
    {kernel_end : ℕ} {all h g : ℕ → Bool} {r : Freed}
    → ((y : ℕ) → g y ≡ h y)
    → RangeFreed kernel_end all h r
    → RangeFreed kernel_end all g r
RangeFreed-ext same (range_freed xs p) = range_freed xs (IsPool-ext same p)

last_page : (held : ℕ → Bool) (p vend y : ℕ) → vend < p + 4096 → released held p vend y ≡ held y
last_page held p vend y h = elim (Bool-cases (held y)) [
  | inl e ↦ ground arith
  | inr e ↦ ground arith
]

next_page :
    (held : ℕ → Bool) (p vend y : ℕ)
    → p % 4096 ≡ 0
    → p + 4096 ≤ vend
    → released held p vend y ≡ released (update held p false) (p + 4096) vend y
next_page held p vend y aligned more = elim (eq_cases p y) [
  | inl (e, t) ↦ elim (Bool-cases (held y)) [ inl e' ↦ ground arith | inr e' ↦ ground arith ]
  | inr (other, t) ↦ rw (update_ne held p false y other) (same other)
]
  where
    same : p ≢ y → released held p vend y ≡ released held (p + 4096) vend y
    same other = elim (Bool-cases (held y)) [ inl e' ↦ ground arith | inr e' ↦ ground arith ]

free_pages_lem :
    (kernel_end : ℕ) (all : ℕ → Bool) (rounds p vend : ℕ) (held : ℕ → Bool) (k : Kmem) (xs : List ℕ)
    → IsPool kernel_end all held k xs
    → p % 4096 ≡ 0
    → p < 4294959104
    → vend < 4294959104
    → vend < p + rounds * 4096 + 4096
    → ((y : ℕ) → y % 4096 ≡ 0 → p ≤ y → y + 4096 ≤ vend → held y ≡ true)
    → RangeFreed kernel_end all (released held p vend) (free_pages kernel_end rounds p vend k)
unfolding free_pages
free_pages_lem kernel_end all zero p vend held k xs pool aligned small low enough mine =
    range_freed xs (IsPool-ext (λ y. last_page held p vend y (omega arith)) pool)
free_pages_lem kernel_end all (suc rounds) p vend held k xs pool aligned small low enough mine =
    elim (Bool-cases (leb (wrap (p + pgsize)) vend)) [
      | inr t ↦
          rw (t, free_pages)
            (range_freed xs (IsPool-ext (λ y. last_page held p vend y (ground arith)) pool))
      | inl t ↦
          let le : p + 4096 ≤ vend = ground arith in
          rw (t, free_pages)
            (rw (kfree-freed kernel_end k p (page le)) (
              rw step (
                RangeFreed-ext (λ y. next_page held p vend y aligned le)
                  (free_pages_lem kernel_end all rounds (p + 4096) vend (update held p false)
                    (link k p) (p ∷ xs) (link-IsPool kernel_end all held k xs p pool (here le))
                    (omega arith) (omega arith) low (omega arith)
                    (λ y al lo hi.
                      update_ne held p false y (omega arith) ∙ mine y al (omega arith) hi)))))
    ]
  where
    here : p + 4096 ≤ vend → held p ≡ true
    here le = mine p aligned (omega arith) le

    page : p + 4096 ≤ vend → IsPage kernel_end p
    page le = pool.pages p (pool.owned p (here le))

    step : wrap (p + pgsize) ≡ p + 4096
    step = omega arith

rounded :
    (held : ℕ → Bool) (vstart vend y : ℕ)
    → vstart < 4294959104
    → released held vstart vend y ≡ released held (pg_round_up vstart) vend y
rounded held vstart vend y low = elim (Bool-cases (held y)) [
  | inl e ↦ ground arith
  | inr e ↦ ground arith
]

-- When the caller holds every whole page between two addresses below the top of memory,
-- `freerange` returns without a panic, and the pages on the free list are then those that were
-- there and the whole pages between the two addresses.
pub freerange_lem :
    (kernel_end : ℕ) (all held : ℕ → Bool) (k : Kmem) (xs : List ℕ) (vstart vend : ℕ)
    → IsPool kernel_end all held k xs
    → vstart < 4294955008
    → vend < 4294955008
    → ((y : ℕ) → within vstart vend y ≡ true → held y ≡ true)
    → RangeFreed kernel_end all (released held vstart vend) (freerange kernel_end vstart vend k)
unfolding freerange
freerange_lem kernel_end all held k xs vstart vend pool low high mine =
    RangeFreed-ext (λ y. rounded held vstart vend y (omega arith))
      (free_pages_lem kernel_end all (vend / pgsize + 1) (pg_round_up vstart) vend held k xs pool
        (omega arith) (omega arith) (omega arith) (omega arith)
        (λ y al lo hi. mine y (ground arith)))
