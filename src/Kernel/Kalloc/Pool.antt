-- ===== src/Kernel/Kalloc/Pool.antt =====
-- The free list of xv6/kalloc.c as a list of pages, and what `kfree` and `kalloc` do to it.
use laboratorio_lukitas.Common.{
  ℕ, ◌+◌, ◌%◌, ◌≤◌, ◌<◌, ◌≡◌, refl, sym, ◌∙◌, ap, subst, ◌≢◌, inl, inr, Bool, true, false, List, [],
  ◌∷◌, arith, eq_cases, lt_cases, update, update_self, update_ne,
}
use laboratorio_lukitas.Kernel.Kalloc.{
  Kmem, freed, pgsize, kernbase, phystop, link, is_bad, kfree, memset,
}

-- What `kfree` asks of a page, without the wrap-around of `V2P`.
pub record IsPage (kernel_end v : ℕ) : Type 0 where
  pub aligned : v % pgsize ≡ 0
  pub above : kernel_end ≤ v
  pub below : v < kernbase + phystop
  pub kernel : kernbase < kernel_end

-- The page is on the list.
pub data On (x : ℕ) : List ℕ → Type 0 where
  here : {xs : List ℕ} → On x (x ∷ xs)
  there : {y : ℕ} {xs : List ℕ} → On x xs → On x (y ∷ xs)

-- The list that starts at the address `p`, its pages distinct.
pub data Chain (mem : ℕ → ℕ) : ℕ → List ℕ → Type 0 where
  stop : Chain mem 0 []
  run :
      {x : ℕ} {xs : List ℕ}
      → ((y : ℕ) → On y xs → x ≢ y)
      → Chain mem (mem x) xs
      → Chain mem x (x ∷ xs)

-- The free list holds exactly the pages of `all` that nobody holds.
pub record IsPool (kernel_end : ℕ) (all held : ℕ → Bool) (k : Kmem) (xs : List ℕ) : Type 0 where
  pub pages : (x : ℕ) → all x ≡ true → IsPage kernel_end x
  pub owned : (x : ℕ) → held x ≡ true → all x ≡ true
  pub chain : Chain k.mem k.freelist xs
  pub free : (x : ℕ) → On x xs → (all x ≡ true) × (held x ≡ false)
  pub kept : (x : ℕ) → all x ≡ true → held x ≡ false → On x xs

-- A write that leaves the links of the listed pages alone.
pub Chain-frame :
    (f g : ℕ → ℕ) (p : ℕ) (xs : List ℕ)
    → ((y : ℕ) → On y xs → g y ≡ f y)
    → Chain f p xs
    → Chain g p xs
Chain-frame f g _ _ same stop = stop
Chain-frame f g p (x ∷ xs) same (run apart c) = run apart (
    subst (λ q. Chain g q xs) (sym (same x here))
      (Chain-frame f g (f x) xs (λ y on. same y (there on)) c))

-- The address of another page is not in a page.
pub page_apart : (x y a : ℕ) → x % 4096 ≡ 0 → y % 4096 ≡ 0 → x ≢ y → x ≤ a → a < x + 4096 → a ≢ y
page_apart x y a ex ey ne lo hi e = elim (lt_cases x y) [
  | inl (lt, _) ↦ absurd (omega arith)
  | inr (le, _) ↦ ne (omega arith)
]

is_bad-IsPage : (kernel_end v : ℕ) → IsPage kernel_end v → is_bad kernel_end v ≡ false
is_bad-IsPage kernel_end v p = ground (arith, p.aligned, p.above, p.below, p.kernel)

-- `kfree` of a page that can be freed.
pub kfree-freed :
    (kernel_end : ℕ) (k : Kmem) (v : ℕ)
    → IsPage kernel_end v
    → kfree kernel_end k v ≡ freed (link k v)
unfolding kfree
kfree-freed kernel_end k v p = rw (is_bad-IsPage kernel_end v p) refl

-- The junk stays in its page.
memset_beyond :
    (mem : ℕ → ℕ) (x y : ℕ) → x % 4096 ≡ 0 → y % 4096 ≡ 0 → x ≢ y → memset mem x 1 pgsize y ≡ mem y
memset_beyond mem x y ex ey ne = elim (lt_cases y x) [
  | inl (lt, _) ↦ ground arith
  | inr (le, _) ↦ elim (lt_cases y (x + 4096)) [
    | inl (hi, _) ↦ absurd (page_apart x y y ex ey ne le hi refl)
    | inr (hi, _) ↦ ground arith
  ]
]

-- A page freed by its holder goes to the front of the list.
pub link-IsPool :
    (kernel_end : ℕ) (all held : ℕ → Bool) (k : Kmem) (xs : List ℕ) (x : ℕ)
    → IsPool kernel_end all held k xs
    → held x ≡ true
    → IsPool kernel_end all (update held x false) (link k x) (x ∷ xs)
link-IsPool kernel_end all held k xs x p mine = record {
  pages = p.pages;
  owned = λ y h. p.owned y (still y h);
  chain = run apart (
      rw (update_self (memset k.mem x 1 pgsize) x k.freelist)
        (Chain-frame k.mem (link k x).mem k.freelist xs untouched p.chain));
  free = free;
  kept = λ y mem out. elim (eq_cases x y) [
    | inl (e, _) ↦ subst (λ z. On z (x ∷ xs)) e here
    | inr (other, _) ↦ there (p.kept y mem (sym (update_ne held x false y other) ∙ out))
  ];
}
  where
    still : (y : ℕ) → update held x false y ≡ true → held y ≡ true
    still y h = elim (eq_cases x y) [
      | inl (e, t) ↦ absurd (ground arith)
      | inr (other, _) ↦ sym (update_ne held x false y other) ∙ h
    ]

    apart : (y : ℕ) → On y xs → x ≢ y
    apart y on e = cc (sym (p.free y on).1 ∙ ap held (sym e) ∙ mine)

    page : (y : ℕ) → all y ≡ true → y % 4096 ≡ 0
    page y h = (p.pages y h).aligned

    untouched : (y : ℕ) → On y xs → (link k x).mem y ≡ k.mem y
    untouched y on =
        update_ne (memset k.mem x 1 pgsize) x k.freelist y (apart y on)
        ∙ memset_beyond k.mem x y (page x (p.owned x mine)) (page y (p.free y on).0) (apart y on)

    free : (y : ℕ) → On y (x ∷ xs) → (all y ≡ true) × (update held x false y ≡ false)
    free _ here = (p.owned x mine, update_self held x false)
    free y (there on) = ((p.free y on).0, update_ne held x false y (apart y on) ∙ (p.free y on).1)

-- A page taken from the list was held by nobody.
pub take-IsPool :
    (kernel_end : ℕ) (all held : ℕ → Bool) (k : Kmem) (xs : List ℕ) (x : ℕ)
    → IsPool kernel_end all held k (x ∷ xs)
    → (k.freelist ≡ x)
      × IsPool kernel_end all (update held x true) (record k { freelist = k.mem x }) xs
take-IsPool kernel_end all held k xs x p = (
  head p.chain,
  record {
    pages = p.pages;
    owned = λ y h. elim (eq_cases x y) [
      | inl (e, _) ↦ subst (λ z. all z ≡ true) e (p.free x here).0
      | inr (other, _) ↦ p.owned y (sym (update_ne held x true y other) ∙ h)
    ];
    chain = tail p.chain;
    free = λ y on. (
      (p.free y (there on)).0,
      update_ne held x true y (apart p.chain y on) ∙ (p.free y (there on)).1,
    );
    kept = λ y mem out. elim (eq_cases x y) [
      | inl (e, t) ↦ absurd (ground arith)
      | inr (other, _) ↦ listed y other (p.kept y mem (sym (update_ne held x true y other) ∙ out))
    ];
  },
)
  where
    head : {q : ℕ} → Chain k.mem q (x ∷ xs) → q ≡ x
    head (run _ _) = refl

    tail : {q : ℕ} → Chain k.mem q (x ∷ xs) → Chain k.mem (k.mem x) xs
    tail (run _ c) = c

    apart : {q : ℕ} → Chain k.mem q (x ∷ xs) → (y : ℕ) → On y xs → x ≢ y
    apart (run a _) = a

    listed : (y : ℕ) → x ≢ y → On y (x ∷ xs) → On y xs
    listed _ other here = absurd (other refl)
    listed y other (there on) = on

-- A holder's write in its page.
pub write-IsPool :
    (kernel_end : ℕ) (all held : ℕ → Bool) (k : Kmem) (xs : List ℕ) (x a w : ℕ)
    → IsPool kernel_end all held k xs
    → held x ≡ true
    → x ≤ a
    → a < x + pgsize
    → IsPool kernel_end all held (record k { mem = update k.mem a w }) xs
write-IsPool kernel_end all held k xs x a w p mine lo hi = record {
  pages = p.pages;
  owned = p.owned;
  chain = Chain-frame k.mem (update k.mem a w) k.freelist xs untouched p.chain;
  free = p.free;
  kept = p.kept;
}
  where
    apart : (y : ℕ) → On y xs → x ≢ y
    apart y on e = cc (sym (p.free y on).1 ∙ ap held (sym e) ∙ mine)

    untouched : (y : ℕ) → On y xs → update k.mem a w y ≡ k.mem y
    untouched y on = update_ne k.mem a w y (
        page_apart x y a (p.pages x (p.owned x mine)).aligned (p.pages y (p.free y on).0).aligned
          (apart y on) lo hi)
