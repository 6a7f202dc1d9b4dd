-- ===== src/Kernel/Kalloc/Owners.antt =====
-- The pages that the kernel's parts hold while they call xv6/kalloc.c in any order.
use laboratorio_lukitas.Common.{
  ℕ, ◌+◌, ◌≤◌, ◌<◌, ◌≡◌, refl, sym, ◌∙◌, ap, subst, ◌≢◌, inl, inr, Bool, true, false, List, [], ◌∷◌,
  arith, eq_cases, update, Bool-cases,
}
use laboratorio_lukitas.Kernel.Kalloc.{Kmem, freed, panic, pgsize, kfree, kalloc}
use laboratorio_lukitas.Kernel.Kalloc.Pool.{
  IsPage, IsPool, On, Chain, here, stop, link-IsPool, take-IsPool, write-IsPool, kfree-freed,
}

-- A step of the allocator's clients, with who holds each page before and after it.
pub data Step (kernel_end : ℕ) : Kmem → (ℕ → Bool) → Kmem → (ℕ → Bool) → Type 0 where
  frees :
      {k l : Kmem} {held : ℕ → Bool} (x : ℕ)
      → held x ≡ true
      → kfree kernel_end k x ≡ freed l
      → Step kernel_end k held l (update held x false)
  allocates :
      {k : Kmem} {held : ℕ → Bool}
      → (kalloc k).0 ≢ 0
      → Step kernel_end k held (kalloc k).1 (update held (kalloc k).0 true)
  fails : {k : Kmem} {held : ℕ → Bool} → (kalloc k).0 ≡ 0 → Step kernel_end k held (kalloc k).1 held
  writes :
      {k : Kmem} {held : ℕ → Bool} (x a w : ℕ)
      → held x ≡ true
      → x ≤ a
      → a < x + pgsize
      → Step kernel_end k held (record k { mem = update k.mem a w }) held

-- The states that follow one in which the free list is empty and the boot code holds all pages.
pub data Reach (kernel_end : ℕ) (all : ℕ → Bool) : Kmem → (ℕ → Bool) → Type 0 where
  boots : {k : Kmem} → k.freelist ≡ 0 → Reach kernel_end all k all
  next :
      {k l : Kmem} {held taken : ℕ → Bool}
      → Reach kernel_end all k held
      → Step kernel_end k held l taken
      → Reach kernel_end all l taken

-- The pool with some list.
pub data HasPool (kernel_end : ℕ) (all held : ℕ → Bool) (k : Kmem) : Type 0 where
  pool : (xs : List ℕ) → IsPool kernel_end all held k xs → HasPool kernel_end all held k

freed-injective : {k l : Kmem} → freed k ≡ freed l → k ≡ l
freed-injective {k} e = ap (λ r. elim r [ freed m ↦ m | panic ↦ k ]) e

page_positive : {kernel_end x : ℕ} → IsPage kernel_end x → x ≢ 0
page_positive p = omega (arith, p.above, p.kernel)

-- What `kalloc` does when the list is as it should be.
pub data Allocated (kernel_end : ℕ) (all held : ℕ → Bool) (k : Kmem) : ℕ × Kmem → Type 0 where
  none_left : ((y : ℕ) → all y ≡ true → held y ≡ true) → Allocated kernel_end all held k (0, k)
  page_given :
      (x : ℕ) {l : Kmem}
      → IsPage kernel_end x
      → all x ≡ true
      → held x ≡ false
      → HasPool kernel_end all (update held x true) l
      → Allocated kernel_end all held k (x, l)

no_pages : {mem : ℕ → ℕ} {p : ℕ} → Chain mem p [] → p ≡ 0
no_pages stop = refl

nothing-On : {y : ℕ} → ¬ On y []
nothing-On on = elim on [ ]

kalloc-Allocated :
    (kernel_end : ℕ) (all held : ℕ → Bool) (k : Kmem) (xs : List ℕ)
    → IsPool kernel_end all held k xs
    → Allocated kernel_end all held k (kalloc k)
unfolding kalloc
kalloc-Allocated kernel_end all held k [] p = rw empty (
    none_left (λ y mem. elim (Bool-cases (held y)) [
      | inl e ↦ e
      | inr e ↦ absurd (nothing-On (p.kept y mem e))
    ]))
  where
    empty : k.freelist ≡ 0
    empty = no_pages p.chain
kalloc-Allocated kernel_end all held k (x ∷ xs) p =
    let (e, rest) = take-IsPool kernel_end all held k xs x p in
    elim (eq_cases k.freelist 0) [
      | inl (z, t) ↦ absurd (page_positive (p.pages x (p.free x here).0) (sym e ∙ z))
      | inr (_, t) ↦ rw t (
          rw e (
            page_given x (p.pages x (p.free x here).0) (p.free x here).0 (p.free x here).1
              (pool xs rest)))
    ]

Step-HasPool :
    (kernel_end : ℕ) (all : ℕ → Bool) {k l : Kmem} {held taken : ℕ → Bool}
    → HasPool kernel_end all held k
    → Step kernel_end k held l taken
    → HasPool kernel_end all taken l
Step-HasPool kernel_end all (pool xs p) (frees {k} {l} {held} x mine e) =
    let page = p.pages x (p.owned x mine) in
    subst (HasPool kernel_end all (update held x false))
      (freed-injective (sym (kfree-freed kernel_end k x page) ∙ e))
      (pool (x ∷ xs) (link-IsPool kernel_end all held k xs x p mine))
Step-HasPool kernel_end all (pool xs p) (allocates {k} {held} found) =
    given (kalloc k) found (kalloc-Allocated kernel_end all held k xs p)
  where
    given :
        (r : ℕ × Kmem)
        → r.0 ≢ 0
        → Allocated kernel_end all held k r
        → HasPool kernel_end all (update held r.0 true) r.1
    given _ ne (none_left _) = absurd (ne refl)
    given _ ne (page_given x _ _ _ after) = after
Step-HasPool kernel_end all (pool xs p) (fails {k} {held} none) =
    given (kalloc k) none (kalloc-Allocated kernel_end all held k xs p)
  where
    given :
        (r : ℕ × Kmem)
        → r.0 ≡ 0
        → Allocated kernel_end all held k r
        → HasPool kernel_end all held r.1
    given _ e (none_left _) = pool xs p
    given _ e (page_given x page _ _ _) = absurd (page_positive page e)
Step-HasPool kernel_end all (pool xs p) (writes {k} {held} x a w mine lo hi) =
    pool xs (write-IsPool kernel_end all held k xs x a w p mine lo hi)

-- In every reachable state the free list holds exactly the pages that nobody holds, whatever the
-- holders wrote in their pages.
pub Reach-HasPool :
    (kernel_end : ℕ) (all held : ℕ → Bool) (k : Kmem)
    → ((x : ℕ) → all x ≡ true → IsPage kernel_end x)
    → Reach kernel_end all k held
    → HasPool kernel_end all held k
Reach-HasPool kernel_end all _ _ pages (boots {k} e) = pool [] (record {
  pages = pages;
  owned = λ x h. h;
  chain = subst (λ p. Chain k.mem p []) (sym e) stop;
  free = λ x on. absurd (nothing-On on);
  kept = λ x mem out. absurd (cc (sym mem ∙ out));
})
Reach-HasPool kernel_end all _ _ pages (next {k} {l} {held} {taken} r s) =
    Step-HasPool kernel_end all (Reach-HasPool kernel_end all held k pages r) s

-- In every reachable state `kalloc` gives a page that nobody holds, and the pool is in order with
-- the caller as its holder; it fails only when every page is held.
pub kalloc_is_exclusive :
    (kernel_end : ℕ) (all held : ℕ → Bool) (k : Kmem)
    → ((x : ℕ) → all x ≡ true → IsPage kernel_end x)
    → Reach kernel_end all k held
    → Allocated kernel_end all held k (kalloc k)
kalloc_is_exclusive kernel_end all held k pages r =
    given (Reach-HasPool kernel_end all held k pages r)
  where
    given : HasPool kernel_end all held k → Allocated kernel_end all held k (kalloc k)
    given (pool xs p) = kalloc-Allocated kernel_end all held k xs p
