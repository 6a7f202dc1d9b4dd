-- ===== src/Kernel/Kalloc/Tests.antt =====
-- Tests of the model of xv6/kalloc.c, and its theorems at concrete states.
use laboratorio_lukitas.Common.{ℕ, ◌≡◌, refl, sym, ◌∙◌, Bool, true, false, [], arith, update}
use laboratorio_lukitas.Kernel.Kalloc.{
  Kmem, freed, panic, kfree, kalloc, link, free_pages, freerange, kinit1, kinit2,
}
use laboratorio_lukitas.Kernel.Kalloc.Pool.{IsPage, IsPool, stop}
use laboratorio_lukitas.Kernel.Kalloc.Range.{within, released, RangeFreed, freerange_lem}
use laboratorio_lukitas.Kernel.Kalloc.Owners.{
  Reach, boots, next, frees, writes, HasPool, Allocated, Reach-HasPool, kalloc_is_exclusive,
}

abbrev kernel_end : ℕ
kernel_end = 2148618240

-- Two pages above the kernel.
abbrev two_pages : ℕ → Bool
two_pages = within 2151677952 2151686144

abbrev at_boot : Kmem
at_boot = record { use_lock = false; freelist = 0; mem = λ a. 0 }

two_pages-IsPage : (x : ℕ) → two_pages x ≡ true → IsPage kernel_end x
two_pages-IsPage x h = record {
  aligned = ground arith;
  above = ground arith;
  below = ground arith;
  kernel = omega arith;
}

at_boot-IsPool : IsPool kernel_end two_pages two_pages at_boot []
at_boot-IsPool = record {
  pages = two_pages-IsPage;
  owned = λ x h. h;
  chain = stop;
  free = λ x on. elim on [ ];
  kept = λ x mem out. absurd (cc (sym mem ∙ out));
}

freerange_lem_example :
    RangeFreed kernel_end two_pages
      (released two_pages 2151677952 2151686144)
      (freerange kernel_end 2151677952 2151686144 at_boot)
freerange_lem_example =
    freerange_lem kernel_end two_pages two_pages at_boot [] 2151677952 2151686144 at_boot-IsPool
      (omega arith) (omega arith) (λ y h. h)

-- The last page freed is the first one given out.
kalloc_after_init :
    elim (kinit2 kernel_end 2151677952 2151686144 at_boot) [ freed k ↦ (kalloc k).0 | panic ↦ 0 ]
    ≡ 2151682048
unfolding kinit2 freerange free_pages kfree kalloc
kalloc_after_init = refl

kinit1_without_lock :
    elim (kinit1 kernel_end 2151677952 2151686144 at_boot) [ freed k ↦ k.use_lock | panic ↦ true ]
    ≡ false
unfolding kinit1 freerange free_pages kfree
kinit1_without_lock = refl

kfree_unaligned : kfree kernel_end at_boot 2151677953 ≡ panic
unfolding kfree
kfree_unaligned = refl

-- The boot code has written in the first page and then freed it.
one_freed-Reach :
    Reach kernel_end two_pages
      (link (record at_boot { mem = update at_boot.mem 2151677956 7 }) 2151677952)
      (update two_pages 2151677952 false)
unfolding kfree
one_freed-Reach =
    next
      (next (boots {k = at_boot} refl)
        (writes 2151677952 2151677956 7 refl (omega arith) (omega arith)))
      (frees 2151677952 refl refl)

Reach-HasPool_example :
    HasPool kernel_end two_pages
      (update two_pages 2151677952 false)
      (link (record at_boot { mem = update at_boot.mem 2151677956 7 }) 2151677952)
Reach-HasPool_example =
    Reach-HasPool kernel_end two_pages (update two_pages 2151677952 false)
      (link (record at_boot { mem = update at_boot.mem 2151677956 7 }) 2151677952) two_pages-IsPage
      one_freed-Reach

kalloc_is_exclusive_example :
    Allocated kernel_end two_pages
      (update two_pages 2151677952 false)
      (link (record at_boot { mem = update at_boot.mem 2151677956 7 }) 2151677952)
      (kalloc (link (record at_boot { mem = update at_boot.mem 2151677956 7 }) 2151677952))
kalloc_is_exclusive_example =
    kalloc_is_exclusive kernel_end two_pages (update two_pages 2151677952 false)
      (link (record at_boot { mem = update at_boot.mem 2151677956 7 }) 2151677952) two_pages-IsPage
      one_freed-Reach
