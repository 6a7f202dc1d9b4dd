-- ===== src/Kernel/Kalloc.antt =====
-- xv6/kalloc.c: the allocator of physical pages. `mem` is the memory in words of 32 bits, by the
-- address of the word; the first word of a free page is `struct run`'s `next`. `end`, which the
-- linker places, is the parameter `kernel_end`. A critical section is one operation.
pub mod Pool
pub mod Range
pub mod Owners
mod Tests
use laboratorio_lukitas.Common.{
  ℕ, zero, suc, ◌+◌, ◌-◌, ◌*◌, ◌/◌, ◌%◌, Bool, true, false, not, ◌&&◌, ◌||◌, ltb, leb, ◌==◌,
  if◌then◌else◌, update,
}

abbrev pub pgsize : ℕ
pgsize = 4096

abbrev pub kernbase : ℕ
kernbase = 2147483648

abbrev pub phystop : ℕ
phystop = 234881024

-- The arithmetic of `uint`.
abbrev pub wrap : ℕ → ℕ
wrap a = a % 4294967296

abbrev pub v2p : ℕ → ℕ
v2p a = wrap (a + 4294967296 - kernbase)

abbrev pub pg_round_up : ℕ → ℕ
pg_round_up a = wrap (a + pgsize - 1) / pgsize * pgsize

pub record Kmem : Type 0 where
  pub use_lock : Bool
  pub freelist : ℕ
  pub mem : ℕ → ℕ

pub data Freed : Type 0 where
  freed : Kmem → Freed
  panic : Freed

-- `memset` at a word address and for whole words: every byte of the `n` bytes at `v` is that of `c`.
abbrev pub memset : (ℕ → ℕ) → ℕ → ℕ → ℕ → ℕ → ℕ
memset mem v c n a = if leb v a && ltb a (v + n) then c % 256 * 16843009 else mem a

-- The junk, and then the link to the old head of the list.
abbrev pub link : Kmem → ℕ → Kmem
link k v = record k { mem = update (memset k.mem v 1 pgsize) v k.freelist; freelist = v }

abbrev pub is_bad : ℕ → ℕ → Bool
is_bad kernel_end v = not (v % pgsize == 0) || ltb v kernel_end || leb phystop (v2p v)

unfoldable pub kfree : ℕ → Kmem → ℕ → Freed
kfree kernel_end k v = if is_bad kernel_end v then panic else freed (link k v)

-- The page, 0 if there is none, and the state after it.
unfoldable pub kalloc : Kmem → ℕ × Kmem
kalloc k =
    if k.freelist == 0 then (0, k) else (k.freelist, record k { freelist = k.mem k.freelist })

-- The loop of `freerange` from the page `p`, for at most the rounds given.
unfoldable pub free_pages : ℕ → ℕ → ℕ → ℕ → Kmem → Freed
free_pages kernel_end zero p vend k = freed k
free_pages kernel_end (suc rounds) p vend k = elim (leb (wrap (p + pgsize)) vend) [
  | false ↦ freed k
  | true ↦ elim (kfree kernel_end k p) [
    | panic ↦ panic
    | freed k' ↦ free_pages kernel_end rounds (wrap (p + pgsize)) vend k'
  ]
]

-- A round for each page below `vend`.
unfoldable pub freerange : ℕ → ℕ → ℕ → Kmem → Freed
freerange kernel_end vstart vend k =
    free_pages kernel_end (vend / pgsize + 1) (pg_round_up vstart) vend k

unfoldable pub kinit1 : ℕ → ℕ → ℕ → Kmem → Freed
kinit1 kernel_end vstart vend k = freerange kernel_end vstart vend (record k { use_lock = false })

unfoldable pub kinit2 : ℕ → ℕ → ℕ → Kmem → Freed
kinit2 kernel_end vstart vend k = elim (freerange kernel_end vstart vend k) [
  | panic ↦ panic
  | freed k' ↦ freed (record k' { use_lock = true })
]
