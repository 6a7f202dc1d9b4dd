-- ===== src/Kernel/Fs/Inode/Reading.antt =====
-- The loop of `readi` in xv6/fs.c.
use laboratorio_lukitas.Common.{
  ℕ, zero, suc, ◌+◌, ◌-◌, ◌/◌, ◌%◌, ◌≤◌, ◌<◌, ◌≡◌, refl, sym, ◌∙◌, ap, ◌≢◌, ◌⊎◌, inl, inr, Option,
  none, some, arith, eq_cases, lt_cases,
}
use laboratorio_lukitas.Kernel.Fs.Disk.{Bytes, Fs}
use laboratorio_lukitas.Kernel.Fs.Inode.{
  Inode, Mapped, Memory, chunk, bmap, copy_bytes, read_blocks,
}
use laboratorio_lukitas.Kernel.Fs.Inode.Slots.{slot, IsFile}
use laboratorio_lukitas.Kernel.Fs.Inode.Map.{Has}
use laboratorio_lukitas.Kernel.Fs.Inode.Find.{Finds, no_space, finds, bmap_lem}
use laboratorio_lukitas.Kernel.Fs.Inode.Scarce.{Scarce, no_space-Scarce, step-Scarce}
use laboratorio_lukitas.Kernel.Fs.Inode.Content.{content, content_at, Has-content, chunk_lem}

-- The bytes of the file from `off` on stand at `dst`; the file and the rest of the memory are as before.
pub record Copied (f : Fs) (ip : Inode) (dst off left : ℕ) (mem : Memory) (mem' : Memory)
    (ip' : Inode) (f' : Fs) : Type 0 where
  pub file : IsFile f' ip'
  pub bytes : (i : ℕ) → i < left → mem' (dst + i) ≡ content f ip (off + i)
  pub rest : (a : ℕ) → (a < dst) ⊎ (dst + left ≤ a) → mem' a ≡ mem a
  pub same : (o : ℕ) → o < 71680 → content f' ip' o ≡ content f ip o
  pub fields : ip' ≡ record ip { addrs = ip'.addrs }
  pub same_sb : f'.sb ≡ f.sb

pub data ReadLoop (f : Fs) (ip : Inode) (dst off left : ℕ) (mem : Memory)
    : Option (Memory × Inode × Fs) → Type 0 where
  read_stuck :
      (o : ℕ)
      → off ≤ o
      → o < off + left
      → slot f ip (o / 512) ≡ 0
      → Scarce f ip off o
      → ReadLoop f ip dst off left mem none
  read_all :
      {mem' : Memory} {ip' : Inode} {f' : Fs}
      → Copied f ip dst off left mem mem' ip' f'
      → ReadLoop f ip dst off left mem (some (mem', ip', f'))

pub copied_in :
    (mem : Memory) (dst : ℕ) (d : Bytes) (o n i : ℕ)
    → i < n
    → copy_bytes mem dst d o n (dst + i) ≡ d (o + i)
copied_in mem dst d o n i l = elim (lt_cases (dst + i) dst) [
  | inl (k, _) ↦ absurd (omega arith)
  | inr (k, _) ↦ let back : dst + i - dst ≡ i = omega arith in inside ∙ ap (λ j. d (o + j)) back
]
  where
    inside : copy_bytes mem dst d o n (dst + i) ≡ d (o + (dst + i - dst))
    inside = ground arith

pub copied_out :
    (mem : Memory) (dst : ℕ) (d : Bytes) (o n a : ℕ)
    → (a < dst) ⊎ (dst + n ≤ a)
    → copy_bytes mem dst d o n a ≡ mem a
copied_out mem dst d o n a out = ground arith

nothing-Copied :
    (f : Fs) (ip : Inode) (dst off left : ℕ) (mem : Memory)
    → IsFile f ip
    → left ≡ 0
    → Copied f ip dst off left mem mem ip f
nothing-Copied f ip dst off left mem x e = record {
  file = x;
  bytes = λ i l. absurd (omega arith);
  rest = λ a out. refl;
  same = λ o l. refl;
  fields = refl;
  same_sb = refl;
}

-- The bytes of one block.
pub chunk-content :
    (f : Fs) (ip : Inode) (off n i : ℕ) (m : Mapped)
    → Has f ip (off / 512) m
    → off % 512 + n ≤ 512
    → i < n
    → content m.fs m.inode (off + i) ≡ m.fs.block m.addr (off % 512 + i)
chunk-content f ip off n i m x fits l =
    content_at m.fs m.inode (off + i) m.addr (ap (slot m.fs m.inode) same_slot ∙ x.here) x.there_is
    ∙ ap (m.fs.block m.addr) same_place
  where
    same_slot : (off + i) / 512 ≡ off / 512
    same_slot = omega arith

    same_place : (off + i) % 512 ≡ off % 512 + i
    same_place = omega arith

step-Copied :
    (f : Fs) (ip : Inode) (dst off left n : ℕ) (mem : Memory) (m : Mapped) (mem' : Memory)
    (ip' : Inode) (f' : Fs)
    → off + left ≤ 71680
    → left ≢ 0
    → n ≤ left
    → off % 512 + n ≤ 512
    → Has f ip (off / 512) m
    → Copied m.fs m.inode
        (dst + n)
        (off + n)
        (left - n)
        (copy_bytes mem dst (m.fs.block m.addr) (off % 512) n)
        mem'
        ip'
        f'
    → Copied f ip dst off left mem mem' ip' f'
step-Copied f ip dst off left n mem m mem' ip' f' room some_left few fits x y = record {
  file = y.file;
  bytes = λ i l. elim (lt_cases i n) [
    | inl (k, _) ↦
        y.rest (dst + i) (inl (omega arith))
        ∙ copied_in mem dst (m.fs.block m.addr) (off % 512) n i k
        ∙ sym (chunk-content f ip off n i m x fits k)
        ∙ Has-content f ip (off / 512) (off + i) m x (omega arith)
    | inr (k, _) ↦
        ap mem' (there i k)
        ∙ y.bytes (i - n) (omega arith)
        ∙ Has-content f ip (off / 512) (off + n + (i - n)) m x (omega arith)
        ∙ ap (content f ip) (sym (from i k))
  ];
  rest = λ a out.
      y.rest a (elim out [ inl l ↦ inl (omega arith) | inr l ↦ inr (omega arith) ])
      ∙ copied_out mem dst (m.fs.block m.addr) (off % 512) n a
          (elim out [ inl l ↦ inl l | inr l ↦ inr (omega arith) ]);
  same = λ o l. y.same o l ∙ Has-content f ip (off / 512) o m x (omega arith);
  fields = y.fields ∙ ap (λ (k : Inode). record k { addrs = ip'.addrs }) x.same_inode;
  same_sb = y.same_sb ∙ x.same_sb;
}
  where
    there : (i : ℕ) → n ≤ i → dst + i ≡ dst + n + (i - n)
    there i k = omega arith

    from : (i : ℕ) → n ≤ i → off + i ≡ off + n + (i - n)
    from i k = omega arith

pub read_blocks_lem :
    (rounds : ℕ) (f : Fs) (ip : Inode) (dst off left : ℕ) (mem : Memory)
    → IsFile f ip
    → left ≤ rounds
    → off + left ≤ 71680
    → ReadLoop f ip dst off left mem (read_blocks rounds f ip dst off left mem)
unfolding read_blocks
read_blocks_lem zero f ip dst off left mem x enough room =
    read_all (nothing-Copied f ip dst off left mem x (omega arith))
read_blocks_lem (suc rounds) f ip dst off left mem x enough room = elim (eq_cases left 0) [
  | inl (z, t) ↦ rw (t, read_blocks) (read_all (nothing-Copied f ip dst off left mem x z))
  | inr (ne, t) ↦
      rw (t, read_blocks)
        (found ne (bmap f ip (off / 512)) (bmap_lem f ip (off / 512) x (omega arith)) (λ m y.
          let (one, few, fits) = chunk_lem left off ne in
          read_blocks_lem rounds m.fs m.inode (dst + chunk left off) (off + chunk left off)
            (left - chunk left off)
            (copy_bytes mem dst (m.fs.block m.addr) (off % 512) (chunk left off)) y (omega arith)
            (omega arith)))
]
  where
    after : Mapped → Option (Memory × Inode × Fs)
    after m =
        read_blocks rounds m.fs m.inode (dst + chunk left off) (off + chunk left off)
          (left - chunk left off)
          (copy_bytes mem dst (m.fs.block m.addr) (off % 512) (chunk left off))

    found :
        left ≢ 0
        → (o : Option Mapped) → Finds f ip (off / 512) o
        → ((m : Mapped)
            → IsFile m.fs m.inode
            → ReadLoop m.fs m.inode
                (dst + chunk left off)
                (off + chunk left off)
                (left - chunk left off)
                (copy_bytes mem dst (m.fs.block m.addr) (off % 512) (chunk left off))
                (after m))
        → ReadLoop f ip dst off left mem
            (elim o as (λ _. Option (Memory × Inode × Fs)) [ none ↦ none | some m ↦ after m ])
    found ne _ (no_space empty all why) rest =
        read_stuck off (omega arith) (omega arith) empty
          (no_space-Scarce f ip off (omega arith) (no_space empty all why))
    found ne _ (finds {m} got) rest = ends m got (after m) (rest m got.file)
      where
        ends :
            (m : Mapped)
            → Has f ip (off / 512) m
            → (o : Option (Memory × Inode × Fs))
            → ReadLoop m.fs m.inode
                (dst + chunk left off)
                (off + chunk left off)
                (left - chunk left off)
                (copy_bytes mem dst (m.fs.block m.addr) (off % 512) (chunk left off))
                o
            → ReadLoop f ip dst off left mem o
        ends m found_one _ (read_stuck o lo hi empty scarce) =
            let (one, few, fits) = chunk_lem left off ne in
            let apart : off / 512 ≢ o / 512 =
              λ e. found_one.there_is (sym found_one.here ∙ ap (slot m.fs m.inode) e ∙ empty) in
            let later : off / 512 < o / 512 = omega (arith, apart, lo, one) in
            read_stuck o (omega arith) (omega arith)
              (sym (found_one.others (o / 512) (omega arith) apart) ∙ empty)
              (step-Scarce f m.fs ip off (off + chunk left off) o m x found_one (λ t l. refl)
                (λ c l. refl) refl later (omega arith) (omega arith) scarce)
        ends m x _ (read_all {mem'} {ip'} {f'} y) =
            let (one, few, fits) = chunk_lem left off ne in
            read_all (
              step-Copied f ip dst off left (chunk left off) mem m mem' ip' f' room ne few fits x y)
