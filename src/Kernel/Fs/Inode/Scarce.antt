-- ===== src/Kernel/Fs/Inode/Scarce.antt =====
-- Too few free blocks of xv6/fs.c for the holes of a file.
use laboratorio_lukitas.Common.{
  ℕ, ◌/◌, ◌≤◌, ◌<◌, ◌≡◌, refl, sym, ◌∙◌, ap, subst, ◌≢◌, ◌⊎◌, inl, inr, false, none, arith,
  eq_cases, Bool-cases,
}
use laboratorio_lukitas.Kernel.Fs.Disk.{Fs, SuperBlock}
use laboratorio_lukitas.Kernel.Fs.Disk.Bitmap.{used}
use laboratorio_lukitas.Kernel.Fs.Inode.{Inode, Mapped}
use laboratorio_lukitas.Kernel.Fs.Inode.Slots.{slot, IsFile, free_nonzero}
use laboratorio_lukitas.Kernel.Fs.Inode.Map.{Has}
use laboratorio_lukitas.Kernel.Fs.Inode.Find.{Finds, no_space}

-- Each free block can be given to a hole of its own, other than the one at the offset `o`: to the
-- indirect block if the file has none, or to a hole in the range from the offset `off` to `o`.
pub record Scarce (f : Fs) (ip : Inode) (off o : ℕ) : Type 0 where
  pub block_of : ℕ → ℕ
  pub kept : (t : ℕ) → t ≤ 140 → slot f ip t ≢ 0 → block_of t ≡ slot f ip t
  pub given :
      (c : ℕ)
      → c < f.sb.size
      → used f c ≡ false
      → (t : ℕ) × ((t ≡ 140) ⊎ ((off / 512 ≤ t) × (t < o / 512)))
        × (slot f ip t ≡ 0)
        × (block_of t ≡ c)

-- `bmap` at the offset `off` has panicked.
pub no_space-Scarce :
    (f : Fs) (ip : Inode) (off : ℕ)
    → off / 512 < 140
    → Finds f ip (off / 512) none
    → Scarce f ip off off
no_space-Scarce f ip off l (no_space {g} empty all (inl e)) = record {
  block_of = slot f ip;
  kept = λ t le full. refl;
  given = λ c lc free. absurd (
      cc (
        sym free
        ∙ ap (λ h. used h c) (sym e)
        ∙ all c (subst (λ (h : Fs). c < h.sb.size) (sym e) lc)));
}
no_space-Scarce f ip off l (no_space {g} empty all (inr (m, x, e))) = record {
  block_of = slot m.fs m.inode;
  kept = x.slots_kept;
  given = λ c lc free.
      let low : c < g.sb.size =
        subst (λ (h : Fs). c < h.sb.size) (sym e)
          (subst (λ (b : SuperBlock). c < b.size) (sym x.same_sb) lc) in
      let (t, w, z, k) = x.taken_for c lc free (ap (λ h. used h c) (sym e) ∙ all c low) in
      (t, inl (elim w [ inl q ↦ q | inr q ↦ q ]), z, k);
}

-- `bmap` has found a block at `off`, and the rest of the range from `next` on is scarce in a disk `h` with
-- the same bitmap and the same blocks of the file.
pub step-Scarce :
    (f h : Fs) (ip : Inode) (off next o : ℕ) (m : Mapped)
    → IsFile f ip
    → Has f ip (off / 512) m
    → ((t : ℕ) → t ≤ 140 → slot h m.inode t ≡ slot m.fs m.inode t)
    → ((c : ℕ) → c < m.fs.sb.size → used h c ≡ used m.fs c)
    → h.sb ≡ m.fs.sb
    → off / 512 < o / 512
    → o / 512 < 140
    → off ≤ next
    → Scarce h m.inode next o
    → Scarce f ip off o
step-Scarce f h ip off next o m file x slots marks sb before low later y = record {
  block_of = y.block_of;
  kept = λ t le full. let e = both t le full in y.kept t le (λ z. full (sym e ∙ z)) ∙ e;
  given = λ c lc free. elim (Bool-cases (used m.fs c)) [
    | inl u ↦
        let (t, w, z, e) = x.taken_for c lc free u in
        let le : t ≤ 140 = elim w [ inl k ↦ omega arith | inr k ↦ omega arith ] in
        let at : slot h m.inode t ≡ c = slots t le ∙ e in
        (
          t,
          elim w [ inl k ↦ inr (omega arith, omega arith) | inr k ↦ inl k ],
          z,
          y.kept t le (λ q. free_nonzero f c file.laid_out free (sym at ∙ q)) ∙ at,
        )
    | inr u ↦
        let lm : c < m.fs.sb.size = subst (λ (b : SuperBlock). c < b.size) (sym x.same_sb) lc in
        let (t, w, z, e) =
          y.given c (subst (λ (b : SuperBlock). c < b.size) (sym sb) lm) (marks c lm ∙ u) in
        let le : t ≤ 140 = elim w [ inl k ↦ omega arith | inr k ↦ omega (arith, k.1) ] in
        (
          t,
          elim w [ inl k ↦ inl k | inr k ↦ inr (omega (arith, k.0), k.1) ],
          empty_before t le z,
          e,
        )
  ];
}
  where
    both : (t : ℕ) → t ≤ 140 → slot f ip t ≢ 0 → slot h m.inode t ≡ slot f ip t
    both t le full = slots t le ∙ x.slots_kept t le full

    empty_before : (t : ℕ) → t ≤ 140 → slot h m.inode t ≡ 0 → slot f ip t ≡ 0
    empty_before t le z = elim (eq_cases (slot f ip t) 0) [
      | inl (e, _) ↦ e
      | inr (ne, _) ↦ absurd (ne (sym (both t le ne) ∙ z))
    ]
