-- ===== src/Kernel/Fs/Inode/Content.antt =====
-- The content of a file as a function from offsets to bytes.
use laboratorio_lukitas.Common.{
  ℕ, ◌+◌, ◌-◌, ◌/◌, ◌%◌, ◌≤◌, ◌<◌, ◌≡◌, refl, sym, ◌∙◌, ap, subst, ◌≢◌, inl, inr, arith, ◌==◌,
  if◌then◌else◌, eq_cases, update_ne,
}
use laboratorio_lukitas.Kernel.Fs.Disk.{Bytes, Fs, bblock, with_block, get_word}
use laboratorio_lukitas.Kernel.Fs.Disk.Bitmap.{used, used-with_block}
use laboratorio_lukitas.Kernel.Fs.Inode.{Inode, Mapped, chunk}
use laboratorio_lukitas.Kernel.Fs.Inode.Slots.{
  in_index, slot, Owned, IsFile, IsLaidOut-grow, slot_cases,
}
use laboratorio_lukitas.Kernel.Fs.Inode.Map.{Has}

-- A slot without a block reads as zeros.
unfoldable pub content : Fs → Inode → ℕ → ℕ
content f ip off =
    if slot f ip (off / 512) == 0 then 0 else f.block (slot f ip (off / 512)) (off % 512)

pub content_at :
    (f : Fs) (ip : Inode) (off a : ℕ)
    → slot f ip (off / 512) ≡ a
    → a ≢ 0
    → content f ip off ≡ f.block a (off % 512)
unfolding content
content_at f ip off a e ne = elim (eq_cases (slot f ip (off / 512)) 0) [
  | inl (z, _) ↦ absurd (ne (sym e ∙ z))
  | inr (_, t) ↦ rw t (ap (λ b. f.block b (off % 512)) e)
]

content_none : (f : Fs) (ip : Inode) (off : ℕ) → slot f ip (off / 512) ≡ 0 → content f ip off ≡ 0
unfolding content
content_none f ip off e = rw e refl

-- `bmap` changes no content.
pub Has-content :
    (f : Fs) (ip : Inode) (s off : ℕ) (m : Mapped)
    → Has f ip s m
    → off / 512 < 140
    → content m.fs m.inode off ≡ content f ip off
Has-content f ip s off m x l = elim (eq_cases (slot f ip (off / 512)) 0) [
  | inl (z, _) ↦ elim (eq_cases s (off / 512)) [
    | inl (e, _) ↦
        content_at m.fs m.inode off m.addr (ap (slot m.fs m.inode) (sym e) ∙ x.here) x.there_is
        ∙ x.zeroed (ap (slot f ip) e ∙ z) (off % 512)
        ∙ sym (content_none f ip off z)
    | inr (ne, _) ↦
        content_none m.fs m.inode off (x.others (off / 512) l ne ∙ z)
        ∙ sym (content_none f ip off z)
  ]
  | inr (full, _) ↦
      content_at m.fs m.inode off (slot f ip (off / 512)) (same full) full
      ∙ ap (λ d. d (off % 512)) (x.blocks (off / 512) l full)
      ∙ sym (content_at f ip off (slot f ip (off / 512)) refl full)
]
  where
    same : slot f ip (off / 512) ≢ 0 → slot m.fs m.inode (off / 512) ≡ slot f ip (off / 512)
    same full = elim (eq_cases s (off / 512)) [
      | inl (e, _) ↦
          ap (slot m.fs m.inode) (sym e)
          ∙ x.here
          ∙ x.kept (λ z. full (ap (slot f ip) (sym e) ∙ z))
          ∙ ap (slot f ip) e
      | inr (ne, _) ↦ x.others (off / 512) l ne
    ]

-- A block outside the bitmap and the indirect block is written.
module _ (f : Fs) (ip : Inode) (a : ℕ) (d : Bytes) (x : IsFile f ip)
    (off_map : (c : ℕ) → c < f.sb.size → bblock c f.sb ≢ a)
    (not_index : ip.addrs 12 ≢ 0 → a ≢ ip.addrs 12) where
  used_kept : (c : ℕ) → c < f.sb.size → used (with_block f a d) c ≡ used f c
  used_kept c l = used-with_block f a d c (λ e. off_map c l (sym e))

  pub slot_kept : (t : ℕ) → t ≤ 140 → slot (with_block f a d) ip t ≡ slot f ip t
  slot_kept t l =
      slot_cases f (with_block f a d) ip ip t l (λ _. refl) (λ lo hi. index (t - 12)) (λ _. refl)
    where
      index : (i : ℕ) → in_index (with_block f a d) (ip.addrs 12) i ≡ in_index f (ip.addrs 12) i
      index i = elim (eq_cases (ip.addrs 12) 0) [
        | inl (_, t) ↦ rw t refl
        | inr (ne, t) ↦
            rw t (ap (λ k. get_word k i) (update_ne f.block a d (ip.addrs 12) (not_index ne)))
      ]

  pub write-IsFile : IsFile (with_block f a d) ip
  write-IsFile = record {
    laid_out = IsLaidOut-grow f (with_block f a d) refl (λ c l e. used_kept c l ∙ e) x.laid_out;
    owned = λ s l ne.
        let o = x.owned s l (λ z. ne (slot_kept s l ∙ z)) in
        subst (Owned (with_block f a d)) (sym (slot_kept s l)) (record {
          in_range = o.in_range;
          in_use = used_kept (slot f ip s) o.in_range ∙ o.in_use;
          off = o.off;
        });
    distinct = λ s t ls lt ne e.
        x.distinct s t ls lt (λ z. ne (slot_kept s ls ∙ z))
          (sym (slot_kept s ls) ∙ e ∙ slot_kept t lt);
  }

  -- The content elsewhere.
  pub content_kept :
      (off : ℕ)
      → off / 512 ≤ 140
      → (slot f ip (off / 512) ≢ 0 → a ≢ slot f ip (off / 512))
      → content (with_block f a d) ip off ≡ content f ip off
  content_kept off l ne = elim (eq_cases (slot f ip (off / 512)) 0) [
    | inl (z, _) ↦
        content_none (with_block f a d) ip off (slot_kept (off / 512) l ∙ z)
        ∙ sym (content_none f ip off z)
    | inr (full, _) ↦
        content_at (with_block f a d) ip off (slot f ip (off / 512)) (slot_kept (off / 512) l) full
        ∙ ap (λ k. k (off % 512)) (update_ne f.block a d (slot f ip (off / 512)) (ne full))
        ∙ sym (content_at f ip off (slot f ip (off / 512)) refl full)
  ]

pub chunk_lem :
    (left off : ℕ)
    → left ≢ 0
    → (1 ≤ chunk left off) × (chunk left off ≤ left) × (off % 512 + chunk left off ≤ 512)
unfolding chunk
chunk_lem left off ne = ground arith
