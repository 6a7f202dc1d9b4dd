-- ===== src/Kernel/Fs/Inode/Map.antt =====
-- `bmap` of xv6/fs.c on the slots of an inode.
use laboratorio_lukitas.Common.{
  ℕ, ◌-◌, ◌≤◌, ◌<◌, ◌≡◌, refl, sym, ◌∙◌, ap, subst, ◌≢◌, ◌⊎◌, inl, inr, true, false, arith,
  eq_cases, update, update_self, update_ne,
}
use laboratorio_lukitas.Kernel.Fs.Disk.{Fs, get_word}
use laboratorio_lukitas.Kernel.Fs.Disk.Bitmap.{used}
use laboratorio_lukitas.Kernel.Fs.Disk.Alloc.{Taken}
use laboratorio_lukitas.Kernel.Fs.Disk.Words.{get_word-zero}
use laboratorio_lukitas.Kernel.Fs.Inode.{Inode, Mapped, with_addr}
use laboratorio_lukitas.Kernel.Fs.Inode.Slots.{
  in_index, slot, IsFile, free_nonzero, fill-IsFile, Taken-more, slot_direct, slot_index,
  slot_cases,
}

-- The slot `s` now has the block `m.addr`. It is the one that it had, or a zeroed block that was free
-- in the bitmap; a block that was in use still is;
-- the other slots, the contents of their blocks and the other fields of the inode are as before.
pub record Has (f : Fs) (ip : Inode) (s : ℕ) (m : Mapped) : Type 0 where
  pub file : IsFile m.fs m.inode
  pub here : slot m.fs m.inode s ≡ m.addr
  pub there_is : m.addr ≢ 0
  pub kept : slot f ip s ≢ 0 → m.addr ≡ slot f ip s
  pub fresh : slot f ip s ≡ 0 → (m.addr < f.sb.size) × (used f m.addr ≡ false)
  pub used_more : (c : ℕ) → c < f.sb.size → used f c ≡ true → used m.fs c ≡ true
  pub taken_for :
      (c : ℕ)
      → c < f.sb.size
      → used f c ≡ false
      → used m.fs c ≡ true
      → (t : ℕ) × ((t ≡ s) ⊎ (t ≡ 140)) × (slot f ip t ≡ 0) × (slot m.fs m.inode t ≡ c)
  pub slots_kept : (t : ℕ) → t ≤ 140 → slot f ip t ≢ 0 → slot m.fs m.inode t ≡ slot f ip t
  pub zeroed : slot f ip s ≡ 0 → (o : ℕ) → m.fs.block m.addr o ≡ 0
  pub others : (t : ℕ) → t < 140 → s ≢ t → slot m.fs m.inode t ≡ slot f ip t
  pub blocks :
      (t : ℕ) → t < 140 → slot f ip t ≢ 0 → m.fs.block (slot f ip t) ≡ f.block (slot f ip t)
  pub same_sb : m.fs.sb ≡ f.sb
  pub same_inode : m.inode ≡ record ip { addrs = m.inode.addrs }

-- A slot that already has a block.
pub stays-Has :
    (f : Fs) (ip : Inode) (s a : ℕ)
    → IsFile f ip
    → slot f ip s ≡ a
    → a ≢ 0
    → Has f ip s (record { addr = a; inode = ip; fs = f })
stays-Has f ip s a x e ne = record {
  file = x;
  here = e;
  there_is = ne;
  kept = λ _. sym e;
  fresh = λ z. absurd (ne (sym e ∙ z));
  used_more = λ c l u. u;
  taken_for = λ c l free now. absurd (cc (sym free ∙ now));
  slots_kept = λ t l full. refl;
  zeroed = λ z o. absurd (ne (sym e ∙ z));
  others = λ t l other. refl;
  blocks = λ t l k. refl;
  same_sb = refl;
  same_inode = refl;
}

-- The indirect block when another block has been taken.
module _ (f g : Fs) (ip : Inode) (b : ℕ) (x : IsFile f ip) (taken : Taken f g b) where
  pub slot_apart : (t : ℕ) → t ≤ 140 → slot f ip t ≢ 0 → b ≢ slot f ip t
  slot_apart t l ne e = cc (sym taken.was_free ∙ ap (used f) e ∙ (x.owned t l ne).in_use)

  pub slot_same :
      (t : ℕ) → t ≤ 140 → slot f ip t ≢ 0 → g.block (slot f ip t) ≡ f.block (slot f ip t)
  slot_same t l ne = taken.blocks (slot f ip t) (x.owned t l ne).off.off_map (slot_apart t l ne)

  pub index_same : ip.addrs 12 ≢ 0 → g.block (ip.addrs 12) ≡ f.block (ip.addrs 12)
  index_same ne =
      subst (λ a. g.block a ≡ f.block a) (slot_index f ip)
        (slot_same 140 (omega arith) (λ z. ne (sym (slot_index f ip) ∙ z)))

  pub in_index_same : (k : ℕ) → in_index g (ip.addrs 12) k ≡ in_index f (ip.addrs 12) k
  in_index_same k = elim (eq_cases (ip.addrs 12) 0) [
    | inl (_, t) ↦ rw t refl
    | inr (ne, t) ↦ rw t (ap (λ d. get_word d k) (index_same ne))
  ]

-- What is common to the three ways to fill a slot.
pub filled-Has :
    (f g : Fs) (ip ip' : Inode) (b s : ℕ)
    → IsFile f ip
    → s ≤ 140
    → slot f ip s ≡ 0
    → b < f.sb.size
    → used f b ≡ false
    → g.sb ≡ f.sb
    → used g b ≡ true
    → ((c : ℕ) → c < f.sb.size → used f c ≡ true → used g c ≡ true)
    → ((c : ℕ) → c < f.sb.size → b ≢ c → used g c ≡ used f c)
    → slot g ip' s ≡ b
    → ((t : ℕ) → t ≤ 140 → s ≢ t → slot g ip' t ≡ slot f ip t)
    → ((o : ℕ) → g.block b o ≡ 0)
    → ((t : ℕ) → t < 140 → slot f ip t ≢ 0 → g.block (slot f ip t) ≡ f.block (slot f ip t))
    → ip' ≡ record ip { addrs = ip'.addrs }
    → Has f ip s (record { addr = b; inode = ip'; fs = g })
filled-Has f g ip ip' b s x ls empty lb free sb taken more only here others zeros blocks same =
    record {
      file = fill-IsFile f g ip ip' b s x ls lb free sb taken more here others;
      here = here;
      there_is = free_nonzero f b x.laid_out free;
      kept = λ ne. absurd (ne empty);
      fresh = λ _. (lb, free);
      used_more = more;
      taken_for = λ c l unused now. elim (eq_cases b c) [
        | inl (e, _) ↦ (s, inl refl, empty, here ∙ e)
        | inr (ne, _) ↦ absurd (cc (sym now ∙ only c l ne ∙ unused))
      ];
      slots_kept = λ t l full. elim (eq_cases s t) [
        | inl (e, _) ↦ absurd (full (ap (slot f ip) (sym e) ∙ empty))
        | inr (ne, _) ↦ others t l ne
      ];
      zeroed = λ _ o. zeros o;
      others = λ t l ne. others t (omega arith) ne;
      blocks = blocks;
      same_sb = sb;
      same_inode = same;
    }

-- A slot of `addrs` is filled: one of the content, or that of the indirect block.
pub addr-Has :
    (f g : Fs) (ip : Inode) (b i s : ℕ)
    → IsFile f ip
    → Taken f g b
    → ((i < 12) × (s ≡ i)) ⊎ ((i ≡ 12) × (s ≡ 140))
    → ip.addrs i ≡ 0
    → Has f ip s (record { addr = b; inode = with_addr ip i b; fs = g })
addr-Has f g ip b i s x taken (inl (li, e)) empty =
    filled-Has f g ip (with_addr ip i b) b s x (omega arith)
      (slot_direct f ip s (omega arith) ∙ ap ip.addrs e ∙ empty) taken.in_range taken.was_free
      taken.same_sb taken.now_used (Taken-more f g b taken) taken.others
      (slot_direct g (with_addr ip i b) s (omega arith)
        ∙ ap (update ip.addrs i b) e
        ∙ update_self ip.addrs i b)
      (λ t l ne.
        slot_cases f g ip (with_addr ip i b) t l (λ _. update_ne ip.addrs i b t (λ z. ne (e ∙ z)))
          (λ lo hi.
            ap (λ a. in_index g a (t - 12)) (update_ne ip.addrs i b 12 (omega arith))
            ∙ in_index_same f g ip b x taken (t - 12))
          (λ _. update_ne ip.addrs i b 12 (omega arith)))
      taken.zeroed (λ t l. slot_same f g ip b x taken t (omega arith)) refl
addr-Has f g ip b i s x taken (inr (ei, e)) empty =
    filled-Has f g ip (with_addr ip i b) b s x (omega arith) was_empty taken.in_range taken.was_free
      taken.same_sb taken.now_used (Taken-more f g b taken) taken.others
      (ap (slot g (with_addr ip i b)) e ∙ slot_index g (with_addr ip i b) ∙ now)
      (λ t l ne.
        slot_cases f g ip (with_addr ip i b) t l (λ k. update_ne ip.addrs i b t (omega arith))
          (λ lo hi.
            ap (λ a. in_index g a (t - 12)) now ∙ zero_index (t - 12) ∙ sym (none_before (t - 12)))
          (λ z. absurd (ne (e ∙ sym z))))
      taken.zeroed (λ t l. slot_same f g ip b x taken t (omega arith)) refl
  where
    none_at : ip.addrs 12 ≡ 0
    none_at = ap ip.addrs (sym ei) ∙ empty

    was_empty : slot f ip s ≡ 0
    was_empty = ap (slot f ip) e ∙ slot_index f ip ∙ none_at

    now : update ip.addrs i b 12 ≡ b
    now = ap (update ip.addrs i b) (sym ei) ∙ update_self ip.addrs i b

    none_before : (k : ℕ) → in_index f (ip.addrs 12) k ≡ 0
    none_before k = ap (λ a. in_index f a k) none_at

    zero_index : (k : ℕ) → in_index g b k ≡ 0
    zero_index k = elim (eq_cases b 0) [
      | inl (_, t) ↦ rw t refl
      | inr (_, t) ↦ rw t (get_word-zero (g.block b) k taken.zeroed)
    ]
