-- ===== src/Kernel/Fs/Inode/Bmap.antt =====
-- `bmap` of xv6/fs.c: which block it finds, and what it changes.
use laboratorio_lukitas.Common.{
  ℕ, ◌-◌, ◌≤◌, ◌<◌, ◌≡◌, refl, sym, ◌∙◌, ap, subst, ◌≢◌, inl, inr, arith, eq_cases, update_self,
  update_ne,
}
use laboratorio_lukitas.Kernel.Fs.Disk.{Fs, bblock, with_block, get_word, put_word}
use laboratorio_lukitas.Kernel.Fs.Disk.Bitmap.{used, used-with_block}
use laboratorio_lukitas.Kernel.Fs.Disk.Alloc.{Taken}
use laboratorio_lukitas.Kernel.Fs.Disk.Words.{get_word-put_word_self, get_word-put_word_ne}
use laboratorio_lukitas.Kernel.Fs.Inode.{Inode}
use laboratorio_lukitas.Kernel.Fs.Inode.Slots.{
  in_index, slot, IsFile, Taken-more, slot_index, slot_indirect, slot_cases,
}
use laboratorio_lukitas.Kernel.Fs.Inode.Map.{Has, slot_apart, slot_same, index_same, filled-Has}

-- An entry of the indirect block is filled.
module _ (f h : Fs) (ip : Inode) (b s ind : ℕ) (x : IsFile f ip) (taken : Taken f h b) (lo : 12 ≤ s)
    (hi : s < 140) (at : ip.addrs 12 ≡ ind) (there : ind ≢ 0)
    (empty : get_word (f.block ind) (s - 12) ≡ 0) where
  unfoldable pub after : Fs
  after = with_block h ind (put_word (h.block ind) (s - 12) b)

  is_index : slot f ip 140 ≡ ind
  is_index = slot_index f ip ∙ at

  apart : ind ≢ b
  apart e =
      slot_apart f h ip b x taken 140 (omega arith) (λ z. there (sym is_index ∙ z))
        (sym e ∙ sym is_index)

  off : (c : ℕ) → c < f.sb.size → ind ≢ bblock c h.sb
  off c l e =
      (x.owned 140 (omega arith) (λ z. there (sym is_index ∙ z))).off.off_map c l
        (ap (bblock c) (sym taken.same_sb) ∙ sym e ∙ sym is_index)

  used-after : (c : ℕ) → c < f.sb.size → used after c ≡ used h c
  unfolding after
  used-after c l = used-with_block h ind (put_word (h.block ind) (s - 12) b) c (off c l)

  same_index : h.block ind ≡ f.block ind
  same_index =
      subst (λ a. h.block a ≡ f.block a) at (index_same f h ip b x taken (λ z. there (sym at ∙ z)))

  entry : (i : ℕ) → in_index after ind i ≡ get_word (put_word (h.block ind) (s - 12) b) i
  unfolding after
  entry i = elim (eq_cases ind 0) [
    | inl (z, _) ↦ absurd (there z)
    | inr (_, t) ↦
        rw t (ap (λ d. get_word d i) (update_self h.block ind (put_word (h.block ind) (s - 12) b)))
  ]

  pub entry_before : (i : ℕ) → in_index f ind i ≡ get_word (f.block ind) i
  entry_before i = elim (eq_cases ind 0) [ inl (z, _) ↦ absurd (there z) | inr (_, t) ↦ rw t refl ]

  small : b < 4294967296
  small = omega (arith, taken.in_range, x.laid_out.small)

  pub entry-Has : Has f ip s (record { addr = b; inode = ip; fs = after })
  unfolding after
  entry-Has =
      filled-Has f after ip ip b s x (omega arith)
        (slot_indirect f ip s lo hi
          ∙ ap (λ a. in_index f a (s - 12)) at
          ∙ entry_before (s - 12)
          ∙ empty)
        taken.in_range taken.was_free taken.same_sb (used-after b taken.in_range ∙ taken.now_used)
        (λ c l e. used-after c l ∙ Taken-more f h b taken c l e)
        (λ c l ne. used-after c l ∙ taken.others c l ne)
        (slot_indirect after ip s lo hi
          ∙ ap (λ a. in_index after a (s - 12)) at
          ∙ entry (s - 12)
          ∙ get_word-put_word_self (h.block ind) (s - 12) b small)
        (λ t l ne.
          slot_cases f after ip ip t l (λ _. refl)
            (λ lo' hi'.
              ap (λ a. in_index after a (t - 12)) at
              ∙ entry (t - 12)
              ∙ get_word-put_word_ne (h.block ind) (s - 12) (t - 12) b (omega arith)
              ∙ ap (λ d. get_word d (t - 12)) same_index
              ∙ sym (entry_before (t - 12))
              ∙ ap (λ a. in_index f a (t - 12)) (sym at))
            (λ _. refl))
        (λ o.
          ap (λ d. d o) (update_ne h.block ind (put_word (h.block ind) (s - 12) b) b apart)
          ∙ taken.zeroed o)
        (λ t l ne.
          update_ne h.block ind (put_word (h.block ind) (s - 12) b) (slot f ip t) (λ e.
            absurd (
              omega
                (arith, x.distinct t 140 (omega arith) (omega arith) ne (sym e ∙ sym is_index))))
          ∙ slot_same f h ip b x taken t (omega arith) ne)
        refl
