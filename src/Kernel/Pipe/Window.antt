-- ===== src/Kernel/Pipe/Window.antt =====
-- The bytes that a pipe of xv6/pipe.c holds, oldest first.
use laboratorio_lukitas.Common.{
  ℕ, zero, suc, ◌+◌, ◌-◌, ◌%◌, ◌≤◌, ◌<◌, ◌≡◌, refl, sym, ap, ◌∙◌, ◌≢◌, true, false, List, [], ◌∷◌,
  ◌++◌, arith, length, update, update_self, update_ne,
}
use laboratorio_lukitas.Kernel.Pipe.{
  Pipe, pipe_size, u32_mod, put_byte, next_byte, skip_byte, is_full, is_empty,
}

-- `n` bytes from counter `r` on; the counter wraps at 2^32, and 512 divides 2^32.
abbrev pub window : (ℕ → ℕ) → ℕ → ℕ → List ℕ
window d r zero = []
window d r (suc n) = d (r % pipe_size) ∷ window d ((r + 1) % u32_mod) n

abbrev pub size : Pipe → ℕ
size p = (p.nwrite + u32_mod - p.nread) % u32_mod

abbrev pub contents : Pipe → List ℕ
contents p = window p.ring p.nread (size p)

pub record IsValid (p : Pipe) : Type 0 where
  pub nread_word : p.nread < u32_mod
  pub nwrite_word : p.nwrite < u32_mod
  pub fits : size p ≤ pipe_size

pub length-window : (d : ℕ → ℕ) (r n : ℕ) → length (window d r n) ≡ n
length-window d r zero = refl
length-window d r (suc n) = ap suc (length-window d ((r + 1) % u32_mod) n)

-- Writing at the end of a window extends it.
window-put :
    (d : ℕ → ℕ) (c n r w : ℕ)
    → r < u32_mod
    → n < pipe_size
    → w ≡ (r + n) % u32_mod
    → window (update d (w % pipe_size) c) r (suc n) ≡ window d r n ++ c ∷ []
window-put d c zero r w hr hn e =
    ap (λ x. x ∷ []) (sym (ap (update d (w % pipe_size) c) at) ∙ update_self d (w % pipe_size) c)
  where
    at : w % pipe_size ≡ r % pipe_size
    at = omega arith
window-put d c (suc n) r w hr hn e =
    ap₂' (update_ne d (w % pipe_size) c (r % pipe_size) (omega arith))
      (window-put d c n ((r + 1) % u32_mod) w (omega arith) (omega arith) (omega arith))
  where
    ap₂' : {a b : ℕ} {xs ys : List ℕ} → a ≡ b → xs ≡ ys → a ∷ xs ≡ b ∷ ys
    ap₂' p q = cc

ne_zero_window :
    (d : ℕ → ℕ) (r n : ℕ)
    → n ≢ 0
    → window d r n ≡ d (r % pipe_size) ∷ window d ((r + 1) % u32_mod) (n - 1)
ne_zero_window d r zero h = absurd (h refl)
ne_zero_window d r (suc n) h =
    ap (λ k. d (r % pipe_size) ∷ window d ((r + 1) % u32_mod) k) (omega arith)

-- The test for a full pipe, at either answer.
pub full_size : (p : Pipe) → IsValid p → is_full p ≡ true → size p ≡ pipe_size
unfolding is_full
full_size p v h = ground arith

pub room_size : (p : Pipe) → IsValid p → is_full p ≡ false → size p < pipe_size
unfolding is_full
room_size p v h = ground arith

-- The test for an empty pipe, at either answer.
pub empty_size : (p : Pipe) → IsValid p → is_empty p ≡ true → size p ≡ 0
unfolding is_empty
empty_size p v h = ground arith

pub some_size : (p : Pipe) → IsValid p → is_empty p ≡ false → size p ≢ 0
unfolding is_empty
some_size p v h = ground arith

pub put_byte-IsValid : (p : Pipe) (c : ℕ) → IsValid p → size p < pipe_size → IsValid (put_byte p c)
unfolding put_byte
put_byte-IsValid p c v h = omega arith

pub skip_byte-IsValid : (p : Pipe) → IsValid p → size p ≢ 0 → IsValid (skip_byte p)
unfolding skip_byte
skip_byte-IsValid p v h = omega arith

pub contents-put_byte :
    (p : Pipe) (c : ℕ)
    → IsValid p
    → size p < pipe_size
    → contents (put_byte p c) ≡ contents p ++ c ∷ []
unfolding put_byte
contents-put_byte p c v h =
    ap (window (update p.ring (p.nwrite % pipe_size) c) p.nread) grows
    ∙ window-put p.ring c (size p) p.nread p.nwrite v.nread_word h
        (omega (arith, v.nwrite_word, v.nread_word))
  where
    grows : ((p.nwrite + 1) % u32_mod + u32_mod - p.nread) % u32_mod ≡ suc (size p)
    grows = omega (arith, v.nwrite_word, v.nread_word)

pub contents-skip_byte :
    (p : Pipe) → IsValid p → size p ≢ 0 → contents p ≡ next_byte p ∷ contents (skip_byte p)
unfolding skip_byte next_byte
contents-skip_byte p v h =
    ne_zero_window p.ring p.nread (size p) h
    ∙ ap (λ k. p.ring (p.nread % pipe_size) ∷ window p.ring ((p.nread + 1) % u32_mod) k)
        (omega (arith, v.nwrite_word, v.nread_word))

pub contents-nil : (p : Pipe) → size p ≡ 0 → contents p ≡ []
contents-nil p h = ap (window p.ring p.nread) h
