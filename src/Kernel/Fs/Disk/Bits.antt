-- ===== src/Kernel/Fs/Disk/Bits.antt =====
-- The bits of a byte.
use laboratorio_lukitas.Common.{
  ℕ, zero, suc, ◌/◌, ◌≡◌, refl, ◌∙◌, ap, ◌≢◌, true, false, arith, ◌==◌,
}
use laboratorio_lukitas.Kernel.Fs.Disk.{bit, set_bit, clear_bit}

pub bit-set_bit_self : (k byte : ℕ) → bit (set_bit byte k) k ≡ true
unfolding bit set_bit
bit-set_bit_self zero byte = ground arith
bit-set_bit_self (suc k) byte = ap (λ b. bit b k) (omega arith) ∙ bit-set_bit_self k (byte / 2)

pub bit-set_bit_ne : (k j byte : ℕ) → k ≢ j → bit (set_bit byte k) j ≡ bit byte j
unfolding bit set_bit
bit-set_bit_ne zero zero byte ne = absurd (ne refl)
bit-set_bit_ne zero (suc j) byte ne = ap (λ b. bit b j) (omega arith)
bit-set_bit_ne (suc k) zero byte ne = ap (λ b. b == 1) (omega arith)
bit-set_bit_ne (suc k) (suc j) byte ne =
    ap (λ b. bit b j) (omega arith) ∙ bit-set_bit_ne k j (byte / 2) (omega arith)

pub bit-clear_bit_self : (k byte : ℕ) → bit (clear_bit byte k) k ≡ false
unfolding bit clear_bit
bit-clear_bit_self zero byte = ground arith
bit-clear_bit_self (suc k) byte = ap (λ b. bit b k) (omega arith) ∙ bit-clear_bit_self k (byte / 2)

pub bit-clear_bit_ne : (k j byte : ℕ) → k ≢ j → bit (clear_bit byte k) j ≡ bit byte j
unfolding bit clear_bit
bit-clear_bit_ne zero zero byte ne = absurd (ne refl)
bit-clear_bit_ne zero (suc j) byte ne = ap (λ b. bit b j) (omega arith)
bit-clear_bit_ne (suc k) zero byte ne = ap (λ b. b == 1) (omega arith)
bit-clear_bit_ne (suc k) (suc j) byte ne =
    ap (λ b. bit b j) (omega arith) ∙ bit-clear_bit_ne k j (byte / 2) (omega arith)
