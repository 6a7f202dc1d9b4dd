-- ===== src/Kernel/Strings/Bounded.antt =====
-- The bounded copy of a string in xv6/string.c.
use laboratorio_lukitas.Common.{
  ℕ, zero, suc, ◌+◌, ◌≤◌, ◌<◌, ◌≡◌, sym, ◌∙◌, ap, inl, inr, ◌⊎◌, arith, ◌==◌, Bool-cases, update,
  update_self, update_ne,
}
use laboratorio_lukitas.Kernel.Strings.{Memory, copy_string, safestrcpy}

-- A string that ends within the `n` bytes at `s`, and nothing else changed.
pub record Ended (mem : Memory) (s n : ℕ) (after : Memory) : Type 0 where
  pub ends : (k : ℕ) × (k < n) × (after (s + k) ≡ 0)
  pub kept : (a : ℕ) → (a < s) ⊎ (s + n ≤ a) → after a ≡ mem a

zero_at : (mem : Memory) (s a : ℕ) → s ≡ a → update mem s 0 a ≡ 0
zero_at mem s a e = ap (λ b. update mem s 0 b) (sym e) ∙ update_self mem s 0

-- A byte copied, and then the rest of the string.
Ended-step :
    (n s v : ℕ) (mem after : Memory)
    → Ended (update mem s v) (suc s) n after
    → Ended mem s (suc n) after
Ended-step n s v mem after rest = record {
  ends = let (k, l, z) = rest.ends in (suc k, omega arith, ap after (same_place k) ∙ z);
  kept = λ a out.
      rest.kept a (elim out [ inl l ↦ inl (omega arith) | inr l ↦ inr (omega arith) ])
      ∙ update_ne mem s v a (elim out [ inl l ↦ omega arith | inr l ↦ omega arith ]);
}
  where
    same_place : (k : ℕ) → s + suc k ≡ suc s + k
    same_place k = omega arith

copy_string-Ended : (n s t : ℕ) (mem : Memory) → Ended mem s (suc n) (copy_string n s t mem)
unfolding copy_string
copy_string-Ended zero s t mem = record {
  ends = (0, omega arith, zero_at mem s (s + 0) (omega arith));
  kept = λ a out. update_ne mem s 0 a (elim out [ inl l ↦ omega arith | inr l ↦ omega arith ]);
}
copy_string-Ended (suc n) s t mem = elim (Bool-cases (mem t == 0)) [
  | inl q ↦
      rw (q, copy_string)
        (record {
          ends = (1, omega arith, zero_at (update mem s (mem t)) (suc s) (s + 1) (omega arith));
          kept = λ a out.
              update_ne (update mem s (mem t)) (suc s) 0 a
                (elim out [ inl l ↦ omega arith | inr l ↦ omega arith ])
              ∙ update_ne mem s (mem t) a (elim out [ inl l ↦ omega arith | inr l ↦ omega arith ]);
        })
  | inr q ↦
      rw (q, copy_string)
        (Ended-step (suc n) s (mem t) mem (copy_string n (suc s) (suc t) (update mem s (mem t)))
          (copy_string-Ended n (suc s) (suc t) (update mem s (mem t))))
]

-- `safestrcpy` into an area of at least one byte ends the string within the area and changes
-- nothing outside it, whatever stands at the source.
pub safestrcpy_lem : (mem : Memory) (s t n : ℕ) → 1 ≤ n → Ended mem s n (safestrcpy mem s t n)
unfolding safestrcpy
safestrcpy_lem mem s t zero l = absurd (omega arith)
safestrcpy_lem mem s t (suc n) l = copy_string-Ended n s t mem
