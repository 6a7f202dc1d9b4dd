-- ===== src/Kernel/Strings/Move.antt =====
-- The copies of areas in xv6/string.c.
use laboratorio_lukitas.Common.{
  ℕ, zero, suc, ◌+◌, ◌≤◌, ◌<◌, ◌≡◌, refl, sym, ◌∙◌, ap, subst, ◌⊎◌, inl, inr, false, arith, ltb,
  ◌&&◌, eq_cases, lt_cases, Bool-cases, update, update_self, update_ne,
}
use laboratorio_lukitas.Kernel.Strings.{Memory, copy_back, copy_forth, memmove}

-- The copy of an area as a memory that is described at once.
pub record Moved (mem : Memory) (dst src n : ℕ) (after : Memory) : Type 0 where
  pub copied : (i : ℕ) → i < n → after (dst + i) ≡ mem (src + i)
  pub kept : (a : ℕ) → (a < dst) ⊎ (dst + n ≤ a) → after a ≡ mem a

copy_back-Moved : (n d s : ℕ) (mem : Memory) → s ≤ d → Moved mem d s n (copy_back n d s mem)
unfolding copy_back
copy_back-Moved zero d s mem le = record {
  copied = λ i l. absurd (omega arith);
  kept = λ a out. refl;
}
copy_back-Moved (suc n) d s mem le =
    let rest = copy_back-Moved n d s (update mem (d + n) (mem (s + n))) le in
    record {
      copied = λ i l. elim (eq_cases i n) [
        | inl (e, _) ↦
            rest.kept (d + i) (inr (omega arith))
            ∙ subst (λ k. update mem (d + n) (mem (s + n)) (d + k) ≡ mem (s + k)) (sym e)
                (update_self mem (d + n) (mem (s + n)))
        | inr (ne, _) ↦
            rest.copied i (omega arith) ∙ update_ne mem (d + n) (mem (s + n)) (s + i) (omega arith)
      ];
      kept = λ a out.
          rest.kept a (elim out [ inl l ↦ inl l | inr l ↦ inr (omega arith) ])
          ∙ update_ne mem (d + n) (mem (s + n)) a
              (elim out [ inl l ↦ omega arith | inr l ↦ omega arith ]);
    }

-- A round of the loop from the starts, and then the rest of it.
forth-step :
    (n d s : ℕ) (mem after : Memory)
    → (d ≤ s) ⊎ (s + suc n ≤ d)
    → Moved (update mem d (mem s)) (suc d) (suc s) n after
    → Moved mem d s (suc n) after
forth-step n d s mem after safe rest = record {
  copied = copied;
  kept = λ a out.
      rest.kept a (elim out [ inl l ↦ inl (omega arith) | inr l ↦ inr (omega arith) ])
      ∙ update_ne mem d (mem s) a (elim out [ inl l ↦ omega arith | inr l ↦ omega arith ]);
}
  where
    at : {a b : ℕ} (f : Memory) → a ≡ b → f a ≡ f b
    at f e = ap f e

    copied : (i : ℕ) → i < suc n → after (d + i) ≡ mem (s + i)
    copied zero l =
        at after (omega arith)
        ∙ rest.kept d (inl (omega arith))
        ∙ update_self mem d (mem s)
        ∙ at mem (omega arith)
    copied (suc k) l =
        at after (omega arith)
        ∙ rest.copied k (omega arith)
        ∙ update_ne mem d (mem s) (suc s + k)
            (elim safe [ inl h ↦ omega arith | inr h ↦ omega arith ])
        ∙ at mem (omega arith)

copy_forth-Moved :
    (n d s : ℕ) (mem : Memory) → (d ≤ s) ⊎ (s + n ≤ d) → Moved mem d s n (copy_forth n d s mem)
unfolding copy_forth
copy_forth-Moved zero d s mem safe = record {
  copied = λ i l. absurd (omega arith);
  kept = λ a out. refl;
}
copy_forth-Moved (suc n) d s mem safe =
    forth-step n d s mem (copy_forth n (suc d) (suc s) (update mem d (mem s))) safe (
      copy_forth-Moved n (suc d) (suc s) (update mem d (mem s))
        (elim safe [ inl l ↦ inl (omega arith) | inr l ↦ inr (omega arith) ]))

-- `memmove` leaves in the destination what was in the source before, even if the two areas
-- overlap, and changes nothing else.
pub memmove_lem : (mem : Memory) (dst src n : ℕ) → Moved mem dst src n (memmove mem dst src n)
unfolding memmove
memmove_lem mem dst src n = elim (Bool-cases (ltb src dst && ltb dst (src + n))) [
  | inl q ↦ rw (q, memmove) (copy_back-Moved n dst src mem (ground arith))
  | inr q ↦ rw (q, memmove) (copy_forth-Moved n dst src mem (apart q))
]
  where
    apart : (ltb src dst && ltb dst (src + n)) ≡ false → (dst ≤ src) ⊎ (src + n ≤ dst)
    apart q = elim (lt_cases src dst) [ inl (l, _) ↦ inr (ground arith) | inr (l, _) ↦ inl l ]
