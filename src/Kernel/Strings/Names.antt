-- ===== src/Kernel/Strings/Names.antt =====
-- Names in fields of a fixed width, as strncpy stores them and strncmp compares them in xv6/string.c.
use laboratorio_lukitas.Common.{
  ℕ, zero, suc, ◌+◌, ◌≤◌, ◌<◌, ◌≡◌, refl, sym, ◌∙◌, ap, inl, inr, ◌⊎◌, ◌↔◌, false, arith, ◌==◌,
  if◌then◌else◌, eq_cases, update, update_self, update_ne,
}
use laboratorio_lukitas.Kernel.Strings.{Memory, pad, strncpy, Difference, strncmp, memcmp}

-- The byte `i` of the field of the name at `t`: the name's, or NUL after its end.
abbrev pub field : Memory → ℕ → ℕ → ℕ
field mem t zero = mem t
field mem t (suc i) = if mem t == 0 then 0 else field mem (suc t) i

-- The areas do not meet.
abbrev pub Apart : ℕ → ℕ → ℕ → Type 0
Apart s t n = (s + n ≤ t) ⊎ (t + n ≤ s)

field_same :
    (i t : ℕ) (mem after : Memory)
    → ((a : ℕ) → t ≤ a → a ≤ t + i → after a ≡ mem a)
    → field after t i ≡ field mem t i
field_same zero t mem after h = h t (omega arith) (omega arith)
field_same (suc i) t mem after h =
    let rest = field_same i (suc t) mem after (λ a l m. h a (omega arith) (omega arith)) in
    rw (h t (omega arith) (omega arith), rest) refl

-- The field at `s` holds the field of the name at `t`, and nothing else changed.
pub record Stored (mem : Memory) (s t n : ℕ) (after : Memory) : Type 0 where
  pub stored : (i : ℕ) → i < n → after (s + i) ≡ field mem t i
  pub kept : (a : ℕ) → (a < s) ⊎ (s + n ≤ a) → after a ≡ mem a

-- Zeros from `s` on, and nothing else changed.
record Padded (mem : Memory) (s n : ℕ) (after : Memory) : Type 0 where
  zeros : (i : ℕ) → i < n → after (s + i) ≡ 0
  kept : (a : ℕ) → (a < s) ⊎ (s + n ≤ a) → after a ≡ mem a

-- The first byte of an area, and the others.
each_byte :
    (n s : ℕ) (f : Memory) (g : ℕ → ℕ)
    → f s ≡ g 0
    → ((j : ℕ) → j < n → f (suc s + j) ≡ g (suc j))
    → (i : ℕ) → i < suc n
    → f (s + i) ≡ g i
each_byte n s f g first rest zero l = ap f (omega arith) ∙ first
each_byte n s f g first rest (suc j) l = ap f (omega arith) ∙ rest j (omega arith)

pad-Padded : (n s : ℕ) (mem : Memory) → Padded mem s n (pad n s mem)
unfolding pad
pad-Padded zero s mem = record { zeros = λ i l. absurd (omega arith); kept = λ a out. refl }
pad-Padded (suc n) s mem =
    let rest = pad-Padded n (suc s) (update mem s 0) in
    record {
      zeros =
          each_byte n s (pad n (suc s) (update mem s 0)) (λ _. 0)
            (rest.kept s (inl (omega arith)) ∙ update_self mem s 0) rest.zeros;
      kept = λ a out.
          rest.kept a (elim out [ inl l ↦ inl (omega arith) | inr l ↦ inr (omega arith) ])
          ∙ update_ne mem s 0 a (elim out [ inl l ↦ omega arith | inr l ↦ omega arith ]);
    }

pub strncpy_lem : (n s t : ℕ) (mem : Memory) → Apart s t n → Stored mem s t n (strncpy mem s t n)
unfolding strncpy
strncpy_lem zero s t mem apart = record {
  stored = λ i l. absurd (omega arith);
  kept = λ a out. refl;
}
strncpy_lem (suc n) s t mem apart = elim (eq_cases (mem t) 0) [
  | inl (e, q) ↦
      let padded = pad-Padded n (suc s) (update mem s (mem t)) in
      rw (q, strncpy)
        (record {
          stored =
              each_byte n s after_pad (field mem t)
                (padded.kept s (inl (omega arith)) ∙ update_self mem s (mem t))
                (λ j l. padded.zeros j l ∙ rw q refl);
          kept = λ a out.
              padded.kept a (elim out [ inl l ↦ inl (omega arith) | inr l ↦ inr (omega arith) ])
              ∙ update_ne mem s (mem t) a (elim out [ inl l ↦ omega arith | inr l ↦ omega arith ]);
        })
  | inr (_, q) ↦
      let rest =
        strncpy_lem n (suc s) (suc t) (update mem s (mem t))
          (elim apart [ inl l ↦ inl (omega arith) | inr l ↦ inr (omega arith) ]) in
      rw (q, strncpy)
        (record {
          stored =
              each_byte n s after_byte (field mem t)
                (rest.kept s (inl (omega arith)) ∙ update_self mem s (mem t))
                (λ j l.
                  rest.stored j l
                  ∙ field_same j (suc t) mem (update mem s (mem t)) (λ a la lb.
                    update_ne mem s (mem t) a
                      (elim apart [ inl k ↦ omega arith | inr k ↦ omega arith ]))
                  ∙ rw q refl);
          kept = λ a out.
              rest.kept a (elim out [ inl l ↦ inl (omega arith) | inr l ↦ inr (omega arith) ])
              ∙ update_ne mem s (mem t) a (elim out [ inl l ↦ omega arith | inr l ↦ omega arith ]);
        })
]
  where
    after_pad : Memory
    after_pad = pad n (suc s) (update mem s (mem t))

    after_byte : Memory
    after_byte = strncpy (update mem s (mem t)) (suc s) (suc t) n

-- The comparison finds no difference.
abbrev pub Same : Difference → Type 0
Same d = d.minuend ≡ d.subtrahend

-- The first `n` bytes of the two fields are the same.
abbrev pub SameField : Memory → ℕ → ℕ → ℕ → Type 0
SameField mem p q n = (i : ℕ) → i < n → field mem p i ≡ field mem q i

SameField-suc :
    (mem : Memory) (p q n : ℕ)
    → mem p ≡ mem q
    → SameField mem (suc p) (suc q) n
    → SameField mem p q (suc n)
SameField-suc mem p q n e h zero l = e
SameField-suc mem p q n e h (suc i) l = rw (e, h i (omega arith)) refl

-- Two names that end here have the same fields.
SameField-ended : (mem : Memory) (p q n : ℕ) → mem p ≡ 0 → mem q ≡ 0 → SameField mem p q n
SameField-ended mem p q n e f zero l = e ∙ sym f
SameField-ended mem p q n e f (suc i) l = rw (e, f) refl

SameField-next :
    (mem : Memory) (p q n : ℕ)
    → (mem p == 0) ≡ false
    → (mem q == 0) ≡ false
    → SameField mem p q (suc n)
    → SameField mem (suc p) (suc q) n
SameField-next mem p q n e f h i l =
    sym (ap (λ b. if b then 0 else field mem (suc p) i) e)
    ∙ h (suc i) (omega arith)
    ∙ ap (λ b. if b then 0 else field mem (suc q) i) f

-- strncmp finds no difference exactly when the fields are the same.
pub strncmp_lem : (n p q : ℕ) (mem : Memory) → Same (strncmp mem p q n) ↔ SameField mem p q n
unfolding strncmp
strncmp_lem zero p q mem = (λ e i l. absurd (omega arith), λ h. refl)
strncmp_lem (suc n) p q mem =
    let rest = strncmp_lem n (suc p) (suc q) mem in
    elim (eq_cases (mem p) 0) [
      | inl (e, z) ↦
          rw (z, strncmp)
            (λ d. SameField-ended mem p q (suc n) e (sym d ∙ e), λ h. h 0 (omega arith))
      | inr (ne, z) ↦ elim (eq_cases (mem p) (mem q)) [
        | inr (_, d) ↦ rw (z, d, strncmp) (λ same. absurd (ground arith), λ h. h 0 (omega arith))
        | inl (same, d) ↦
            let other : (mem q == 0) ≡ false = ap (λ b. b == 0) (sym same) ∙ z in
            rw (z, d, strncmp)
              (
                λ e. SameField-suc mem p q n same (rest.0 e),
                λ h. rest.1 (SameField-next mem p q n z other h),
              )
      ]
    ]

-- memcmp finds no difference exactly when the areas hold the same bytes.
pub memcmp_lem :
    (n p q : ℕ) (mem : Memory)
    → Same (memcmp mem p q n) ↔ ((i : ℕ) → i < n → mem (p + i) ≡ mem (q + i))
unfolding memcmp
memcmp_lem zero p q mem = (λ e i l. absurd (omega arith), λ h. refl)
memcmp_lem (suc n) p q mem =
    let rest = memcmp_lem n (suc p) (suc q) mem in
    elim (eq_cases (mem p) (mem q)) [
      | inr (_, d) ↦
          rw (d, memcmp)
            (
              λ same. absurd (ground arith),
              λ h. ap mem (omega arith) ∙ h 0 (omega arith) ∙ ap mem (omega arith),
            )
      | inl (same, d) ↦
          rw (d, memcmp)
            (
              λ e.
                  each_byte n p mem (λ i. mem (q + i)) (same ∙ ap mem (omega arith))
                    (λ j l. rest.0 e j l ∙ ap mem (omega arith)),
              λ h.
                  rest.1
                    (λ j l. ap mem (omega arith) ∙ h (suc j) (omega arith) ∙ ap mem (omega arith)),
            )
    ]

field_stored :
    (i n s t : ℕ) (mem after : Memory)
    → ((j : ℕ) → j < n → after (s + j) ≡ field mem t j)
    → i < n
    → field after s i ≡ field mem t i
field_stored zero n s t mem after h l = ap after (omega arith) ∙ h 0 l
field_stored (suc i) zero s t mem after h l = absurd (omega arith)
field_stored (suc i) (suc n) s t mem after h l =
    let first : after s ≡ mem t = ap after (omega arith) ∙ h 0 (omega arith) in
    elim (eq_cases (mem t) 0) [
      | inl (_, q) ↦ rw (first, q) refl
      | inr (_, q) ↦
          rw (first, q)
            (field_stored i n (suc s) (suc t) mem after
              (λ j lj.
                ap after (omega arith)
                ∙ h (suc j) (omega arith)
                ∙ ap (λ b. if b then 0 else field mem (suc t) j) q)
              (omega arith))
    ]

-- The fields from the second byte on, of names that do not end before it.
field_next :
    (mem after : Memory) (p r n : ℕ)
    → after p ≡ mem r
    → (mem r == 0) ≡ false
    → ((i : ℕ) → i < suc n → field after p i ≡ field mem r i)
    → (i : ℕ) → i < n
    → field after (suc p) i ≡ field mem (suc r) i
field_next mem after p r n first z h i l =
    sym (ap (λ b. if b then 0 else field after (suc p) i) (ap (λ b. b == 0) first ∙ z))
    ∙ h (suc i) (omega arith)
    ∙ ap (λ b. if b then 0 else field mem (suc r) i) z

-- The comparison of two names depends on their fields alone.
strncmp-fields :
    (n p q r : ℕ) (mem after : Memory)
    → ((i : ℕ) → i < n → field after p i ≡ field mem p i)
    → ((i : ℕ) → i < n → field after q i ≡ field mem r i)
    → strncmp after p q n ≡ strncmp mem p r n
unfolding strncmp
strncmp-fields zero p q r mem after h k = refl
strncmp-fields (suc n) p q r mem after h k =
    let first : after p ≡ mem p = h 0 (omega arith) in
    let second : after q ≡ mem r = k 0 (omega arith) in
    elim (eq_cases (mem p) 0) [
      | inl (_, z) ↦ rw (first, second, z) refl
      | inr (_, z) ↦ elim (eq_cases (mem p) (mem r)) [
        | inr (_, d) ↦ rw (first, second, z, d) refl
        | inl (same, d) ↦
            let other : (mem r == 0) ≡ false = ap (λ b. b == 0) (sym same) ∙ z in
            let rest =
              strncmp-fields n (suc p) (suc q) (suc r) mem after
                (field_next mem after p p n first z h)
                (field_next mem after q r n second other k) in
            rw (first, second, z, d) rest
      ]
    ]

-- A name that strncpy has stored at `s` compares with a name at `q` as the original at `t` did, with the
-- same difference as result, when the area at `s` meets neither the area at `t` nor that at `q`.
pub strncmp-strncpy :
    (n s t q : ℕ) (mem : Memory)
    → Apart s t n
    → Apart s q n
    → strncmp (strncpy mem s t n) q s n ≡ strncmp mem q t n
strncmp-strncpy n s t q mem apart away = strncmp-fields n q s t mem after at_q at_s
  where
    after : Memory
    after = strncpy mem s t n

    result : Stored mem s t n after
    result = strncpy_lem n s t mem apart

    at_s : (i : ℕ) → i < n → field after s i ≡ field mem t i
    at_s i l = field_stored i n s t mem after result.stored l

    at_q : (i : ℕ) → i < n → field after q i ≡ field mem q i
    at_q i l = field_same i q mem after (λ a la lb.
        result.kept a (elim away [ inl k ↦ inr (omega arith) | inr k ↦ inl (omega arith) ]))
