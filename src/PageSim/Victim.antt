-- ===== src/PageSim/Victim.antt =====
-- The searches of lab-07/sim.c: the frame used the longest time ago, and the first free place.
use laboratorio_lukitas.Common.{
  ℕ, zero, suc, ◌+◌, ◌≤◌, ◌<◌, ◌≡◌, refl, subst, inl, inr, true, false, Option, none, some, arith,
  eq_cases, Bool-cases,
}
use laboratorio_lukitas.PageSim.{Sim, Pagina, earlier, is_free, lru_victim, first_free}

-- None of the frames below `e` was used before the frame `b`.
abbrev pub Least : (ℕ → Pagina) → ℕ → ℕ → Type 0
Least ram e b = (m : ℕ) → m < e → earlier (ram m).lru_indice (ram b).lru_indice ≡ false

earlier_lower : (a b c : Option ℕ) → earlier a b ≡ false → earlier c b ≡ true → earlier a c ≡ false
earlier_lower none none c h e = absurd (not_below c e)
  where
    not_below : (c : Option ℕ) → earlier c none ≡ true → ⊥
    not_below none e = cc e
    not_below (some x) e = cc e
earlier_lower none (some y) c h e = absurd (cc h)
earlier_lower (some x) none none h e = refl
earlier_lower (some x) none (some z) h e = absurd (cc e)
earlier_lower (some x) (some y) none h e = refl
earlier_lower (some x) (some y) (some z) h e = ground arith

Least-suc :
    (s : Sim) (e b : ℕ)
    → Least s.ram e b
    → earlier (s.ram e).lru_indice (s.ram b).lru_indice ≡ false
    → Least s.ram (suc e) b
Least-suc s e b h last m l = elim (eq_cases e m) [
  | inl (same, _) ↦ subst (λ c. earlier (s.ram c).lru_indice (s.ram b).lru_indice ≡ false) same last
  | inr (ne, _) ↦ h m (omega arith)
]

earlier_self : (a : Option ℕ) → earlier a a ≡ false
earlier_self none = refl
earlier_self (some x) = ground arith

lru_victim_from :
    (rounds i best : ℕ) (s : Sim)
    → best < i
    → Least s.ram i best
    → (lru_victim rounds i best s < i + rounds)
      × Least s.ram (i + rounds) (lru_victim rounds i best s)
unfolding lru_victim
lru_victim_from zero i best s l h = (omega arith, λ m lm. h m (omega arith))
lru_victim_from (suc rounds) i best s l h =
    elim (Bool-cases (earlier (s.ram i).lru_indice (s.ram best).lru_indice)) [
      | inl t ↦
          rw (t, lru_victim)
            (let (low, least) = lru_victim_from rounds (suc i) i s (omega arith) (
                Least-suc s i i
                  (λ m lm.
                    earlier_lower (s.ram m).lru_indice (s.ram best).lru_indice (s.ram i).lru_indice
                      (h m lm) t)
                  (earlier_self (s.ram i).lru_indice)) in
              (omega arith, λ m lm. least m (omega arith)))
      | inr t ↦
          rw (t, lru_victim)
            (let (low, least) =
                lru_victim_from rounds (suc i) best s (omega arith) (Least-suc s i best h t) in
              (omega arith, λ m lm. least m (omega arith)))
    ]

-- The frame that the loop finds is one of the eight, and none of them was used before it.
pub lru_victim-Least : (s : Sim) → (lru_victim 7 1 0 s < 8) × Least s.ram 8 (lru_victim 7 1 0 s)
lru_victim-Least s =
    lru_victim_from 7 1 0 s (omega arith)
      (Least-suc s 0 0 (λ m l. absurd (omega arith)) (earlier_self (s.ram 0).lru_indice))

-- The result of a search from `i` to below `e`.
pub data Search (f : ℕ → Pagina) (i e : ℕ) : Option ℕ → Type 0 where
  full : ((m : ℕ) → i ≤ m → m < e → is_free (f m) ≡ false) → Search f i e none
  free : {k : ℕ} → k < e → is_free (f k) ≡ true → Search f i e (some k)

Search-more :
    (f : ℕ → Pagina) (i e : ℕ) (o : Option ℕ)
    → is_free (f i) ≡ false
    → Search f (suc i) e o
    → Search f i e o
Search-more f i e none t (full h) = full (λ m lm lh. elim (eq_cases i m) [
  | inl (same, _) ↦ subst (λ c. is_free (f c) ≡ false) same t
  | inr (ne, _) ↦ h m (omega arith) lh
])
Search-more f i e (some k) t (free l h) = free l h

pub first_free_lem :
    (rounds i e : ℕ) (f : ℕ → Pagina) → i + rounds ≡ e → Search f i e (first_free rounds i f)
unfolding first_free
first_free_lem zero i e f le = full (λ m a b. absurd (omega arith))
first_free_lem (suc rounds) i e f le =
    let rest = first_free_lem rounds (suc i) e f (omega arith) in
    elim (Bool-cases (is_free (f i))) [
      | inl t ↦ rw (t, first_free) (free (omega arith) t)
      | inr t ↦ rw (t, first_free) (Search-more f i e (first_free rounds (suc i) f) t rest)
    ]
