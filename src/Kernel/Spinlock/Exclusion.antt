-- ===== src/Kernel/Spinlock/Exclusion.antt =====
-- Mutual exclusion of the critical sections under a lock of xv6/spinlock.c.
use laboratorio_lukitas.Common.{
  ℕ, ◌≡◌, refl, sym, ◌∙◌, ap, subst, ◌≢◌, inl, inr, Bool, true, false, ◌&&◌, if◌then◌else◌, Option,
  none, some, arith, eq_cases, Bool-cases, update, update_self, update_ne,
}
use laboratorio_lukitas.Kernel.Spinlock.{
  Cpu, Spinlock, Locks, pushcli, is_owner, holding, Acquire, spins, acquired, try_lock, acquire,
  release,
}

-- Where a processor is.
pub data Place : Type 0 where
  outside waiting inside : Place

-- Where a call of `acquire` leaves its processor.
pub data Leaves : Acquire → Locks → Place → Type 0 where
  got : {n : Locks} → Leaves (acquired n) n inside
  spun : {n : Locks} → Leaves (spins n) n waiting

-- The steps of a processor through `acquire` and `release`, with where each one is.
pub data Step (m : Locks) (at : ℕ → Place) : Locks → (ℕ → Place) → Type 0 where
  enters :
      {n : Locks} {w : Place} (p : ℕ)
      → at p ≡ outside
      → Leaves (acquire m p) n w
      → Step m at n (update at p w)
  retries :
      {n : Locks} {w : Place} (p : ℕ)
      → at p ≡ waiting
      → Leaves (try_lock m p) n w
      → Step m at n (update at p w)
  leaves :
      {n : Locks} (p : ℕ) → at p ≡ inside → release m p ≡ some n → Step m at n (update at p outside)

-- A processor that waits or is inside has its interrupts off.
abbrev pub Quiet : Cpu → Place → Type 0
Quiet c outside = c.ncli ≡ 0
Quiet c waiting = (c.ncli ≡ 1) × (c.interrupts ≡ false)
Quiet c inside = (c.ncli ≡ 1) × (c.interrupts ≡ false)

-- Who is inside holds the lock, and waits or is inside with its interrupts off.
pub record Exclusive (m : Locks) (at : ℕ → Place) : Type 0 where
  pub quiet : (p : ℕ) → Quiet (m.cpus p) (at p)
  pub owned : (p : ℕ) → at p ≡ inside → (m.lock.locked ≡ true) × (m.lock.cpu ≡ some p)
  pub owner : (p : ℕ) → m.lock.locked ≡ true → m.lock.cpu ≡ some p → at p ≡ inside

-- The states that follow one in which the lock is free and no processor has disabled interrupts.
pub data Reach : Locks → (ℕ → Place) → Type 0 where
  unlocked :
      {m : Locks} → m.lock.locked ≡ false → ((p : ℕ) → (m.cpus p).ncli ≡ 0) → Reach m (λ _. outside)
  next : {m n : Locks} {at to : ℕ → Place} → Reach m at → Step m at n to → Reach n to

abbrev pub entered : Locks → ℕ → Locks
entered m p = record m { cpus = update m.cpus p (pushcli (m.cpus p)) }

abbrev pub taken : Locks → ℕ → Locks
taken m p = record m { lock = record { locked = true; cpu = some p } }

pub data Tried (m : Locks) (p : ℕ) : Acquire → Type 0 where
  busy : m.lock.locked ≡ true → Tried m p (spins m)
  free_lock : m.lock.locked ≡ false → Tried m p (acquired (taken m p))

pub try_lock_lem : (m : Locks) (p : ℕ) → Tried m p (try_lock m p)
unfolding try_lock
try_lock_lem m p = tried m.lock.locked refl
  where
    tried : (b : Bool) → m.lock.locked ≡ b → Tried m p (if b then spins m else acquired (taken m p))
    tried true q = busy q
    tried false q = free_lock q

-- The processor `p` waits, and no processor's hold on the lock changes.
spin-Exclusive :
    (m : Locks) (at : ℕ → Place) (p : ℕ) (c : Cpu)
    → Exclusive m at
    → at p ≢ inside
    → Quiet c waiting
    → Exclusive (record m { cpus = update m.cpus p c }) (update at p waiting)
spin-Exclusive m at p c x out q = record {
  quiet = λ r. elim (eq_cases p r) [ inl (_, t) ↦ rw t q | inr (_, t) ↦ rw t (x.quiet r) ];
  owned = λ r here. elim (eq_cases p r) [
    | inl (e, t) ↦ absurd (cc (sym (moved_at r e) ∙ here))
    | inr (ne, _) ↦ x.owned r (sym (update_ne at p waiting r ne) ∙ here)
  ];
  owner = λ r locked mine. elim (eq_cases p r) [
    | inl (e, _) ↦ absurd (out (subst (λ k. at k ≡ inside) (sym e) (x.owner r locked mine)))
    | inr (ne, _) ↦ update_ne at p waiting r ne ∙ x.owner r locked mine
  ];
}
  where
    moved_at : (r : ℕ) → p ≡ r → update at p waiting r ≡ waiting
    moved_at r e = subst (λ k. update at p waiting k ≡ waiting) e (update_self at p waiting)

-- The processor `p` takes the free lock.
take-Exclusive :
    (m : Locks) (at : ℕ → Place) (p : ℕ) (c : Cpu)
    → Exclusive m at
    → m.lock.locked ≡ false
    → Quiet c inside
    → Exclusive (taken (record m { cpus = update m.cpus p c }) p) (update at p inside)
take-Exclusive m at p c x free q = record {
  quiet = λ r. elim (eq_cases p r) [ inl (_, t) ↦ rw t q | inr (_, t) ↦ rw t (x.quiet r) ];
  owned = λ r here. elim (eq_cases p r) [
    | inl (e, _) ↦ (refl, ap some e)
    | inr (ne, _) ↦ absurd (cc (sym (x.owned r (sym (update_ne at p inside r ne) ∙ here)).0 ∙ free))
  ];
  owner = λ r locked mine.
      subst (λ k. update at p inside k ≡ inside) (some-injective mine) (update_self at p inside);
}
  where
    some-injective : {a b : ℕ} → some a ≡ some b → a ≡ b
    some-injective {a} e = ap (λ o. elim o [ some k ↦ k | none ↦ a ]) e

-- The processor `p` leaves, and the lock is free.
pub leave-Exclusive :
    (m : Locks) (at : ℕ → Place) (p : ℕ) (c : Cpu)
    → Exclusive m at
    → at p ≡ inside
    → c.ncli ≡ 0
    → Exclusive
        (record { lock = record { locked = false; cpu = none }; cpus = update m.cpus p c })
        (update at p outside)
leave-Exclusive m at p c x here q = record {
  quiet = λ r. elim (eq_cases p r) [ inl (_, t) ↦ rw t q | inr (_, t) ↦ rw t (x.quiet r) ];
  owned = λ r in_it. elim (eq_cases p r) [
    | inl (e, _) ↦ absurd (cc (sym (moved_at r e) ∙ in_it))
    | inr (ne, _) ↦ absurd (
        ne (
          some-injective
            (sym (x.owned p here).1 ∙ (x.owned r (sym (update_ne at p outside r ne) ∙ in_it)).1)))
  ];
  owner = λ r locked mine. cc locked;
}
  where
    some-injective : {a b : ℕ} → some a ≡ some b → a ≡ b
    some-injective {a} e = ap (λ o. elim o [ some k ↦ k | none ↦ a ]) e

    moved_at : (r : ℕ) → p ≡ r → update at p outside r ≡ outside
    moved_at r e = subst (λ k. update at p outside k ≡ outside) e (update_self at p outside)

pub holding-true :
    (l : Spinlock) (p : ℕ) → holding l p ≡ true → (l.locked ≡ true) × (l.cpu ≡ some p)
holding-true l p e = held l.locked l.cpu e
  where
    held : (b : Bool) (o : Option ℕ) → (b && is_owner o p) ≡ true → (b ≡ true) × (o ≡ some p)
    held true none e = absurd (cc e)
    held true (some q) e = (refl, ap some (ground arith))
    held false o e = absurd (cc e)

pub pushcli-Quiet : (c : Cpu) → c.ncli ≡ 0 → Quiet (pushcli c) waiting
unfolding pushcli
pushcli-Quiet c e = (omega arith, refl)

pub not_inside : {w : Place} → w ≡ outside → w ≢ inside
not_inside e z = cc (sym e ∙ z)

pub waiting_apart : {w : Place} → w ≡ waiting → w ≢ inside
waiting_apart e z = cc (sym e ∙ z)

pub acquire-entered :
    (m : Locks) (at : ℕ → Place) (p : ℕ)
    → Exclusive m at
    → at p ≡ outside
    → acquire m p ≡ try_lock (entered m p) p
unfolding acquire
acquire-entered m at p x out = elim (Bool-cases (holding m.lock p)) [
  | inl h ↦
      let (locked, mine) = holding-true m.lock p h in absurd (cc (sym out ∙ x.owner p locked mine))
  | inr h ↦ rw h refl
]

pub Tried-Exclusive :
    (m : Locks) (at : ℕ → Place) (p : ℕ) (c : Cpu) {n : Locks} {w : Place} (r : Acquire)
    → Exclusive m at
    → at p ≢ inside
    → Quiet c waiting
    → Tried (record m { cpus = update m.cpus p c }) p r
    → Leaves r n w
    → Exclusive n (update at p w)
Tried-Exclusive m at p c _ x out q (busy _) spun = spin-Exclusive m at p c x out q
Tried-Exclusive m at p c _ x out q (free_lock f) got = take-Exclusive m at p c x f q
