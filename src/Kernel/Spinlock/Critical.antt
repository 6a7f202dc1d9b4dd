-- ===== src/Kernel/Spinlock/Critical.antt =====
-- The processors that go through `acquire` and `release` of xv6/spinlock.c in every order.
use laboratorio_lukitas.Common.{
  ℕ, ◌≡◌, refl, sym, ◌∙◌, ap, subst, inl, inr, true, false, Option, none, some, arith, eq_cases,
  update,
}
use laboratorio_lukitas.Kernel.Spinlock.{
  Cpu, Spinlock, Locks, pushcli, popcli, holding, try_lock, release,
}
use laboratorio_lukitas.Kernel.Spinlock.Exclusion.{
  Place, outside, inside, Leaves, Step, enters, retries, leaves, Exclusive, Reach, unlocked, next,
  entered, Quiet, try_lock_lem, acquire-entered, pushcli-Quiet, not_inside, waiting_apart,
  Tried-Exclusive, leave-Exclusive,
}

-- What `release` does to the state: the processor's pushcli is undone and the lock is free.
pub data Released (m : Locks) (p : ℕ) : Option Locks → Type 0 where
  released :
      (c : Cpu)
      → c.ncli ≡ 0
      → c.interrupts ≡ (m.cpus p).intena
      → Released m p
          (some (record { lock = record { locked = false; cpu = none }; cpus = update m.cpus p c }))

popcli_last :
    (c : Cpu)
    → c.ncli ≡ 1
    → c.interrupts ≡ false
    → popcli c ≡ some (record c { ncli = 0; interrupts = c.intena })
unfolding popcli
popcli_last c one off = rw (off, one) refl

holding_own : (l : Spinlock) (p : ℕ) → l.locked ≡ true → l.cpu ≡ some p → holding l p ≡ true
holding_own l p e f = rw (e, f) (ground arith)

release-Released :
    (m : Locks) (at : ℕ → Place) (p : ℕ)
    → Exclusive m at
    → at p ≡ inside
    → Released m p (release m p)
unfolding release
release-Released m at p x here =
    let (locked, mine) = x.owned p here in
    let (one, off) = subst (Quiet (m.cpus p)) here (x.quiet p) in
    rw (holding_own m.lock p locked mine) (
      rw (popcli_last (m.cpus p) one off)
        (released (record (m.cpus p) { ncli = 0; interrupts = (m.cpus p).intena }) refl refl))

same_cpu : (f : ℕ → Cpu) (p r : ℕ) → update f p (f p) r ≡ f r
same_cpu f p r = elim (eq_cases p r) [ inl (e, t) ↦ rw t (ap f e) | inr (_, t) ↦ rw t refl ]

same_cpus : (f : ℕ → Cpu) (p : ℕ) → update f p (f p) ≡ f
same_cpus f p = λ i r. same_cpu f p r i

step-Exclusive :
    {m n : Locks} {at to : ℕ → Place} → Exclusive m at → Step m at n to → Exclusive n to
step-Exclusive {m} {n} {at} x (enters {w = w} p out l) =
    Tried-Exclusive m at p (pushcli (m.cpus p)) (try_lock (entered m p) p) x (not_inside out)
      (pushcli-Quiet (m.cpus p) (subst (Quiet (m.cpus p)) out (x.quiet p)))
      (try_lock_lem (entered m p) p) (subst (λ r. Leaves r n w) (acquire-entered m at p x out) l)
step-Exclusive {m} {n} {at} x (retries {w = w} p out l) =
    Tried-Exclusive m at p (m.cpus p) (try_lock (again (update m.cpus p (m.cpus p))) p) x
      (waiting_apart out) (subst (Quiet (m.cpus p)) out (x.quiet p))
      (try_lock_lem (again (update m.cpus p (m.cpus p))) p)
      (subst (λ cs. Leaves (try_lock (again cs) p) n w) (sym (same_cpus m.cpus p)) l)
  where
    again : (ℕ → Cpu) → Locks
    again cs = record m { cpus = cs }
step-Exclusive {m} {n} {at} x (leaves p here e) =
    left (release m p) (release-Released m at p x here) e
  where
    left : (r : Option Locks) → Released m p r → r ≡ some n → Exclusive n (update at p outside)
    left _ (released c zero_left _) e =
        subst (λ k. Exclusive k (update at p outside)) (some-injective e)
          (leave-Exclusive m at p c x here zero_left)
      where
        some-injective : {a b : Locks} → some a ≡ some b → a ≡ b
        some-injective {a} e = ap (λ o. elim o [ some k ↦ k | none ↦ a ]) e

-- In every reachable state a processor that is inside the critical section is the lock's holder,
-- and one that waits or is inside has its interrupts off.
pub Reach-Exclusive : (m : Locks) (at : ℕ → Place) → Reach m at → Exclusive m at
Reach-Exclusive m _ (unlocked free quiet) = record {
  quiet = quiet;
  owned = λ p e. absurd (cc e);
  owner = λ p e mine. absurd (cc (sym free ∙ e));
}
Reach-Exclusive _ _ (next {m} {n} {at} {to} r s) = step-Exclusive (Reach-Exclusive m at r) s

-- In every reachable state at most one processor is inside the critical section.
pub one_inside :
    (m : Locks) (at : ℕ → Place) (p q : ℕ) → Reach m at → at p ≡ inside → at q ≡ inside → p ≡ q
one_inside m at p q r here there =
    let x = Reach-Exclusive m at r in some-injective (sym (x.owned p here).1 ∙ (x.owned q there).1)
  where
    some-injective : {a b : ℕ} → some a ≡ some b → a ≡ b
    some-injective {a} e = ap (λ o. elim o [ some k ↦ k | none ↦ a ]) e

-- In every reachable state a processor that is inside releases the lock without a panic; its
-- interrupts are then as pushcli noted them.
pub release_returns :
    (m : Locks) (at : ℕ → Place) (p : ℕ) → Reach m at → at p ≡ inside → Released m p (release m p)
release_returns m at p r here = release-Released m at p (Reach-Exclusive m at r) here
