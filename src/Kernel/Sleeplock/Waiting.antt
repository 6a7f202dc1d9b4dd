-- ===== src/Kernel/Sleeplock/Waiting.antt =====
-- The processes that go through `acquiresleep` and `releasesleep` of xv6/sleeplock.c in every order.
use laboratorio_lukitas.Common.{
  ℕ, ◌≡◌, refl, sym, ◌∙◌, ap, ◌≢◌, ◌↔◌, inl, inr, true, false, arith, eq_cases, Bool-cases, update,
  update_self, update_ne,
}
use laboratorio_lukitas.Kernel.Sleeplock.{
  Sleeplock, Place, outside, asleep, woken, inside, initsleeplock, Acquire, sleeps, acquired,
  acquiresleep, awake, releasesleep, holdingsleep,
}

-- Where a test of the loop leaves the lock and the process.
pub data Leaves (l : Sleeplock) (p : ℕ) : Acquire → Sleeplock → Place → Type 0 where
  waits : Leaves l p sleeps l asleep
  goes_in : {k : Sleeplock} → Leaves l p (acquired k) k inside

pub data Step : Sleeplock → (ℕ → Place) → Sleeplock → (ℕ → Place) → Type 0 where
  enters :
      {l k : Sleeplock} {at : ℕ → Place} {w : Place} (p : ℕ)
      → at p ≡ outside
      → Leaves l p (acquiresleep l p) k w
      → Step l at k (update at p w)
  retries :
      {l k : Sleeplock} {at : ℕ → Place} {w : Place} (p : ℕ)
      → at p ≡ woken
      → Leaves l p (acquiresleep l p) k w
      → Step l at k (update at p w)
  -- `kill` wakes a process wherever it sleeps.
  killed :
      {l : Sleeplock} {at : ℕ → Place} (p : ℕ) → at p ≡ asleep → Step l at l (update at p woken)
  leaves :
      {l : Sleeplock} {at : ℕ → Place} (p : ℕ)
      → at p ≡ inside
      → Step l at (releasesleep at).0 (update (releasesleep at).1 p outside)

pub data Reach : Sleeplock → (ℕ → Place) → Type 0 where
  unlocked : {at : ℕ → Place} → ((p : ℕ) → at p ≡ outside) → Reach initsleeplock at
  next : {l k : Sleeplock} {at to : ℕ → Place} → Reach l at → Step l at k to → Reach k to

-- The lock is held by the process that it names, and by no other; who sleeps, sleeps on a held lock.
record Held (l : Sleeplock) (at : ℕ → Place) : Type 0 where
  owned : (p : ℕ) → at p ≡ inside → (l.locked ≡ true) × (l.pid ≡ p)
  holder : l.locked ≡ true → at l.pid ≡ inside
  waiting : (p : ℕ) → at p ≡ asleep → l.locked ≡ true

-- The process leaves a place that is not inside for one that is not inside either.
moves-Held :
    (l : Sleeplock) (at : ℕ → Place) (p : ℕ) (w : Place)
    → Held l at
    → at p ≢ inside
    → w ≢ inside
    → (w ≡ asleep → l.locked ≡ true)
    → Held l (update at p w)
moves-Held l at p w x was not_in sleeping = record {
  owned = λ q e. elim (eq_cases p q) [
    | inl (same, _) ↦ absurd (not_in (sym (update_self at p w) ∙ ap (update at p w) same ∙ e))
    | inr (ne, _) ↦ x.owned q (sym (update_ne at p w q ne) ∙ e)
  ];
  holder = λ e. update_ne at p w l.pid (λ z. was (ap at z ∙ x.holder e)) ∙ x.holder e;
  waiting = λ q e. elim (eq_cases p q) [
    | inl (same, _) ↦ sleeping (sym (update_self at p w) ∙ ap (update at p w) same ∙ e)
    | inr (ne, _) ↦ x.waiting q (sym (update_ne at p w q ne) ∙ e)
  ];
}

takes-Held :
    (l : Sleeplock) (at : ℕ → Place) (p : ℕ)
    → Held l at
    → l.locked ≡ false
    → Held (record { locked = true; pid = p }) (update at p inside)
takes-Held l at p x free = record {
  owned = λ q e. elim (eq_cases p q) [
    | inl (same, _) ↦ (refl, same)
    | inr (ne, _) ↦ absurd (cc ((x.owned q (sym (update_ne at p inside q ne) ∙ e)).0, free))
  ];
  holder = λ e. update_self at p inside;
  waiting = λ q e. refl;
}

data Tried (l : Sleeplock) (p : ℕ) : Acquire → Type 0 where
  finds_locked : l.locked ≡ true → Tried l p sleeps
  finds_free : l.locked ≡ false → Tried l p (acquired (record { locked = true; pid = p }))

acquiresleep-Tried : (l : Sleeplock) (p : ℕ) → Tried l p (acquiresleep l p)
unfolding acquiresleep
acquiresleep-Tried l p = elim (Bool-cases l.locked) [
  | inl t ↦ rw (t, acquiresleep) (finds_locked refl)
  | inr t ↦ rw (t, acquiresleep) (finds_free refl)
]

Tried-Held :
    (l k : Sleeplock) (at : ℕ → Place) (p : ℕ) (w : Place) (r : Acquire)
    → Held l at
    → at p ≢ inside
    → Tried l p r
    → Leaves l p r k w
    → Held k (update at p w)
Tried-Held l _ at p _ _ x was (finds_locked t) waits =
    moves-Held l at p asleep x was (λ e. cc e) (λ e. t)
Tried-Held l _ at p _ _ x was (finds_free t) goes_in = takes-Held l at p x t

awake-inside : (w : Place) → awake w ≡ inside → w ≡ inside
awake-inside outside e = absurd (cc e)
awake-inside asleep e = absurd (cc e)
awake-inside woken e = absurd (cc e)
awake-inside inside e = refl

awake-asleep : (w : Place) → awake w ≢ asleep
awake-asleep outside e = cc e
awake-asleep asleep e = cc e
awake-asleep woken e = cc e
awake-asleep inside e = cc e

leaves-Held :
    (l : Sleeplock) (at : ℕ → Place) (p : ℕ)
    → Held l at
    → at p ≡ inside
    → Held (releasesleep at).0 (update (releasesleep at).1 p outside)
unfolding releasesleep
leaves-Held l at p x here = record {
  owned = λ q e. elim (eq_cases p q) [
    | inl (same, _) ↦
        absurd (cc (sym (update_self after p outside) ∙ ap (update after p outside) same ∙ e))
    | inr (ne, _) ↦
        let in_q = awake-inside (at q) (sym (update_ne after p outside q ne) ∙ e) in
        absurd (ne (sym (x.owned p here).1 ∙ (x.owned q in_q).1))
  ];
  holder = λ e. absurd (cc e);
  waiting = λ q e. elim (eq_cases p q) [
    | inl (same, _) ↦
        absurd (cc (sym (update_self after p outside) ∙ ap (update after p outside) same ∙ e))
    | inr (ne, _) ↦ absurd (awake-asleep (at q) (sym (update_ne after p outside q ne) ∙ e))
  ];
}
  where
    after : ℕ → Place
    after q = awake (at q)

Step-Held :
    {l : Sleeplock} {at : ℕ → Place} {k : Sleeplock} {to : ℕ → Place}
    → Held l at
    → Step l at k to
    → Held k to
Step-Held {l} {at} {k} x (enters {w = w} p out r) =
    Tried-Held l k at p w (acquiresleep l p) x (λ e. cc (out, e)) (acquiresleep-Tried l p) r
Step-Held {l} {at} {k} x (retries {w = w} p out r) =
    Tried-Held l k at p w (acquiresleep l p) x (λ e. cc (out, e)) (acquiresleep-Tried l p) r
Step-Held {l} {at} {k} x (killed p out) =
    moves-Held l at p woken x (λ e. cc (out, e)) (λ e. cc e) (λ e. absurd (cc e))
Step-Held {l} {at} {k} x (leaves p here) = leaves-Held l at p x here

Reach-Held : (l : Sleeplock) (at : ℕ → Place) → Reach l at → Held l at
unfolding initsleeplock
Reach-Held _ at (unlocked out) = record {
  owned = λ p e. absurd (cc (out p, e));
  holder = λ e. absurd (cc e);
  waiting = λ p e. absurd (cc (out p, e));
}
Reach-Held _ _ (next {l = l} {at = at} r s) = Step-Held (Reach-Held l at r) s

-- In every reachable state holdingsleep answers true for a process exactly when the process has
-- come out of acquiresleep and has not called releasesleep.
pub holdingsleep-inside :
    (l : Sleeplock) (at : ℕ → Place) (p : ℕ)
    → Reach l at
    → (holdingsleep l p ≡ true) ↔ (at p ≡ inside)
unfolding holdingsleep
holdingsleep-inside l at p r = (forth, back)
  where
    x : Held l at
    x = Reach-Held l at r

    forth : holdingsleep l p ≡ true → at p ≡ inside
    forth e = elim (Bool-cases l.locked) [
      | inr t ↦ absurd (cc (t, e))
      | inl t ↦ elim (eq_cases l.pid p) [
        | inl (same, _) ↦ ap at (sym same) ∙ x.holder t
        | inr (_, u) ↦ absurd (cc (t, u, e))
      ]
    ]

    back : at p ≡ inside → holdingsleep l p ≡ true
    back e = let (t, same) = x.owned p e in rw (t, same, holdingsleep) (ground arith)

-- In every reachable state a process that sleeps on the lock waits for the process that the lock
-- names, which is inside; when that one calls releasesleep, the sleeper is woken.
pub sleeper_has_holder :
    (l : Sleeplock) (at : ℕ → Place) (p : ℕ)
    → Reach l at
    → at p ≡ asleep
    → (l.locked ≡ true) × (at l.pid ≡ inside) × ((releasesleep at).1 p ≡ woken)
unfolding releasesleep
sleeper_has_holder l at p r e =
    let x = Reach-Held l at r in let t = x.waiting p e in (t, x.holder t, ap awake e)
