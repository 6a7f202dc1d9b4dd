-- ===== src/Kernel/Log/Install.antt =====
-- `install_trans` of xv6/log.c: what holds at each of its disk writes, and when it is done.
use laboratorio_lukitas.Common.{
  ℕ, zero, suc, ◌+◌, ◌≤◌, ◌<◌, ◌≡◌, refl, ◌∙◌, ap, subst, ◌⊎◌, inl, inr, none, arith, length,
  get_or, eq_cases, update, update_self, update_ne,
}
use laboratorio_lukitas.Kernel.Log.{
  Block, Disk, Machine, log_size, bread, bwrite, install_from, install_trans,
}
use laboratorio_lukitas.Kernel.Log.Disks.{Outside, Agrees, Installs, Recovers, committed}
use laboratorio_lukitas.Kernel.Log.Trace.{Safe, bwrite-Safe}

-- Entry `i` of the header in memory.
abbrev pub home : Machine → ℕ → ℕ
home m i = get_or m.lh.block i 0

-- Between two rounds of the loop, with the entries below `tail` installed.
pub record Installing (V : Disk) (m : Machine) (tail : ℕ) : Type 0 where
  pub room : log_size < length (m.disk m.start)
  pub few : m.lh.n ≤ log_size
  pub fits : m.lh.n ≤ length m.lh.block
  pub count : get_or (m.disk m.start) 0 0 ≡ m.lh.n
  pub names : (i : ℕ) → i < m.lh.n → get_or (m.disk m.start) (suc i) 0 ≡ home m i
  pub away : (i : ℕ) → i < m.lh.n → Outside m.start (home m i)
  pub logged : (i : ℕ) → i < m.lh.n → m.disk (m.start + suc i) ≡ V (home m i)
  pub pins : (b : ℕ) → (m.dirty b ≡ none) ⊎ ((i : ℕ) × (tail ≤ i) × (i < m.lh.n) × (home m i ≡ b))
  pub rest : (b : ℕ) → Outside m.start b → Installs m.lh.n m.lh.block V m.disk tail b

pub Installing-Recovers :
    {V : Disk} {m : Machine} (tail : ℕ) → Installing V m tail → Recovers m.start V m.disk
Installing-Recovers {V} {m} tail h = committed m.lh.n m.lh.block (record {
  room = h.room;
  few = h.few;
  fits = h.fits;
  count = h.count;
  names = h.names;
  away = h.away;
  logged = h.logged;
  rest = λ b out. elim (h.rest b out) [
    | inl e ↦ inl e
    | inr (i, _, lt, e) ↦ inr (i, omega arith, lt, e)
  ];
})

pub bread-unpinned : (m : Machine) (b : ℕ) → m.dirty b ≡ none → bread m b ≡ m.disk b
unfolding bread
bread-unpinned m b e = rw (e, bread) refl

-- No block of the log is pinned.
pub log_unpinned :
    {V : Disk} {m : Machine} (tail b : ℕ)
    → Installing V m tail
    → m.start ≤ b
    → b ≤ m.start + log_size
    → m.dirty b ≡ none
log_unpinned {V} {m} tail b h lo hi = elim (h.pins b) [
  | inl e ↦ e
  | inr (j, _, lt, e) ↦ absurd (omega (arith, h.away j lt))
]

-- One round.
install_step :
    {V : Disk} (m : Machine) (tail : ℕ)
    → Installing V m tail
    → tail < m.lh.n
    → Installing V (bwrite m (home m tail) (bread m (m.start + suc tail))) (suc tail)
unfolding bwrite
install_step {V} m tail h lt = record {
  room = rw (at_start) h.room;
  few = h.few;
  fits = h.fits;
  count = rw at_start h.count;
  names = λ i k. rw at_start (h.names i k);
  away = h.away;
  logged =
      λ i k. update_ne m.disk t x (m.start + suc i) (omega (arith, h.away tail lt)) ∙ h.logged i k;
  pins = λ b. elim (eq_cases t b) [
    | inl (e, _) ↦ inl (rw (← e) (update_self m.dirty t none))
    | inr (ne, _) ↦ elim (h.pins b) [
      | inl e ↦ inl (update_ne m.dirty t none b ne ∙ e)
      | inr (i, le, k, e) ↦ inr (i, after b ne i le e, k, e)
    ]
  ];
  rest = λ b out. elim (eq_cases t b) [
    | inl (e, _) ↦ inl (rw (← e) (update_self m.disk t x ∙ copied))
    | inr (ne, _) ↦ elim (h.rest b out) [
      | inl e ↦ inl (update_ne m.disk t x b ne ∙ e)
      | inr (i, le, k, e) ↦ inr (i, after b ne i le e, k, e)
    ]
  ];
}
  where
    t : ℕ
    t = home m tail

    x : Block
    x = bread m (m.start + suc tail)

    copied : x ≡ V t
    copied =
        bread-unpinned m (m.start + suc tail)
          (log_unpinned tail (m.start + suc tail) h (omega arith) (omega (arith, h.few)))
        ∙ h.logged tail lt

    at_start : update m.disk t x m.start ≡ m.disk m.start
    at_start = update_ne m.disk t x m.start (omega (arith, h.away tail lt))

    after : (b : ℕ) → (t ≡ b → ⊥) → (i : ℕ) → tail ≤ i → home m i ≡ b → suc tail ≤ i
    after b ne i le e = elim (eq_cases tail i) [
      | inl (same, _) ↦ absurd (ne (ap (home m) same ∙ e))
      | inr (other, _) ↦ omega arith
    ]

-- The loop.
install_loop :
    {V : Disk} (rounds tail : ℕ) (m : Machine)
    → tail + rounds ≡ m.lh.n
    → Installing V m tail
    → Installing V (install_from rounds tail m) m.lh.n
unfolding install_from bwrite
install_loop {V} zero tail m e h = subst (Installing V m) (omega arith) h
install_loop {V} (suc rounds) tail m e h =
    install_loop rounds (suc tail) (bwrite m (home m tail) (bread m (m.start + suc tail)))
      (omega arith) (install_step m tail h (omega arith))

install_loop-Safe :
    {V : Disk} {P : Disk → Type 0} {d : Disk} (rounds tail : ℕ) (m : Machine)
    → ((e : Disk) → Recovers m.start V e → P e)
    → tail + rounds ≡ m.lh.n
    → Installing V m tail
    → Safe P d m
    → Safe P d (install_from rounds tail m)
unfolding install_from bwrite
install_loop-Safe zero tail m imp e h s = s
install_loop-Safe {V} {P} (suc rounds) tail m imp e h s =
    let t = home m tail in
    let x = bread m (m.start + suc tail) in
    let next : Installing V (bwrite m t x) (suc tail) = install_step m tail h (omega arith) in
    install_loop-Safe rounds (suc tail) (bwrite m t x) imp (omega arith) next
      (bwrite-Safe P t x s (imp _ (Installing-Recovers (suc tail) next)))

pub start-install_from :
    (rounds tail : ℕ) (m : Machine) → (install_from rounds tail m).start ≡ m.start
unfolding install_from bwrite
start-install_from zero tail m = refl
start-install_from (suc rounds) tail m =
    start-install_from rounds (suc tail) (bwrite m (home m tail) (bread m (m.start + suc tail)))

pub lh-install_from : (rounds tail : ℕ) (m : Machine) → (install_from rounds tail m).lh ≡ m.lh
unfolding install_from bwrite
lh-install_from zero tail m = refl
lh-install_from (suc rounds) tail m =
    lh-install_from rounds (suc tail) (bwrite m (home m tail) (bread m (m.start + suc tail)))

module _ {V : Disk} (m : Machine) (h : Installing V m 0) where
  pub install_trans-Installing : Installing V (install_trans m) m.lh.n
  unfolding install_trans
  install_trans-Installing = install_loop m.lh.n 0 m (omega arith) h

  pub install_trans-Safe :
      {P : Disk → Type 0} {d : Disk}
      → ((e : Disk) → Recovers m.start V e → P e)
      → Safe P d m
      → Safe P d (install_trans m)
  unfolding install_trans
  install_trans-Safe imp s = install_loop-Safe m.lh.n 0 m imp (omega arith) h s

  -- When the loop is done, every block outside the log holds what the log held.
  pub install_trans-Agrees : Agrees m.start V (install_trans m).disk
  unfolding install_trans
  install_trans-Agrees b out = elim (done.rest b (rw start-install_from out)) [
    | inl e ↦ e
    | inr (i, le, lt, _) ↦ absurd (omega (arith, ap (λ h. h.n) (lh-install_from m.lh.n 0 m)))
  ]
    where
      done : Installing V (install_trans m) m.lh.n
      done = install_trans-Installing
