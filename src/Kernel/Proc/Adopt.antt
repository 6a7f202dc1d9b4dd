-- ===== src/Kernel/Proc/Adopt.antt =====
-- Adoption in `exit` of xv6/proc.c: the loop that hands the children of the caller to init.
use laboratorio_lukitas.Common.{
  ℕ, zero, suc, ◌+◌, ◌≤◌, ◌<◌, ◌≡◌, refl, ◌∙◌, ap, sym, ◌⊎◌, inl, inr, update, ◌||◌, Bool, true,
  false, ◌&&◌, some, arith, eq_cases, Bool-cases, subst, ltb, leb, if◌then◌else◌, ◌==◌,
}
use laboratorio_lukitas.Kernel.Proc.{
  Table, Proc, ProcState, is_zombie, is_unused, is_sleeping, sleeping, running, runnable, Chan,
  entry, same_chan, wake, wakeup1, adopt_one, adopt,
}
use laboratorio_lukitas.Kernel.Proc.Wait.{is_child}

-- `running`, `runnable` or `sleeping`.
abbrev pub is_live : ProcState → Bool
is_live running = true
is_live runnable = true
is_live sleeping = true
is_live _ = false

-- An entry changed at most in its parent, and by being woken up.
pub record Similar (p q : Proc) : Type 0 where
  pub live : is_live q.state ≡ is_live p.state
  pub unused : is_unused q.state ≡ is_unused p.state
  pub zombie : is_zombie q.state ≡ is_zombie p.state
  pub pid : q.pid ≡ p.pid
  pub ofile : q.ofile ≡ p.ofile
  pub cwd : q.cwd ≡ p.cwd
  pub chan : q.chan ≡ p.chan
  pub killed : q.killed ≡ p.killed
  pub sz : q.sz ≡ p.sz
  pub pgdir : q.pgdir ≡ p.pgdir
  pub kstack : q.kstack ≡ p.kstack
  pub eax : q.eax ≡ p.eax
  pub name : q.name ≡ p.name
  pub asleep : is_sleeping q.state ≡ true → is_sleeping p.state ≡ true

pub Similar-refl : (p : Proc) → Similar p p
Similar-refl p = record {
  live = refl;
  unused = refl;
  zombie = refl;
  pid = refl;
  ofile = refl;
  cwd = refl;
  chan = refl;
  killed = refl;
  sz = refl;
  pgdir = refl;
  kstack = refl;
  eax = refl;
  name = refl;
  asleep = λ h. h;
}

pub Similar-trans : {p q r : Proc} → Similar p q → Similar q r → Similar p r
Similar-trans h k = record {
  live = k.live ∙ h.live;
  unused = k.unused ∙ h.unused;
  zombie = k.zombie ∙ h.zombie;
  pid = k.pid ∙ h.pid;
  ofile = k.ofile ∙ h.ofile;
  cwd = k.cwd ∙ h.cwd;
  chan = k.chan ∙ h.chan;
  killed = k.killed ∙ h.killed;
  sz = k.sz ∙ h.sz;
  pgdir = k.pgdir ∙ h.pgdir;
  kstack = k.kstack ∙ h.kstack;
  eax = k.eax ∙ h.eax;
  name = k.name ∙ h.name;
  asleep = λ s. h.asleep (k.asleep s);
}

pub wake-Similar : (c : Chan) (p : Proc) → Similar p (wake c p) × ((wake c p).parent ≡ p.parent)
unfolding wake
wake-Similar c p = (ground arith, ground arith)

-- The state is as before, or the process slept on one of two channels and was woken.
abbrev pub Woken : Chan → Chan → Proc → Proc → Type 0
Woken c d p q =
    (q.state ≡ p.state)
    ⊎ ((is_sleeping p.state ≡ true)
        × ((same_chan p.chan c || same_chan p.chan d) ≡ true)
        × (q.state ≡ runnable))

pub Woken-trans :
    (c d : Chan) (p q r : Proc) → q.chan ≡ p.chan → Woken c d p q → Woken c d q r → Woken c d p r
Woken-trans c d p q r same (inl e) (inl f) = inl (f ∙ e)
Woken-trans c d p q r same (inl e) (inr (asleep, on, f)) =
    inr
      (ap is_sleeping (sym e) ∙ asleep, ap (λ h. same_chan h c || same_chan h d) (sym same) ∙ on, f)
Woken-trans c d p q r same (inr (asleep, on, e)) (inl f) = inr (asleep, on, f ∙ e)
Woken-trans c d p q r same (inr (asleep, on, e)) (inr (again, _, _)) =
    absurd (cc (sym again ∙ ap is_sleeping e))

or_right : (a b : Bool) → b ≡ true → (a || b) ≡ true
or_right true b h = refl
or_right false b h = h

or_left : (a b : Bool) → a ≡ true → (a || b) ≡ true
or_left true b h = refl
or_left false b h = absurd (cc h)

and_both : (a b : Bool) → (a && b) ≡ true → (a ≡ true) × (b ≡ true)
and_both true b h = (refl, h)
and_both false b h = absurd (cc h)

wake-one :
    (c : Chan) (p : Proc)
    → ((wake c p).state ≡ p.state)
      ⊎ ((is_sleeping p.state ≡ true) × (same_chan p.chan c ≡ true) × ((wake c p).state ≡ runnable))
unfolding wake
wake-one c p = elim (Bool-cases (is_sleeping p.state && same_chan p.chan c)) [
  | inl t ↦
      let (asleep, on) = and_both (is_sleeping p.state) (same_chan p.chan c) t in
      inr (asleep, on, ap (λ b. (if b then record p { state = runnable } else p).state) t)
  | inr t ↦ inl (ap (λ b. (if b then record p { state = runnable } else p).state) t)
]

pub wake-Woken_first : (c d : Chan) (p : Proc) → Woken c d p (wake c p)
wake-Woken_first c d p = elim (wake-one c p) [
  | inl e ↦ inl e
  | inr (asleep, on, e) ↦ inr (asleep, or_left (same_chan p.chan c) (same_chan p.chan d) on, e)
]

wake-Woken_second : (c d : Chan) (p : Proc) → Woken c d p (wake d p)
wake-Woken_second c d p = elim (wake-one d p) [
  | inl e ↦ inl e
  | inr (asleep, on, e) ↦ inr (asleep, or_right (same_chan p.chan c) (same_chan p.chan d) on, e)
]

-- No process sleeps on the channel after the wakeup.
pub wake_awake :
    (c : Chan) (p : Proc) → same_chan p.chan c ≡ true → is_sleeping (wake c p).state ≡ false
unfolding wake
wake_awake c p h = ground arith

adopt_one-Similar :
    (i cur initproc : ℕ) (t : Table) (j : ℕ) → Similar (t j) (adopt_one i cur initproc t j)
unfolding adopt_one wakeup1 wake
adopt_one-Similar i cur initproc t j = ground arith

-- The entry with its new parent.
adopted_child :
    (i initproc : ℕ) (t : Table) (j : ℕ)
    → ((update t i (record (t i) { parent = some initproc }) j).state ≡ (t j).state)
      × ((update t i (record (t i) { parent = some initproc }) j).chan ≡ (t j).chan)
adopted_child i initproc t j = ground arith

adopt_one-Woken :
    (c : Chan) (i cur initproc : ℕ) (t : Table) (j : ℕ)
    → Woken c (entry initproc) (t j) (adopt_one i cur initproc t j)
unfolding adopt_one wakeup1
adopt_one-Woken c i cur initproc t j =
    let moved = adopted_child i initproc t j in
    let child = update t i (record (t i) { parent = some initproc }) in
    elim (Bool-cases (is_child t cur i)) [
      | inr other ↦ rw (other, adopt_one) (inl refl)
      | inl own ↦ elim (Bool-cases (is_zombie (t i).state)) [
        | inr alive ↦ rw (own, alive, adopt_one) (inl moved.0)
        | inl dead ↦
            rw (own, dead, adopt_one)
              (Woken-trans c (entry initproc) (t j) (child j) (wake (entry initproc) (child j))
                moved.1 (inl moved.0) (wake-Woken_second c (entry initproc) (child j)))
      ]
    ]

pub adopt-Woken :
    (c : Chan) (rounds i cur initproc : ℕ) (t : Table) (j : ℕ)
    → Woken c (entry initproc) (t j) (adopt rounds i cur initproc t j)
unfolding adopt
adopt-Woken c zero i cur initproc t j = inl refl
adopt-Woken c (suc rounds) i cur initproc t j =
    let t' = adopt_one i cur initproc t in
    Woken-trans c (entry initproc) (t j) (t' j) (adopt rounds (suc i) cur initproc t' j)
      (adopt_one-Similar i cur initproc t j).chan (adopt_one-Woken c i cur initproc t j)
      (adopt-Woken c rounds (suc i) cur initproc t' j)

adopt_one_parent :
    (i cur initproc : ℕ) (t : Table) (j : ℕ)
    → (adopt_one i cur initproc t j).parent
      ≡ (if (i == j) && is_child t cur j then some initproc else (t j).parent)
unfolding adopt_one wakeup1 wake
adopt_one_parent i cur initproc t j = ground arith

-- A zombie child's adoption wakes init.
adopt_one_wakes :
    (i cur initproc : ℕ) (t : Table)
    → is_child t cur i ≡ true
    → is_zombie (t i).state ≡ true
    → same_chan (adopt_one i cur initproc t initproc).chan (entry initproc) ≡ true
    → is_sleeping (adopt_one i cur initproc t initproc).state ≡ false
unfolding adopt_one wakeup1 wake
adopt_one_wakes i cur initproc t c z e = ground arith

pub adopt-Similar :
    (rounds i cur initproc : ℕ) (t : Table) (j : ℕ)
    → Similar (t j) (adopt rounds i cur initproc t j)
unfolding adopt
adopt-Similar zero i cur initproc t j = Similar-refl (t j)
adopt-Similar (suc rounds) i cur initproc t j =
    Similar-trans (adopt_one-Similar i cur initproc t j)
      (adopt-Similar rounds (suc i) cur initproc (adopt_one i cur initproc t) j)

-- Exactly the children among the entries of the loop get init for their parent.
pub adopt_parent :
    (rounds i cur initproc : ℕ) (t : Table) (j : ℕ)
    → (adopt rounds i cur initproc t j).parent ≡ (
        if leb i j && (ltb j (i + rounds) && is_child t cur j) then some initproc else (t j).parent)
unfolding adopt
adopt_parent zero i cur initproc t j = ground arith
adopt_parent (suc rounds) i cur initproc t j = ground (
  arith,
  adopt_parent rounds (suc i) cur initproc (adopt_one i cur initproc t) j,
  adopt_one_parent i cur initproc t j,
)

pub adopt_wakes :
    (rounds i cur initproc : ℕ) (t : Table) (k : ℕ)
    → i ≤ k
    → k < i + rounds
    → is_child t cur k ≡ true
    → is_zombie (t k).state ≡ true
    → same_chan (adopt rounds i cur initproc t initproc).chan (entry initproc) ≡ true
    → is_sleeping (adopt rounds i cur initproc t initproc).state ≡ false
unfolding adopt
adopt_wakes zero i cur initproc t k le lt c z e = absurd (omega arith)
adopt_wakes (suc rounds) i cur initproc t k le lt c z e =
    let t' = adopt_one i cur initproc t in
    let later = adopt-Similar rounds (suc i) cur initproc t' initproc in
    let ih = adopt_wakes rounds (suc i) cur initproc t' k in
    elim (eq_cases i k) [
      | inl (same, _) ↦ still_awake later (
          adopt_one_wakes i cur initproc t (at same (λ j. is_child t cur j ≡ true) c)
            (at same (λ j. is_zombie (t j).state ≡ true) z)
            (ap (λ h. same_chan h (entry initproc)) (sym later.chan) ∙ e))
      | inr (ne, test) ↦
          ih (omega arith) (omega arith) (ground (arith, adopt_one_parent i cur initproc t k))
            ((adopt_one-Similar i cur initproc t k).zombie ∙ z) e
    ]
  where
    at : i ≡ k → (P : ℕ → Type 0) → P k → P i
    at same P h = subst P (sym same) h

    still_awake :
        {p q : Proc} → Similar p q → is_sleeping p.state ≡ false → is_sleeping q.state ≡ false
    still_awake {p} {q} h awake = elim (Bool-cases (is_sleeping q.state)) [
      | inl asleep ↦ cc (h.asleep asleep)
      | inr e ↦ e
    ]
