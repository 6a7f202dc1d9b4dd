-- ===== src/Kernel/Proc/Steps.antt =====
-- The steps of xv6/proc.c on the process table, and the invariant that they keep.
use laboratorio_lukitas.Common.{
  ℕ, ◌<◌, ◌≡◌, refl, ◌∙◌, sym, ◌≢◌, inl, inr, true, false, Option, some, arith, eq_cases, update,
  update_self, update_ne, subst, Bool, ◌||◌,
}
use laboratorio_lukitas.Kernel.Proc.{
  Table, Ptable, Proc, ProcState, embryo, nproc, is_unused, is_zombie, Chan, wakeup1, wait, reaped,
  sleeps, sleep, sleep_ends, yield, schedule, kill, find_unused, alloc_entry, alloc_stack,
  copy_into, exit,
}
use laboratorio_lukitas.Kernel.Proc.Adopt.{is_live}

-- The steps of processes and of the scheduler that change the table. A process acts only while it is
-- live; init never exits.
pub data Step (initproc : ℕ) (t : Ptable) : Ptable → Type 0 where
  -- The first part of `fork`, as long as the numbers of processes fit an int.
  allocates :
      (cur : ℕ)
      → is_live (t.proc cur).state ≡ true
      → t.nextpid < 2147483647
      → Step initproc t (alloc_entry t (find_unused nproc 0 t.proc)).1
  -- The rest of it, with the entry `i`.
  fork_ends :
      (cur i : ℕ) (stack pages : Option ℕ)
      → cur < nproc
      → is_live (t.proc cur).state ≡ true
      → (t.proc i).state ≡ embryo
      → Step initproc t (copy_into cur (alloc_stack (some i, t) stack) pages).1
  exits :
      (cur : ℕ) {u : Table}
      → is_live (t.proc cur).state ≡ true
      → exit t.proc initproc cur ≡ some u
      → Step initproc t (record t { proc = u })
  reaps_child :
      (cur pid : ℕ) {u : Table}
      → wait t.proc cur ≡ reaped pid u
      → Step initproc t (record t { proc = u })
  waits_child :
      (cur : ℕ) {u : Table}
      → is_live (t.proc cur).state ≡ true
      → wait t.proc cur ≡ sleeps u
      → Step initproc t (record t { proc = u })
  sleeps_on :
      (cur : ℕ) (c : Chan)
      → is_live (t.proc cur).state ≡ true
      → Step initproc t (record t { proc = sleep t.proc cur c })
  sleep_returns :
      (cur : ℕ)
      → is_live (t.proc cur).state ≡ true
      → Step initproc t (record t { proc = sleep_ends t.proc cur })
  yields :
      (cur : ℕ)
      → is_live (t.proc cur).state ≡ true
      → Step initproc t (record t { proc = yield t.proc cur })
  schedules : (i : ℕ) → Step initproc t (record t { proc = schedule t.proc i })
  wakes : (c : Chan) → Step initproc t (record t { proc = wakeup1 c t.proc })
  kills : (pid : ℕ) → Step initproc t (record t { proc = (kill t.proc pid).1 })

pub data Reach (initproc : ℕ) (t : Ptable) : Ptable → Type 0 where
  here : Reach initproc t t
  next : {u v : Ptable} → Reach initproc t u → Step initproc u v → Reach initproc t v

-- Alive, or exited: in use, and not an embryo.
abbrev pub is_member : ProcState → Bool
is_member s = is_live s || is_zombie s

abbrev pub HasParent : Table → ℕ → Type 0
HasParent t i = (p : ℕ) × (p < nproc) × ((t i).parent ≡ some p) × (is_live (t p).state ≡ true)

-- Init is live; every other entry that is alive or has exited has a live parent; the pids of used
-- entries have been given out, and are distinct.
pub record Family (initproc : ℕ) (t : Ptable) : Type 0 where
  pub in_table : initproc < nproc
  pub init_live : is_live (t.proc initproc).state ≡ true
  pub parents :
      (i : ℕ) → i < nproc → initproc ≢ i → is_member (t.proc i).state ≡ true → HasParent t.proc i
  pub pids : (i : ℕ) → i < nproc → is_unused (t.proc i).state ≡ false → (t.proc i).pid < t.nextpid
  pub distinct :
      (i j : ℕ)
      → i < nproc
      → j < nproc
      → is_unused (t.proc i).state ≡ false
      → is_unused (t.proc j).state ≡ false
      → (t.proc i).pid ≡ (t.proc j).pid
      → i ≡ j

-- A change that the family does not see.
pub record Shape (p q : Proc) : Type 0 where
  pub live : is_live q.state ≡ is_live p.state
  pub unused : is_unused q.state ≡ is_unused p.state
  pub member : is_member q.state ≡ is_member p.state
  pub pid : q.pid ≡ p.pid
  pub parent : q.parent ≡ p.parent

pub Shape-refl : (p : Proc) → Shape p p
Shape-refl p = record { live = refl; unused = refl; member = refl; pid = refl; parent = refl }

pub live_used : (p : Proc) → is_live p.state ≡ true → is_unused p.state ≡ false
live_used p h = ground arith

pub Shape-Family :
    (initproc : ℕ) (t : Ptable) (u : Table)
    → Family initproc t
    → ((j : ℕ) → Shape (t.proc j) (u j))
    → Family initproc (record t { proc = u })
Shape-Family initproc t u f same = record {
  in_table = f.in_table;
  init_live = (same initproc).live ∙ f.init_live;
  parents = λ i lt ne used.
      let (p, below, e, live) = f.parents i lt ne (sym (same i).member ∙ used) in
      (p, below, (same i).parent ∙ e, (same p).live ∙ live);
  pids = λ i lt used. omega (arith, (same i).pid, f.pids i lt (sym (same i).unused ∙ used));
  distinct = λ i j li lj ui uj e.
      f.distinct i j li lj (sym (same i).unused ∙ ui) (sym (same j).unused ∙ uj)
        (sym (same i).pid ∙ e ∙ (same j).pid);
}

-- An update of one entry that the family does not see.
pub update-Shape :
    (t : Table) (i : ℕ) (q : Proc) → Shape (t i) q → (j : ℕ) → Shape (t j) (update t i q j)
update-Shape t i q h j = elim (eq_cases i j) [
  | inl (e, _) ↦
      subst (λ k. Shape (t k) (update t i q k)) e (subst (Shape (t i)) (sym (update_self t i q)) h)
  | inr (ne, _) ↦ subst (Shape (t j)) (sym (update_ne t i q j ne)) (Shape-refl (t j))
]
