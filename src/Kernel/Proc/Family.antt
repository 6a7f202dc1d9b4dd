-- ===== src/Kernel/Proc/Family.antt =====
-- Processes of xv6/proc.c as a family: no living or exited process is ever without a living parent.
use laboratorio_lukitas.Common.{
  ℕ, ◌<◌, ◌≡◌, refl, ◌∙◌, ap, sym, ◌≢◌, inl, inr, true, false, Option, none, some, arith,
  update_self, update_ne, ◌||◌, eq_cases, Bool-cases, Option-cases, subst,
}
use laboratorio_lukitas.Kernel.Proc.{
  Table, Ptable, Proc, ProcState, Waited, nproc, points_to, is_unused, is_zombie, Chan, wakeup1,
  reaped, sleeps, sleep, sleep_ends, find_unused, alloc_entry, alloc_stack, copy_into, yield,
  schedule, find_pid, kill,
}
use laboratorio_lukitas.Kernel.Proc.Wait.{is_child, WaitSpec, reaps, fails, waits, wait_lem}
use laboratorio_lukitas.Kernel.Proc.Adopt.{is_live, wake-Similar}
use laboratorio_lukitas.Kernel.Proc.Exit.{Exited, exit_lem}
use laboratorio_lukitas.Kernel.Proc.Fork.{Search, hit, miss, find_unused-Search, twice-Only}
use laboratorio_lukitas.Kernel.Proc.Steps.{
  Step, allocates, fork_ends, sleep_returns, is_member, exits, reaps_child, waits_child, sleeps_on,
  yields, schedules, wakes, kills, Reach, here, next, Family, Shape, Shape-refl, live_used,
  Shape-Family, update-Shape,
}
use laboratorio_lukitas.Kernel.Proc.Members.{removed-Family, allocated-Family, hatched-Family}

unused_dead : (p : Proc) → is_unused p.state ≡ true → is_live p.state ≡ false
unused_dead p h = ground arith

zombie_dead : (p : Proc) → is_zombie p.state ≡ true → is_live p.state ≡ false
zombie_dead p h = ground arith

alloc-Family :
    (initproc : ℕ) (t : Ptable) (found : Option ℕ)
    → Family initproc t
    → t.nextpid < 2147483647
    → Search t.proc nproc 0 found
    → Family initproc (alloc_entry t found).1
unfolding alloc_entry
alloc-Family initproc t _ f few (miss all) = f
alloc-Family initproc t _ f few (hit i le lt free) =
    let q = record (t.proc i) { state = ProcState.embryo; pid = t.nextpid } in
    allocated-Family initproc t (alloc_entry t (some i)).1 i f free
      (ap (λ (p : Proc). is_member p.state) (update_self t.proc i q))
      (ap (λ (p : Proc). p.pid) (update_self t.proc i q)) (λ j ne. update_ne t.proc i q j ne)
      (omega arith)

embryo_dead : (p : Proc) → p.state ≡ ProcState.embryo → is_live p.state ≡ false
embryo_dead p e = ap is_live e

fork_ends-Family :
    (initproc : ℕ) (t : Ptable) (cur i : ℕ) (stack pages : Option ℕ)
    → Family initproc t
    → cur < nproc
    → is_live (t.proc cur).state ≡ true
    → (t.proc i).state ≡ ProcState.embryo
    → Family initproc (copy_into cur (alloc_stack (some i, t) stack) pages).1
unfolding alloc_stack copy_into
fork_ends-Family initproc t cur i none pages f lt live e =
    removed-Family initproc t _ i f (embryo_dead (t.proc i) e)
      (ap (λ (p : Proc). is_unused p.state) (update_self t.proc i _))
      (λ j ne. update_ne t.proc i _ j ne) (omega arith)
fork_ends-Family initproc t cur i (some page) none f lt live e =
    removed-Family initproc t _ i f (embryo_dead (t.proc i) e)
      (ap (λ (p : Proc). is_unused p.state)
        (update_self (alloc_stack (some i, t) (some page)).1.proc i _))
      (twice-Only t.proc i _ _) (omega arith)
fork_ends-Family initproc t cur i (some page) (some pgdir) f lt live e =
    hatched-Family initproc t _ cur i f lt live (ap is_unused e)
      (ap (λ (p : Proc). is_live p.state)
        (update_self (alloc_stack (some i, t) (some page)).1.proc i _))
      (ap (λ (p : Proc). p.parent) (update_self (alloc_stack (some i, t) (some page)).1.proc i _))
      (ap (λ (p : Proc). p.pid) (update_self (alloc_stack (some i, t) (some page)).1.proc i _)
        ∙ ap (λ (p : Proc). p.pid)
            (update_self t.proc i (record (t.proc i) { kstack = some page })))
      (twice-Only t.proc i _ _) refl

live_member : (p : Proc) → is_live p.state ≡ true → is_member p.state ≡ true
live_member p h = ground arith

exit-Family :
    (initproc : ℕ) (t : Ptable) (cur : ℕ) {u : Table}
    → Family initproc t
    → is_live (t.proc cur).state ≡ true
    → cur ≢ initproc
    → Exited t.proc initproc cur u
    → Family initproc (record t { proc = u })
exit-Family initproc t cur {u} f live not_init x = record {
  in_table = f.in_table;
  init_live = init_live;
  parents = λ i lt ne used. elim (Bool-cases (is_child t.proc cur i)) [
    | inl child ↦ (initproc, f.in_table, x.orphans i lt child, init_live)
    | inr other ↦
        let (p, below, e, lp) = f.parents i lt ne (was_member i used) in
        (p, below, x.kept i other ∙ e, (x.others p (not_cur i p other e)).live ∙ lp)
  ];
  pids = λ i lt used. omega (arith, same_pid i, f.pids i lt (was_used i used));
  distinct = λ i j li lj ui uj e.
      f.distinct i j li lj (was_used i ui) (was_used j uj) (sym (same_pid i) ∙ e ∙ same_pid j);
}
  where
    init_live : is_live (u initproc).state ≡ true
    init_live = (x.others initproc not_init).live ∙ f.init_live

    was_used : (i : ℕ) → is_unused (u i).state ≡ false → is_unused (t.proc i).state ≡ false
    was_used i used = elim (eq_cases cur i) [
      | inl (e, _) ↦ subst (λ k. is_unused (t.proc k).state ≡ false) e (live_used (t.proc cur) live)
      | inr (ne, _) ↦ sym (x.others i ne).unused ∙ used
    ]

    was_member : (i : ℕ) → is_member (u i).state ≡ true → is_member (t.proc i).state ≡ true
    was_member i m = elim (eq_cases cur i) [
      | inl (e, _) ↦
          subst (λ k. is_member (t.proc k).state ≡ true) e (live_member (t.proc cur) live)
      | inr (ne, _) ↦
          ap (λ b. b || is_zombie (t.proc i).state) (sym (x.others i ne).live)
          ∙ ap (λ b. is_live (u i).state || b) (sym (x.others i ne).zombie)
          ∙ m
    ]

    same_pid : (i : ℕ) → (u i).pid ≡ (t.proc i).pid
    same_pid i = elim (eq_cases cur i) [
      | inl (e, _) ↦ subst (λ k. (u k).pid ≡ (t.proc k).pid) e x.own_pid
      | inr (ne, _) ↦ (x.others i ne).pid
    ]

    not_cur : (i p : ℕ) → is_child t.proc cur i ≡ false → (t.proc i).parent ≡ some p → cur ≢ p
    not_cur i p other e same = ground (arith, ap (λ q. points_to q cur) e)

wait-Family :
    (initproc : ℕ) (t : Ptable) (cur pid : ℕ) {u : Table} {w : Waited}
    → Family initproc t
    → w ≡ reaped pid u
    → WaitSpec t.proc cur w
    → Family initproc (record t { proc = u })
wait-Family initproc t cur pid {u} f e (reaps i {t'} lt child dead at only) =
    subst (λ v. Family initproc (record t { proc = v })) (cc e)
      (removed-Family initproc t (record t { proc = t' }) i f (zombie_dead (t.proc i) dead)
        (ap is_unused at.state) only (omega arith))
wait-Family initproc t cur pid f e (fails none_yet why) = cc e
wait-Family initproc t cur pid f e (waits none_yet some_kid alive at only) = cc e

waiting-Family :
    (initproc : ℕ) (t : Ptable) (cur : ℕ) {u : Table} {w : Waited}
    → Family initproc t
    → is_live (t.proc cur).state ≡ true
    → w ≡ sleeps u
    → WaitSpec t.proc cur w
    → Family initproc (record t { proc = u })
waiting-Family initproc t cur f live e (reaps i lt child dead at only) = cc e
waiting-Family initproc t cur f live e (fails none_yet why) = cc e
waiting-Family initproc t cur {u} f live e (waits {t'} none_yet some_kid alive at only) =
    subst (λ v. Family initproc (record t { proc = v })) (cc e)
      (Shape-Family initproc t t' f λ j. elim (eq_cases cur j) [
        | inl (same, _) ↦
            subst (λ k. Shape (t.proc k) (t' k)) same (subst (Shape (t.proc cur)) (sym at) asleep)
        | inr (ne, _) ↦ subst (Shape (t.proc j)) (sym (only j ne)) (Shape-refl (t.proc j))
      ])
  where
    asleep :
        Shape
          (t.proc cur)
          (record (t.proc cur) { chan = Chan.entry cur; state = ProcState.sleeping })
    asleep = record {
      live = sym live;
      unused = sym (live_used (t.proc cur) live);
      member = sym (live_member (t.proc cur) live);
      pid = refl;
      parent = refl;
    }

kill-Shape : (t : Table) (pid : ℕ) (j : ℕ) → Shape (t j) ((kill t pid).1 j)
unfolding kill
kill-Shape t pid j = elim (Option-cases (find_pid nproc 0 pid t)) [
  | inl e ↦ rw (e, kill) (Shape-refl (t j))
  | inr (i, e) ↦ rw (e, kill) (update-Shape t i _ (ground arith) j)
]

wakeup1-Shape : (c : Chan) (t : Table) (j : ℕ) → Shape (t j) (wakeup1 c t j)
unfolding wakeup1
wakeup1-Shape c t j =
    let h = wake-Similar c (t j) in
    record {
      live = h.0.live;
      unused = h.0.unused;
      member =
          ap (λ b. b || is_zombie (wakeup1 c t j).state) h.0.live
          ∙ ap (λ b. is_live (t j).state || b) h.0.zombie;
      pid = h.0.pid;
      parent = h.1;
    }

schedule-Shape : (t : Table) (i j : ℕ) → Shape (t j) (schedule t i j)
unfolding schedule
schedule-Shape t i j = ground arith

Step-Family :
    {initproc : ℕ} {t u : Ptable} → Step initproc t u → Family initproc t → Family initproc u
unfolding sleep sleep_ends yield
Step-Family {initproc} {t} (allocates cur live few) f =
    alloc-Family initproc t (find_unused nproc 0 t.proc) f few (find_unused-Search nproc 0 t.proc)
Step-Family {initproc} {t} (fork_ends cur i stack pages lt live e) f =
    fork_ends-Family initproc t cur i stack pages f lt live e
Step-Family {initproc} {t} (sleep_returns cur live) f =
    Shape-Family initproc t _ f (update-Shape t.proc cur _ (ground arith))
Step-Family {initproc} {t} (exits cur {u} live e) f = elim (exit_lem t.proc initproc cur) [
  | inl (_, panics) ↦ cc (sym panics ∙ e)
  | inr (u', done, x) ↦
      subst (λ v. Family initproc (record t { proc = v })) (cc (sym done ∙ e))
        (exit-Family initproc t cur f live x.not_init x)
]
Step-Family {initproc} {t} (reaps_child cur pid e) f =
    wait-Family initproc t cur pid f e (wait_lem t.proc cur)
Step-Family {initproc} {t} (waits_child cur live e) f =
    waiting-Family initproc t cur f live e (wait_lem t.proc cur)
Step-Family {initproc} {t} (sleeps_on cur c live) f =
    Shape-Family initproc t _ f (update-Shape t.proc cur _ (ground arith))
Step-Family {initproc} {t} (yields cur live) f =
    Shape-Family initproc t _ f (update-Shape t.proc cur _ (ground arith))
Step-Family {initproc} {t} (schedules i) f = Shape-Family initproc t _ f (schedule-Shape t.proc i)
Step-Family {initproc} {t} (wakes c) f = Shape-Family initproc t _ f (wakeup1-Shape c t.proc)
Step-Family {initproc} {t} (kills pid) f = Shape-Family initproc t _ f (kill-Shape t.proc pid)

-- In every state that the two parts of fork, exits, waits, sleeps, wakeups, kills and the scheduler can
-- reach from a family, as long as the numbers of processes fit an int: init is live, every other
-- process that is alive or has exited has a live parent to wait for it, and the pids of all entries in
-- use, embryos included, are distinct and were given out.
pub Reach-Family :
    {initproc : ℕ} {t u : Ptable} → Reach initproc t u → Family initproc t → Family initproc u
Reach-Family here f = f
Reach-Family (next r st) f = Step-Family st (Reach-Family r f)
