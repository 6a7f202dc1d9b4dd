-- ===== src/Kernel/Proc/Members.antt =====
-- What a step of xv6/proc.c that adds or removes one process does to the family.
use laboratorio_lukitas.Common.{
  ℕ, ◌+◌, ◌≤◌, ◌<◌, ◌≡◌, ◌∙◌, ap, sym, ◌≢◌, inl, inr, true, false, some, arith, eq_cases, subst,
}
use laboratorio_lukitas.Kernel.Proc.{Ptable, Proc, nproc, is_unused}
use laboratorio_lukitas.Kernel.Proc.Wait.{Only}
use laboratorio_lukitas.Kernel.Proc.Adopt.{is_live}
use laboratorio_lukitas.Kernel.Proc.Steps.{Family, HasParent, live_used, is_member}

pub member_used : (p : Proc) → is_member p.state ≡ true → is_unused p.state ≡ false
member_used p m = ground arith

-- An entry that was not live becomes unused, and no other changes.
pub removed-Family :
    (initproc : ℕ) (t u : Ptable) (i : ℕ)
    → Family initproc t
    → is_live (t.proc i).state ≡ false
    → is_unused (u.proc i).state ≡ true
    → Only i t.proc u.proc
    → t.nextpid ≤ u.nextpid
    → Family initproc u
removed-Family initproc t u i f dead gone only more = record {
  in_table = f.in_table;
  init_live = still_live initproc f.init_live;
  parents = λ j lj ne used.
      let (p, bp, e, lp) = f.parents j lj ne (was_member j used) in
      (p, bp, ap (λ q. q.parent) (only j (member_kept j used)) ∙ e, still_live p lp);
  pids = λ j lj used.
      omega (arith, ap (λ q. q.pid) (only j (kept j used)), f.pids j lj (was_used j used));
  distinct = λ j k lj lk uj uk e.
      f.distinct j k lj lk (was_used j uj) (was_used k uk)
        (sym (ap (λ p. p.pid) (only j (kept j uj))) ∙ e ∙ ap (λ p. p.pid) (only k (kept k uk)));
}
  where
    kept : (j : ℕ) → is_unused (u.proc j).state ≡ false → i ≢ j
    kept j used e = cc (sym used ∙ subst (λ k. is_unused (u.proc k).state ≡ true) e gone)

    was_used : (j : ℕ) → is_unused (u.proc j).state ≡ false → is_unused (t.proc j).state ≡ false
    was_used j used = sym (ap (λ p. is_unused p.state) (only j (kept j used))) ∙ used

    member_kept : (j : ℕ) → is_member (u.proc j).state ≡ true → i ≢ j
    member_kept j m = kept j (member_used (u.proc j) m)

    was_member : (j : ℕ) → is_member (u.proc j).state ≡ true → is_member (t.proc j).state ≡ true
    was_member j m = sym (ap (λ p. is_member p.state) (only j (member_kept j m))) ∙ m

    still_live : (j : ℕ) → is_live (t.proc j).state ≡ true → is_live (u.proc j).state ≡ true
    still_live j live = ap (λ p. is_live p.state) (only j other) ∙ live
      where
        other : i ≢ j
        other e = cc (sym live ∙ subst (λ k. is_live (t.proc k).state ≡ false) e dead)

-- An unused entry becomes an embryo with the next pid.
pub allocated-Family :
    (initproc : ℕ) (t u : Ptable) (i : ℕ)
    → Family initproc t
    → is_unused (t.proc i).state ≡ true
    → is_member (u.proc i).state ≡ false
    → (u.proc i).pid ≡ t.nextpid
    → Only i t.proc u.proc
    → u.nextpid ≡ t.nextpid + 1
    → Family initproc u
allocated-Family initproc t u i f free embryo pid only more = record {
  in_table = f.in_table;
  init_live = still_live initproc f.init_live;
  parents = λ j lj ne used. elim (eq_cases i j) [
    | inl (e, _) ↦ absurd (cc (sym used ∙ ap (λ k. is_member (u.proc k).state) (sym e) ∙ embryo))
    | inr (other, _) ↦
        let (p, bp, e, lp) =
          f.parents j lj ne (sym (ap (λ p. is_member p.state) (only j other)) ∙ used) in
        (p, bp, ap (λ q. q.parent) (only j other) ∙ e, still_live p lp)
  ];
  pids = λ j lj used. elim (eq_cases i j) [
    | inl (e, _) ↦ subst (λ k. (u.proc k).pid < u.nextpid) e (omega arith)
    | inr (other, _) ↦ omega (arith, old_pid j lj other used)
  ];
  distinct = λ j k lj lk uj uk e. elim (eq_cases i j) [
    | inl (ij, _) ↦ elim (eq_cases i k) [
      | inl (ik, _) ↦ sym ij ∙ ik
      | inr (other, _) ↦
          absurd (omega (arith, old_pid k lk other uk, e, ap (λ l. (u.proc l).pid) ij))
    ]
    | inr (other, _) ↦ elim (eq_cases i k) [
      | inl (ik, _) ↦ absurd (omega (arith, old_pid j lj other uj, e, ap (λ l. (u.proc l).pid) ik))
      | inr (other', _) ↦
          f.distinct j k lj lk (was_used j other uj) (was_used k other' uk)
            (sym (ap (λ p. p.pid) (only j other)) ∙ e ∙ ap (λ p. p.pid) (only k other'))
    ]
  ];
}
  where
    was_used :
        (j : ℕ) → i ≢ j → is_unused (u.proc j).state ≡ false → is_unused (t.proc j).state ≡ false
    was_used j other used = sym (ap (λ p. is_unused p.state) (only j other)) ∙ used

    still_live : (j : ℕ) → is_live (t.proc j).state ≡ true → is_live (u.proc j).state ≡ true
    still_live j h = ap (λ p. is_live p.state) (only j other) ∙ h
      where
        other : i ≢ j
        other e =
            cc
              (sym (live_used (t.proc j) h) ∙ subst (λ k. is_unused (t.proc k).state ≡ true) e free)

    old_pid :
        (j : ℕ)
        → j < nproc
        → i ≢ j
        → is_unused (u.proc j).state ≡ false
        → (u.proc j).pid < t.nextpid
    old_pid j lj other used =
        omega (arith, ap (λ p. p.pid) (only j other), f.pids j lj (was_used j other used))

-- An embryo becomes a live child of a live process.
pub hatched-Family :
    (initproc : ℕ) (t u : Ptable) (cur i : ℕ)
    → Family initproc t
    → cur < nproc
    → is_live (t.proc cur).state ≡ true
    → is_unused (t.proc i).state ≡ false
    → is_live (u.proc i).state ≡ true
    → (u.proc i).parent ≡ some cur
    → (u.proc i).pid ≡ (t.proc i).pid
    → Only i t.proc u.proc
    → u.nextpid ≡ t.nextpid
    → Family initproc u
hatched-Family initproc t u cur i f lt live embryo alive parent pid only same = record {
  in_table = f.in_table;
  init_live = still_live initproc f.init_live;
  parents = λ j lj ne used. elim (eq_cases i j) [
    | inl (e, _) ↦ subst (HasParent u.proc) e (cur, lt, parent, still_live cur live)
    | inr (other, _) ↦
        let (p, bp, e, lp) =
          f.parents j lj ne (sym (ap (λ p. is_member p.state) (only j other)) ∙ used) in
        (p, bp, ap (λ q. q.parent) (only j other) ∙ e, still_live p lp)
  ];
  pids = λ j lj used. omega (arith, same_pid j, f.pids j lj (was_used j used));
  distinct = λ j k lj lk uj uk e.
      f.distinct j k lj lk (was_used j uj) (was_used k uk) (sym (same_pid j) ∙ e ∙ same_pid k);
}
  where
    same_pid : (j : ℕ) → (u.proc j).pid ≡ (t.proc j).pid
    same_pid j = elim (eq_cases i j) [
      | inl (e, _) ↦ subst (λ k. (u.proc k).pid ≡ (t.proc k).pid) e pid
      | inr (other, _) ↦ ap (λ p. p.pid) (only j other)
    ]

    was_used : (j : ℕ) → is_unused (u.proc j).state ≡ false → is_unused (t.proc j).state ≡ false
    was_used j used = elim (eq_cases i j) [
      | inl (e, _) ↦ subst (λ k. is_unused (t.proc k).state ≡ false) e embryo
      | inr (other, _) ↦ sym (ap (λ p. is_unused p.state) (only j other)) ∙ used
    ]

    still_live : (j : ℕ) → is_live (t.proc j).state ≡ true → is_live (u.proc j).state ≡ true
    still_live j h = elim (eq_cases i j) [
      | inl (e, _) ↦ subst (λ k. is_live (u.proc k).state ≡ true) e alive
      | inr (other, _) ↦ ap (λ p. is_live p.state) (only j other) ∙ h
    ]
