-- ===== src/Kernel/Proc/Exit.antt =====
-- `exit` of xv6/proc.c: what it does to the caller, its children, its parent and init.
use laboratorio_lukitas.Common.{
  ℕ, ◌<◌, ◌≡◌, ◌∙◌, ap, sym, ◌≢◌, ◌⊎◌, inl, inr, true, false, ◌&&◌, some, none, arith, eq_cases,
  Bool-cases, update, update_self, update_ne, subst, ltb, if◌then◌else◌,
}
use laboratorio_lukitas.Kernel.Proc.{
  Table, nproc, is_zombie, is_sleeping, zombie, entry, chan_of, same_chan, wakeup1, adopt, no_files,
  exit,
}
use laboratorio_lukitas.Kernel.Proc.Wait.{is_child}
use laboratorio_lukitas.Kernel.Proc.Adopt.{
  Similar, Similar-refl, Similar-trans, wake-Similar, wake_awake, adopt-Similar, adopt_parent,
  adopt_wakes, Woken, Woken-trans, wake-Woken_first, adopt-Woken,
}

-- The effect of `exit` by `cur` on the table.
pub record Exited (t : Table) (initproc cur : ℕ) (t' : Table) : Type 0 where
  pub not_init : cur ≢ initproc
  pub gone : (t' cur).state ≡ zombie
  pub files : ((t' cur).ofile ≡ no_files (t cur).ofile) × ((t' cur).cwd ≡ none)
  pub own_pid : (t' cur).pid ≡ (t cur).pid
  pub others : (j : ℕ) → cur ≢ j → Similar (t j) (t' j)
  pub own_rest :
      ((t' cur).killed ≡ (t cur).killed)
      × ((t' cur).sz ≡ (t cur).sz)
      × ((t' cur).pgdir ≡ (t cur).pgdir)
      × ((t' cur).kstack ≡ (t cur).kstack)
      × ((t' cur).name ≡ (t cur).name)
  pub woken_only : (j : ℕ) → cur ≢ j → Woken (chan_of (t cur).parent) (entry initproc) (t j) (t' j)
  pub orphans : (j : ℕ) → j < nproc → is_child t cur j ≡ true → (t' j).parent ≡ some initproc
  pub kept : (j : ℕ) → is_child t cur j ≡ false → (t' j).parent ≡ (t j).parent
  pub parent_woken :
      (p : ℕ)
      → (t cur).parent ≡ some p
      → cur ≢ p
      → same_chan (t' p).chan (entry p) ≡ true
      → is_sleeping (t' p).state ≡ false
  pub init_woken :
      (k : ℕ)
      → k < nproc
      → cur ≢ k
      → is_child t cur k ≡ true
      → is_zombie (t k).state ≡ true
      → same_chan (t' initproc).chan (entry initproc) ≡ true
      → is_sleeping (t' initproc).state ≡ false

module _ (t : Table) (initproc cur : ℕ) where
  closed : Table
  closed = update t cur (record (t cur) { ofile = no_files (t cur).ofile; cwd = none })

  woken : Table
  woken = wakeup1 (chan_of (t cur).parent) closed

  adopted : Table
  adopted = adopt nproc 0 cur initproc woken

  closed_others : (j : ℕ) → cur ≢ j → Similar (t j) (closed j)
  unfolding closed
  closed_others j ne = rw (update_ne t cur _ j ne) (Similar-refl (t j))

  woken_parent : (j : ℕ) → (woken j).parent ≡ (t j).parent
  unfolding woken closed wakeup1
  woken_parent j = (wake-Similar (chan_of (t cur).parent) (closed j)).1 ∙ ground arith

  woken-Similar : (j : ℕ) → Similar (closed j) (woken j)
  unfolding woken wakeup1
  woken-Similar j = (wake-Similar (chan_of (t cur).parent) (closed j)).0

  adopted_others : (j : ℕ) → cur ≢ j → Similar (t j) (adopted j)
  unfolding adopted
  adopted_others j ne =
      Similar-trans (Similar-trans (closed_others j ne) (woken-Similar j))
        (adopt-Similar nproc 0 cur initproc woken j)

  adopted_parent :
      (j : ℕ)
      → (adopted j).parent
        ≡ (if ltb j nproc && is_child t cur j then some initproc else (t j).parent)
  unfolding adopted
  adopted_parent j = ground (arith, adopt_parent nproc 0 cur initproc woken j, woken_parent j)

  final : Table
  final = update adopted cur (record (adopted cur) { state = zombie })

  final_others : (j : ℕ) → cur ≢ j → Similar (t j) (final j)
  unfolding final
  final_others j ne =
      rw (update_ne adopted cur (record (adopted cur) { state = zombie }) j ne)
        (adopted_others j ne)

  final_parent : (j : ℕ) → (final j).parent ≡ (adopted j).parent
  unfolding final
  final_parent j = ground arith

  own : Similar (closed cur) (adopted cur)
  unfolding adopted
  own = Similar-trans (woken-Similar cur) (adopt-Similar nproc 0 cur initproc woken cur)

  -- A process that waited on its entry before is awake after the wakeup, and stays so.
  parent_awake :
      (p : ℕ)
      → (t cur).parent ≡ some p
      → cur ≢ p
      → same_chan (final p).chan (entry p) ≡ true
      → is_sleeping (final p).state ≡ false
  unfolding final
  parent_awake p e ne on =
      rw (update_ne adopted cur (record (adopted cur) { state = zombie }) p ne)
        (elim (Bool-cases (is_sleeping (adopted p).state)) [
          | inl asleep ↦ cc (sym (later.asleep asleep) ∙ awake)
          | inr done ↦ done
        ])
    where
      later : Similar (woken p) (adopted p)
      later = unfold adopted in adopt-Similar nproc 0 cur initproc woken p

      on_woken : same_chan (closed p).chan (entry p) ≡ true
      on_woken =
          ap (λ c. same_chan c (entry p))
            (sym ((woken-Similar p).chan)
              ∙ sym later.chan
              ∙ sym (
                  ap (λ q. q.chan)
                    (update_ne adopted cur (record (adopted cur) { state = zombie }) p ne)))
          ∙ on

      awake : is_sleeping (woken p).state ≡ false
      awake =
          unfold woken wakeup1 in
          wake_awake (chan_of (t cur).parent) (closed p)
            (subst (λ c. same_chan (closed p).chan c ≡ true) (sym (ap chan_of e)) on_woken)

  own_files :
      ((final cur).ofile ≡ no_files (t cur).ofile)
      × ((final cur).cwd ≡ none)
      × ((final cur).pid ≡ (t cur).pid)
  unfolding final closed
  own_files = ground (arith, own.ofile, own.cwd, own.pid)

  own_rest_kept :
      ((final cur).killed ≡ (t cur).killed)
      × ((final cur).sz ≡ (t cur).sz)
      × ((final cur).pgdir ≡ (t cur).pgdir)
      × ((final cur).kstack ≡ (t cur).kstack)
      × ((final cur).name ≡ (t cur).name)
  unfolding final closed
  own_rest_kept = ground (arith, own.killed, own.sz, own.pgdir, own.kstack, own.name)

  adopted-Woken :
      (j : ℕ) → cur ≢ j → Woken (chan_of (t cur).parent) (entry initproc) (t j) (adopted j)
  unfolding adopted woken wakeup1
  adopted-Woken j ne =
      let c = chan_of (t cur).parent in
      let d = entry initproc in
      Woken-trans c d (t j) (woken j) (adopt nproc 0 cur initproc woken j)
        ((woken-Similar j).chan ∙ (closed_others j ne).chan)
        (Woken-trans c d (t j) (closed j) (woken j) (closed_others j ne).chan
          (unfold closed in
            inl (
              ap (λ p. p.state)
                (update_ne t cur (record (t cur) { ofile = no_files (t cur).ofile; cwd = none }) j
                  ne)))
          (wake-Woken_first c d (closed j)))
        (adopt-Woken c nproc 0 cur initproc woken j)

  final-Woken : (j : ℕ) → cur ≢ j → Woken (chan_of (t cur).parent) (entry initproc) (t j) (final j)
  unfolding final
  final-Woken j ne =
      rw (update_ne adopted cur (record (adopted cur) { state = zombie }) j ne) (adopted-Woken j ne)

  init_awake :
      (k : ℕ)
      → cur ≢ initproc
      → k < nproc
      → cur ≢ k
      → is_child t cur k ≡ true
      → is_zombie (t k).state ≡ true
      → same_chan (final initproc).chan (entry initproc) ≡ true
      → is_sleeping (final initproc).state ≡ false
  unfolding final adopted
  init_awake k not_init lt ne c z on = ground (
    arith,
    adopt_wakes nproc 0 cur initproc woken k,
    woken_parent k,
    (closed_others k ne).zombie,
    (woken-Similar k).zombie,
  )

  final-Exited : cur ≢ initproc → Exited t initproc cur final
  final-Exited not_init = record {
    not_init = not_init;
    gone =
        unfold final in
        ap (λ p. p.state) (update_self adopted cur (record (adopted cur) { state = zombie }));
    files = (own_files.0, own_files.1);
    own_pid = own_files.2;
    others = final_others;
    own_rest = own_rest_kept;
    woken_only = final-Woken;
    orphans = λ j lt c. final_parent j ∙ ground (arith, adopted_parent j);
    kept = λ j c. final_parent j ∙ ground (arith, adopted_parent j);
    parent_woken = parent_awake;
    init_woken = λ k lt ne c z on. init_awake k not_init lt ne c z on;
  }

pub exit_lem :
    (t : Table) (initproc cur : ℕ)
    → ((cur ≡ initproc) × (exit t initproc cur ≡ none))
      ⊎ ((t' : Table) × (exit t initproc cur ≡ some t') × Exited t initproc cur t')
unfolding exit final adopted woken closed
exit_lem t initproc cur = elim (eq_cases cur initproc) [
  | inl (e, test) ↦ inl (e, rw test)
  | inr (ne, test) ↦ inr (final t initproc cur, rw test, final-Exited t initproc cur ne)
]
