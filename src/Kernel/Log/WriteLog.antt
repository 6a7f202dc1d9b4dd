-- ===== src/Kernel/Log/WriteLog.antt =====
-- `write_log` of xv6/log.c and the write of the header, which commits the transaction.
use laboratorio_lukitas.Common.{
  ℕ, zero, suc, ◌+◌, ◌≤◌, ◌<◌, ◌≡◌, refl, sym, ap, subst, ◌∙◌, ◌≢◌, ◌⊎◌, inl, inr, none, arith,
  length, get_or, eq_cases, update, update_self, update_ne,
}
use laboratorio_lukitas.Kernel.Log.{
  Block, Disk, Machine, log_size, bread, bwrite, head_block, write_head, write_log_from, write_log,
}
use laboratorio_lukitas.Kernel.Log.Header.{length-head_block, head_block_count, head_block_entry}
use laboratorio_lukitas.Kernel.Log.Disks.{Outside, Agrees, IsClean, Recovers, clean_Recovers}
use laboratorio_lukitas.Kernel.Log.Trace.{Safe, bwrite-Safe}
use laboratorio_lukitas.Kernel.Log.Install.{Installing, home, bread-unpinned}

-- When `commit` may run: the log on the disk is clear, the header in memory lists at most LOGSIZE
-- blocks, none of them in the log, and every pinned block is listed.
pub record Ready (m : Machine) : Type 0 where
  pub room : log_size < length (m.disk m.start)
  pub count : get_or (m.disk m.start) 0 0 ≡ 0
  pub few : m.lh.n ≤ log_size
  pub fits : m.lh.n ≤ length m.lh.block
  pub away : (i : ℕ) → i < m.lh.n → Outside m.start (home m i)
  pub pins : (b : ℕ) → (m.dirty b ≡ none) ⊎ ((i : ℕ) × (i < m.lh.n) × (home m i ≡ b))

-- Between two rounds of `write_log`: `old` is the disk before, `V` what readers see.
pub record Logging (old V : Disk) (m : Machine) (tail : ℕ) : Type 0 where
  pub ready : Ready m
  pub agrees : Agrees m.start old m.disk
  pub same : (b : ℕ) → Outside m.start b → bread m b ≡ V b
  pub logged : (i : ℕ) → i < tail → m.disk (m.start + suc i) ≡ V (home m i)

bread-bwrite_ne :
    (m : Machine) (a : ℕ) (x : Block) (b : ℕ) → a ≢ b → bread (bwrite m a x) b ≡ bread m b
unfolding bread bwrite
bread-bwrite_ne m a x b ne = ground arith

log_step :
    {old V : Disk} (m : Machine) (tail : ℕ)
    → Logging old V m tail
    → tail < m.lh.n
    → Logging old V (bwrite m (m.start + suc tail) (bread m (home m tail))) (suc tail)
unfolding bwrite
log_step {old} {V} m tail h lt = record {
  ready = record {
    room = subst (λ b. log_size < length b) (sym at_start) r.room;
    count = ap (λ b. get_or b 0 0) at_start ∙ r.count;
    few = r.few;
    fits = r.fits;
    away = r.away;
    pins = λ b. elim (eq_cases a b) [
      | inl (e, _) ↦ inl (rw (← e) (update_self m.dirty a none))
      | inr (ne, _) ↦ elim (r.pins b) [
        | inl e ↦ inl (update_ne m.dirty a none b ne ∙ e)
        | inr (i, k, e) ↦ inr (i, k, e)
      ]
    ];
  };
  agrees = λ b out. update_ne m.disk a x b (omega (arith, r.few)) ∙ h.agrees b out;
  same = λ b out. bread-bwrite_ne m a x b (omega (arith, r.few)) ∙ h.same b out;
  logged = λ i k. elim (eq_cases tail i) [
    | inl (e, _) ↦
        subst (λ j. update m.disk a x (m.start + suc j) ≡ V (home m j)) e
          (update_self m.disk a x ∙ h.same (home m tail) (r.away tail lt))
    | inr (ne, _) ↦ update_ne m.disk a x (m.start + suc i) (omega arith) ∙ h.logged i (omega arith)
  ];
}
  where
    r : Ready m
    r = h.ready

    a : ℕ
    a = m.start + suc tail

    x : Block
    x = bread m (home m tail)

    at_start : update m.disk a x m.start ≡ m.disk m.start
    at_start = update_ne m.disk a x m.start (omega arith)

Logging-IsClean :
    {old V : Disk} {m : Machine} (tail : ℕ) → Logging old V m tail → IsClean m.start old m.disk
Logging-IsClean tail h = record { room = h.ready.room; count = h.ready.count; agrees = h.agrees }

log_loop :
    {old V : Disk} (rounds tail : ℕ) (m : Machine)
    → tail + rounds ≡ m.lh.n
    → Logging old V m tail
    → Logging old V (write_log_from rounds tail m) m.lh.n
unfolding write_log_from bwrite
log_loop {old} {V} zero tail m e h = subst (Logging old V m) (omega arith) h
log_loop (suc rounds) tail m e h =
    log_loop rounds (suc tail) (bwrite m (m.start + suc tail) (bread m (home m tail))) (omega arith)
      (log_step m tail h (omega arith))

log_loop-Safe :
    {old V d : Disk} {P : Disk → Type 0} (rounds tail : ℕ) (m : Machine)
    → ((e : Disk) → Recovers m.start old e → P e)
    → tail + rounds ≡ m.lh.n
    → Logging old V m tail
    → Safe P d m
    → Safe P d (write_log_from rounds tail m)
unfolding write_log_from bwrite
log_loop-Safe zero tail m imp e h s = s
log_loop-Safe {old} {V} {d} {P} (suc rounds) tail m imp e h s =
    let a = m.start + suc tail in
    let x = bread m (home m tail) in
    let next : Logging old V (bwrite m a x) (suc tail) = log_step m tail h (omega arith) in
    log_loop-Safe rounds (suc tail) (bwrite m a x) imp (omega arith) next
      (bwrite-Safe P a x s (imp _ (clean_Recovers (Logging-IsClean (suc tail) next))))

write_log_from_keeps :
    (rounds tail : ℕ) (m : Machine)
    → ((write_log_from rounds tail m).start ≡ m.start) × ((write_log_from rounds tail m).lh ≡ m.lh)
unfolding write_log_from bwrite
write_log_from_keeps zero tail m = (refl, refl)
write_log_from_keeps (suc rounds) tail m =
    write_log_from_keeps rounds (suc tail) (bwrite m (m.start + suc tail) (bread m (home m tail)))

-- The write of the header commits the transaction.
pub head-Installing :
    {old V : Disk} (m : Machine) → Logging old V m m.lh.n → Installing V (write_head m) 0
unfolding write_head bwrite
head-Installing {old} {V} m h = record {
  room = subst (λ b. log_size < length b) (sym at_start) (rw (length-head_block, is_disk) r.room);
  few = r.few;
  fits = r.fits;
  count = ap (λ b. get_or b 0 0) at_start ∙ head_block_count m.lh hb (omega (arith, big));
  names = λ i k.
      ap (λ b. get_or b (suc i) 0) at_start
      ∙ head_block_entry m.lh hb i k (omega (arith, big, r.few));
  away = r.away;
  logged = λ i k. update_ne m.disk m.start x (m.start + suc i) (omega arith) ∙ h.logged i k;
  pins = λ b. elim (eq_cases m.start b) [
    | inl (e, _) ↦ inl (rw (← e) (update_self m.dirty m.start none))
    | inr (ne, _) ↦ elim (r.pins b) [
      | inl e ↦ inl (update_ne m.dirty m.start none b ne ∙ e)
      | inr (i, k, e) ↦ inr (i, omega arith, k, e)
    ]
  ];
  rest = λ b out. elim (r.pins b) [
    | inl e ↦
        inl (update_ne m.disk m.start x b (omega arith) ∙ sym (bread-unpinned m b e) ∙ h.same b out)
    | inr (i, k, e) ↦ inr (i, omega arith, k, e)
  ];
}
  where
    r : Ready m
    r = h.ready

    hb : Block
    hb = bread m m.start

    x : Block
    x = head_block m.lh hb

    at_start : update m.disk m.start x m.start ≡ x
    at_start = update_self m.disk m.start x

    unpinned : m.dirty m.start ≡ none
    unpinned = elim (r.pins m.start) [
      | inl e ↦ e
      | inr (i, k, e) ↦ absurd (omega (arith, r.away i k))
    ]

    is_disk : hb ≡ m.disk m.start
    is_disk = bread-unpinned m m.start unpinned

    big : log_size < length hb
    big = rw is_disk r.room

module _ {old V : Disk} (m : Machine) (h : Logging old V m 0) where
  pub write_log_keeps : ((write_log m).start ≡ m.start) × ((write_log m).lh ≡ m.lh)
  unfolding write_log
  write_log_keeps = write_log_from_keeps m.lh.n 0 m

  pub write_log-Logging : Logging old V (write_log m) (write_log m).lh.n
  write_log-Logging =
      subst (Logging old V (write_log m)) (sym (ap (λ h. h.n) write_log_keeps.1))
        (unfold write_log in log_loop m.lh.n 0 m (omega arith) h)

  pub write_log-Safe :
      {P : Disk → Type 0} {d : Disk}
      → ((e : Disk) → Recovers m.start old e → P e)
      → Safe P d m
      → Safe P d (write_log m)
  unfolding write_log
  write_log-Safe imp s = log_loop-Safe m.lh.n 0 m imp (omega arith) h s
