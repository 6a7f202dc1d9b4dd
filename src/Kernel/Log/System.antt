-- ===== src/Kernel/Log/System.antt =====
-- File system calls over the log of xv6/log.c: `begin_op`, at most MAXOPBLOCKS calls of `log_write`,
-- `end_op`, interleaved in any order. `end_op` is a step up to its first release of the lock, and the
-- commit that it may owe is another, so that other calls run between them, while `committing` is set.
use laboratorio_lukitas.Common.{
  ℕ, suc, ◌+◌, ◌*◌, ◌≤◌, ◌<◌, ◌≡◌, sym, subst, ◌∙◌, ◌≢◌, ◌⊎◌, inl, inr, true, false, some, Bool,
  List, [], ◌∷◌, ◌++◌, arith, length, length-append, update, eq_cases, update_ne, ◌-◌,
}
use laboratorio_lukitas.Kernel.Log.{
  Block, Machine, ok, max_op_blocks, log_size, begin_op, end_op_enter, end_op_commit, log_write,
  enter_block,
}
use laboratorio_lukitas.Kernel.Log.Disks.{Outside}
use laboratorio_lukitas.Kernel.Log.WriteLog.{Ready}
use laboratorio_lukitas.Kernel.Log.Space.{
  IsDistinct, enter_block_grows, length-enter_block, enter_block_lists, enter_block_keeps,
  enter_block_only, enter_block-IsDistinct,
}

-- `left` has an entry for each call in a transaction: the blocks that it may still write.
pub record System : Type 0 where
  pub machine : Machine
  pub left : List ℕ

pub data Step (s : System) : System → Type 0 where
  begin :
      {m : Machine}
      → begin_op s.machine ≡ some m
      → Step s (record { machine = m; left = max_op_blocks ∷ s.left })
  write :
      (xs ys : List ℕ) (k b : ℕ) (d : Block) {m : Machine}
      → s.left ≡ xs ++ suc k ∷ ys
      → Outside s.machine.start b
      → log_write s.machine b d ≡ ok m
      → Step s (record { machine = m; left = xs ++ k ∷ ys })
  finish :
      (xs ys : List ℕ) (k : ℕ) {do_commit : Bool} {m : Machine}
      → s.left ≡ xs ++ k ∷ ys
      → end_op_enter s.machine ≡ some (do_commit, m)
      → Step s (record { machine = m; left = xs ++ ys })
  commits :
      s.machine.committing ≡ true
      → Step s (record { machine = end_op_commit s.machine; left = s.left })

pub data Reach (s : System) : System → Type 0 where
  here : Reach s s
  next : {t u : System} → Reach s t → Step t u → Reach s u

abbrev pub sum : List ℕ → ℕ
sum [] = 0
sum (x ∷ xs) = x + sum xs

abbrev pub Capped : List ℕ → Type 0
Capped [] = Unit {0}
Capped (x ∷ xs) = (x ≤ max_op_blocks) × Capped xs

pub sum-append : (xs ys : List ℕ) → sum (xs ++ ys) ≡ sum xs + sum ys
sum-append [] ys = omega arith
sum-append (x ∷ xs) ys = omega (arith, sum-append xs ys)

pub sum-Capped : (xs : List ℕ) → Capped xs → sum xs ≤ length xs * max_op_blocks
sum-Capped [] h = omega arith
sum-Capped (x ∷ xs) h = omega (arith, sum-Capped xs h.1)

Capped-less : (xs ys : List ℕ) (k : ℕ) → Capped (xs ++ suc k ∷ ys) → Capped (xs ++ k ∷ ys)
Capped-less [] ys k h = (omega arith, h.1)
Capped-less (x ∷ xs) ys k h = (h.0, Capped-less xs ys k h.1)

pub Capped-drop : (xs ys : List ℕ) (k : ℕ) → Capped (xs ++ k ∷ ys) → Capped (xs ++ ys)
Capped-drop [] ys k h = h.1
Capped-drop (x ∷ xs) ys k h = (h.0, Capped-drop xs ys k h.1)

-- Between two steps the log has room for all that the calls may still write, and could be
-- committed.
pub record Inv (m : Machine) (left : List ℕ) : Type 0 where
  pub ready : Ready m
  pub distinct : IsDistinct m.lh
  pub array : length m.lh.block ≡ log_size
  pub roomy : log_size < m.size
  -- While a commit is owed no call is in a transaction.
  pub alone : m.committing ≡ true → length left ≡ 0
  pub counted : m.outstanding ≡ length left
  pub capped : Capped left
  pub space : m.lh.n + sum left ≤ log_size

begin_op_admits :
    (m : Machine) {m' : Machine}
    → begin_op m ≡ some m'
    → (m' ≡ record m { outstanding = m.outstanding + 1 })
      × (m.lh.n + (m.outstanding + 1) * max_op_blocks ≤ log_size)
      × (m.committing ≡ false)
unfolding begin_op
begin_op_admits m e = ground arith

-- `begin_op` reserves MAXOPBLOCKS blocks for the new call.
pub begin-Inv :
    (m : Machine) (left : List ℕ) {m' : Machine}
    → Inv m left
    → begin_op m ≡ some m'
    → Inv m' (max_op_blocks ∷ left)
begin-Inv m left {m'} v e =
    subst (λ k. Inv k (max_op_blocks ∷ left)) (sym a.0)
      (record {
        ready = record {
          room = v.ready.room;
          count = v.ready.count;
          few = v.ready.few;
          fits = v.ready.fits;
          away = v.ready.away;
          pins = v.ready.pins;
        };
        distinct = v.distinct;
        array = v.array;
        roomy = v.roomy;
        alone = λ e. absurd (cc (a.2, e));
        counted = omega (arith, v.counted);
        capped = (omega arith, v.capped);
        space = omega (arith, a.1, v.counted, sum-Capped left v.capped);
      })
  where
    a :
        (m' ≡ record m { outstanding = m.outstanding + 1 })
        × (m.lh.n + (m.outstanding + 1) * max_op_blocks ≤ log_size)
        × (m.committing ≡ false)
    a = begin_op_admits m e

-- A call with blocks left to write does not meet the panics of `log_write`.
pub write-ok :
    (m : Machine) (left : List ℕ) (b : ℕ) (d : Block)
    → Inv m left
    → 0 < sum left
    → 0 < length left
    → log_write m b d ≡ ok (record m { lh = enter_block m.lh b; dirty = update m.dirty b (some d) })
unfolding log_write
write-ok m left b d v pos some_call = ground (arith, v.space, v.roomy, v.counted)

write-Ready :
    (m : Machine) (b : ℕ) (d : Block)
    → Ready m
    → length m.lh.block ≡ log_size
    → m.lh.n < log_size
    → Outside m.start b
    → Ready (record m { lh = enter_block m.lh b; dirty = update m.dirty b (some d) })
write-Ready m b d r array below out = record {
  room = r.room;
  count = r.count;
  few = omega (arith, grows);
  fits = omega (arith, grows, length-enter_block m.lh b room);
  away = λ i lt. elim (enter_block_only m.lh b room i lt) [
    | inl e ↦ subst (Outside m.start) (sym e) out
    | inr old ↦ subst (Outside m.start) (sym (enter_block_keeps m.lh b room i old)) (r.away i old)
  ];
  pins = λ c. elim (eq_cases b c) [
    | inl (e, _) ↦ let (i, lt, at) = enter_block_lists m.lh b room in inr (i, lt, at ∙ e)
    | inr (ne, _) ↦ elim (r.pins c) [
      | inl e ↦ inl (update_ne m.dirty b (some d) c ne ∙ e)
      | inr (i, lt, e) ↦ inr (i, omega (arith, grows), enter_block_keeps m.lh b room i lt ∙ e)
    ]
  ];
}
  where
    room : m.lh.n < length m.lh.block
    room = omega arith

    grows : (m.lh.n ≤ (enter_block m.lh b).n) × ((enter_block m.lh b).n ≤ m.lh.n + 1)
    grows = enter_block_grows m.lh b room

pub write-Inv :
    (m : Machine) (xs ys : List ℕ) (k b : ℕ) (d : Block) {m' : Machine}
    → Inv m (xs ++ suc k ∷ ys)
    → Outside m.start b
    → log_write m b d ≡ ok m'
    → Inv m' (xs ++ k ∷ ys)
write-Inv m xs ys k b d {m'} v out e =
    subst (λ s. Inv s (xs ++ k ∷ ys)) same
      (record {
        ready = write-Ready m b d v.ready v.array (omega (arith, v.space, sums)) out;
        distinct = enter_block-IsDistinct m.lh b room v.distinct;
        array = length-enter_block m.lh b room ∙ v.array;
        roomy = v.roomy;
        alone = λ e. absurd (omega (arith, v.alone e, length-append xs (suc k ∷ ys)));
        counted =
            omega (arith, v.counted, length-append xs (suc k ∷ ys), length-append xs (k ∷ ys));
        capped = Capped-less xs ys k v.capped;
        space = omega (arith, v.space, sums, sum-append xs (k ∷ ys), enter_block_grows m.lh b room);
      })
  where
    sums : sum (xs ++ suc k ∷ ys) ≡ sum xs + (suc k + sum ys)
    sums = sum-append xs (suc k ∷ ys)

    room : m.lh.n < length m.lh.block
    room = omega (arith, v.space, v.array, sums)

    done :
        log_write m b d
        ≡ ok (record m { lh = enter_block m.lh b; dirty = update m.dirty b (some d) })
    done =
        write-ok m (xs ++ suc k ∷ ys) b d v (omega (arith, sums))
          (omega (arith, length-append xs (suc k ∷ ys)))

    same : record m { lh = enter_block m.lh b; dirty = update m.dirty b (some d) } ≡ m'
    same = cc (sym done ∙ e)

-- What `end_op` does under the lock: the last call is to commit.
pub end_op_cases :
    (m : Machine)
    → m.committing ≡ false
    → ((m.outstanding ≡ 1)
        × (end_op_enter m ≡ some (true, record m { outstanding = 0; committing = true })))
      ⊎ ((m.outstanding ≢ 1)
          × (end_op_enter m ≡ some (false, record m { outstanding = m.outstanding - 1 })))
unfolding end_op_enter
end_op_cases m idle = elim (eq_cases m.outstanding 1) [
  | inl (e, t) ↦ inl (e, ground arith)
  | inr (ne, t) ↦ inr (ne, ground arith)
]
