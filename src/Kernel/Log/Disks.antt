-- ===== src/Kernel/Log/Disks.antt =====
-- What the disk of xv6/log.c can hold: a cleared log, or a committed transaction.
use laboratorio_lukitas.Common.{
  ℕ, suc, ◌+◌, ◌≤◌, ◌<◌, ◌≡◌, ◌⊎◌, inl, arith, List, [], length, get_or,
}
use laboratorio_lukitas.Kernel.Log.{Disk, log_size}

-- A block that is not in the log: the log takes up `start` and the LOGSIZE blocks after it.
abbrev pub Outside : ℕ → ℕ → Type 0
Outside start b = (b < start) ⊎ (start + log_size < b)

-- `d` agrees with `V` outside the log.
abbrev pub Agrees : ℕ → Disk → Disk → Type 0
Agrees start V d = (b : ℕ) → Outside start b → d b ≡ V b

-- The header block has room for the header, and says that there is nothing to install.
pub record IsClean (start : ℕ) (V d : Disk) : Type 0 where
  pub room : log_size < length (d start)
  pub count : get_or (d start) 0 0 ≡ 0
  pub agrees : Agrees start V d

-- Either `d` already holds the block `V b`, or an entry from `tail` on installs it.
abbrev pub Installs : ℕ → List ℕ → Disk → Disk → ℕ → ℕ → Type 0
Installs n homes V d tail b =
    (d b ≡ V b) ⊎ ((i : ℕ) × (tail ≤ i) × (i < n) × (get_or homes i 0 ≡ b))

-- The log holds a whole transaction, whose installation gives `V`.
pub record IsCommitted (start n : ℕ) (homes : List ℕ) (V d : Disk) : Type 0 where
  pub room : log_size < length (d start)
  pub few : n ≤ log_size
  pub fits : n ≤ length homes
  pub count : get_or (d start) 0 0 ≡ n
  pub names : (i : ℕ) → i < n → get_or (d start) (suc i) 0 ≡ get_or homes i 0
  pub away : (i : ℕ) → i < n → Outside start (get_or homes i 0)
  pub logged : (i : ℕ) → i < n → d (start + suc i) ≡ V (get_or homes i 0)
  pub rest : (b : ℕ) → Outside start b → Installs n homes V d 0 b

-- Recovery brings the disk to `V`.
pub data Recovers (start : ℕ) (V d : Disk) : Type 0 where
  committed : (n : ℕ) (homes : List ℕ) → IsCommitted start n homes V d → Recovers start V d

-- A cleared log is a transaction with no blocks.
pub clean_Recovers : {start : ℕ} {V d : Disk} → IsClean start V d → Recovers start V d
clean_Recovers c = committed 0 [] (record {
  room = c.room;
  few = omega arith;
  fits = omega arith;
  count = c.count;
  names = λ i k. absurd (omega arith);
  away = λ i k. absurd (omega arith);
  logged = λ i k. absurd (omega arith);
  rest = λ b out. inl (c.agrees b out);
})
