-- ===== src/PageSim/Frame.antt =====
-- The frame that a page asked for in lab-07/sim.c has after the access, and what stood there before.
use laboratorio_lukitas.Common.{ℕ, ◌+◌, ◌<◌, ◌≡◌, ◌≢◌, true, false, some}
use laboratorio_lukitas.PageSim.{Sim, Pagina, page, is_free}
use laboratorio_lukitas.PageSim.Tables.{active, Holds}
use laboratorio_lukitas.PageSim.Victim.{Least}
use laboratorio_lukitas.PageSim.Ready.{Ready}

-- How the page (q, i) came to the frame `k`: it was there, or the frame was free, or every frame was in
-- use, no frame was used longer ago than this one, and the page in it is now in the swap.
pub data Comes (before : ℕ → Pagina) (t : Sim) (q i k : ℕ) : Type 0 where
  was_there : Holds before k q i → Comes before t q i k
  was_free : is_free (before k) ≡ true → Comes before t q i k
  replaces :
      {r l : ℕ}
      → ((m : ℕ) → m < 8 → is_free (before m) ≡ false)
      → Least before 8 k
      → Holds before k r l
      → (page t r l).memoria ≡ 2
      → Comes before t q i k

-- The frame `k` has the page (q, i), and is the one used last; the other frames are as before.
pub record Stamped (before : ℕ → Pagina) (t : Sim) (q i k clock : ℕ) : Type 0 where
  pub low : k < 8
  pub place : (page t q i).nro_en_memoria ≡ some k
  pub holds : Holds t.ram k q i
  pub stamp : (t.ram k).lru_indice ≡ some clock
  pub others : (m : ℕ) → k ≢ m → t.ram m ≡ before m
  pub how : Comes before t q i k

-- The page is in RAM, and it and its frame are the ones used last.
pub record Served (before : ℕ → Pagina) (t : Sim) (q i clock : ℕ) : Type 0 where
  pub ready : Ready t
  pub is_active : active t q ≡ true
  pub in_ram : (page t q i).memoria ≡ 1
  pub used_last : (page t q i).lru_indice ≡ some clock
  pub counted : t.lru_index ≡ clock + 1
  pub frame : ℕ
  pub stamped : Stamped before t q i frame clock
