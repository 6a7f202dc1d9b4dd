-- ===== src/PageSim.antt =====
-- lab-07/sim.c: a simulator of paging with FIFO or LRU replacement, without its messages. A field or
-- variable that holds -1 for "none" is an `Option`. The array `procesos` starts with whatever stands
-- on the stack, so the first state is any whose processes are not active. The process 0 and negative
-- numbers, which the program does not refuse and which index outside the tables, are an outcome.
pub mod Loop
pub mod Tables
pub mod Moves
pub mod Victim
pub mod Ready
pub mod Exchange
pub mod Frame
pub mod Settle
pub mod Start
pub mod Serve
pub mod Fifo
pub mod Access
pub mod Program
mod Tests
use laboratorio_lukitas.Common.{
  ℕ, zero, suc, ◌+◌, ◌-◌, ◌%◌, Bool, true, false, not, ◌||◌, Option, none, some, ltb, ◌==◌,
  if◌then◌else◌, update, List, [], ◌∷◌,
}

abbrev pub virtual : ℕ
virtual = 16

abbrev pub fisica : ℕ
fisica = 8

abbrev pub swap : ℕ
swap = 16

abbrev pub max_procesos : ℕ
max_procesos = 100

pub record Pagina : Type 0 where
  pub pid : Option ℕ
  pub indice : ℕ
  pub nro_en_memoria : Option ℕ
  pub memoria : ℕ
  pub lru_indice : Option ℕ

pub record Proceso : Type 0 where
  pub pid : ℕ
  pub paginas : ℕ → Pagina
  pub activo : Bool

-- The variables of `main` and `lru_index`.
pub record Sim : Type 0 where
  pub lru_index : ℕ
  pub procesos : ℕ → Proceso
  pub ram : ℕ → Pagina
  pub fifo_index : ℕ
  pub mem_secundaria : ℕ → Pagina

pub data Modo : Type 0 where
  fifo lru : Modo

abbrev pub page : Sim → ℕ → ℕ → Pagina
page s pid i = (s.procesos (pid - 1)).paginas i

abbrev pub set_page : Sim → ℕ → ℕ → Pagina → Sim
set_page s pid i v = record s {
  procesos =
      update s.procesos (pid - 1)
        (record (s.procesos (pid - 1)) { paginas = update (s.procesos (pid - 1)).paginas i v });
}

abbrev pub set_ram : Sim → ℕ → Pagina → Sim
set_ram s i v = record s { ram = update s.ram i v }

abbrev pub set_swap : Sim → ℕ → Pagina → Sim
set_swap s i v = record s { mem_secundaria = update s.mem_secundaria i v }

abbrev pub is_free : Pagina → Bool
is_free p = elim p.pid [ none ↦ true | some _ ↦ false ]

-- A value that is -1 where it is indexed by stands for the index 0 here; the theorems show that
-- no such index arises.
abbrev pub index_of : Option ℕ → ℕ
index_of none = 0
index_of (some i) = i

abbrev pub earlier : Option ℕ → Option ℕ → Bool
earlier none none = false
earlier none (some b) = true
earlier (some a) none = false
earlier (some a) (some b) = ltb a b

unfoldable pub inicializar_proceso : Sim → ℕ → Sim
inicializar_proceso s pid = if (s.procesos (pid - 1)).activo then s else record s {
  procesos = update s.procesos (pid - 1) (record {
    pid = pid;
    paginas = λ i.
        if ltb i virtual
        then record ((s.procesos (pid - 1)).paginas i) {
          pid = some pid;
          nro_en_memoria = none;
          indice = i;
          lru_indice = none;
        }
        else (s.procesos (pid - 1)).paginas i;
    activo = true;
  });
}

-- The loop for the frame that was used the longest time ago, from the frame `i` on, with the best so
-- far.
unfoldable pub lru_victim : ℕ → ℕ → ℕ → Sim → ℕ
lru_victim zero i best s = best
lru_victim (suc rounds) i best s =
    lru_victim rounds (suc i)
      (if earlier (s.ram i).lru_indice (s.ram best).lru_indice then i else best) s

-- The loops for a free frame or slot.
unfoldable pub first_free : ℕ → ℕ → (ℕ → Pagina) → Option ℕ
first_free zero i frames = none
first_free (suc rounds) i frames =
    let rest = first_free rounds (suc i) frames in if is_free (frames i) then some i else rest

-- The page in the frame `frame` goes to the slot `slot`: in the tables of frames, and in its own
-- process's table.
abbrev pub move_out : Sim → ℕ → ℕ → Sim
move_out s frame slot =
    let old = s.ram frame in
    let s' = set_swap s slot (record old { memoria = 2 }) in
    let pid = index_of old.pid in
    set_page s' pid old.indice
      (record (page s' pid old.indice) { nro_en_memoria = some slot; memoria = 2 })

-- `gestionarProcesoEnMemoria`, for a page in RAM under LRU.
unfoldable pub touch : Sim → ℕ → ℕ → Sim
touch s pid i =
    let s' = set_page s pid i (record (page s pid i) { lru_indice = some s.lru_index }) in
    let frame = index_of (page s pid i).nro_en_memoria in
    record (set_ram s' frame (record (s.ram frame) { lru_indice = some s.lru_index })) {
      lru_index = s.lru_index + 1;
    }

-- The same for a page in the swap.
unfoldable pub exchange_lru : Sim → ℕ → ℕ → Sim
exchange_lru s pid i =
    let slot = index_of (page s pid i).nro_en_memoria in
    let frame = lru_victim 7 1 0 s in
    let in_swap = s.mem_secundaria slot in
    let out = move_out s frame slot in
    let loaded =
      set_ram out frame (record in_swap { memoria = 1; lru_indice = some s.lru_index }) in
    record (set_page loaded pid i (record (page loaded pid i) {
      nro_en_memoria = some frame;
      memoria = 1;
      lru_indice = some s.lru_index;
    })) { lru_index = s.lru_index + 1 }

unfoldable pub exchange_fifo : Sim → ℕ → ℕ → Sim
exchange_fifo s pid i =
    let slot = index_of (page s pid i).nro_en_memoria in
    let frame = s.fifo_index in
    let in_swap = s.mem_secundaria slot in
    let out = move_out s frame slot in
    let loaded = set_ram out frame (record in_swap { memoria = 1 }) in
    record (set_page loaded pid i
      (record (page loaded pid i) { nro_en_memoria = some frame; memoria = 1 })) {
        fifo_index = (s.fifo_index + 1) % fisica;
      }

-- `gestionarProcesoEnMemoria`: the state, or `none` when the page is in neither memory (it returns 1).
unfoldable pub gestionar : Modo → Sim → ℕ → ℕ → Option Sim
gestionar lru s pid i =
    if (page s pid i).memoria == 1
    then some (touch s pid i)
    else if (page s pid i).memoria == 2
    then some (exchange_lru s pid i)
    else none
gestionar fifo s pid i =
    if (page s pid i).memoria == 1
    then some s
    else if (page s pid i).memoria == 2
    then some (exchange_fifo s pid i)
    else none

-- The page is put into a frame, first in its process's table.
abbrev pub load : Sim → ℕ → ℕ → ℕ → Sim
load s pid i frame =
    record (set_page s pid i (record (page s pid i) {
      nro_en_memoria = some frame;
      memoria = 1;
      lru_indice = some s.lru_index;
    })) { lru_index = s.lru_index + 1 }

-- The copy of the page's entry into its frame.
abbrev pub copy_in : Sim → ℕ → ℕ → ℕ → Sim
copy_in s pid i frame = set_ram s frame (page s pid i)

unfoldable pub evict_lru : Sim → ℕ → ℕ → Sim
evict_lru s pid i =
    let frame = lru_victim 7 1 0 s in
    elim (first_free swap 0 s.mem_secundaria) [
      | none ↦ copy_in s pid i frame
      | some slot ↦ copy_in (move_out (load s pid i frame) frame slot) pid i frame
    ]

-- As `move_out`, but with the number of the frame left in the process's table.
abbrev pub move_out_fifo : Sim → ℕ → ℕ → Sim
move_out_fifo s frame slot =
    let old = s.ram frame in
    let s' = set_swap s slot (record old { memoria = 2 }) in
    let pid = index_of old.pid in
    set_page s' pid old.indice (record (page s' pid old.indice) { memoria = 2 })

unfoldable pub evict_fifo : Sim → ℕ → ℕ → Sim
evict_fifo s pid i =
    let frame = s.fifo_index in
    let moved = elim (first_free swap 0 s.mem_secundaria) as (λ _. Sim) [
      | none ↦ s
      | some slot ↦ move_out_fifo (load s pid i frame) frame slot
    ] in
    record (copy_in moved pid i frame) { fifo_index = (s.fifo_index + 1) % fisica }
