-- ===== src/PageSim/Loop.antt =====
-- `main` of lab-07/sim.c: its set-up, one access, and the loop over the accesses read.
use laboratorio_lukitas.Common.{
  ℕ, ◌-◌, Bool, false, ◌||◌, none, some, ltb, ◌==◌, if◌then◌else◌, List, [], ◌∷◌,
}
use laboratorio_lukitas.PageSim.{
  virtual, swap, fisica, max_procesos, Sim, Pagina, Proceso, Modo, lru, fifo, first_free,
  inicializar_proceso, gestionar, copy_in, load, evict_lru, evict_fifo,
}

-- The numbers that are read.
pub data ℤ : Type 0 where
  pos : ℕ → ℤ
  negsuc : ℕ → ℤ

-- `a > n` for a number that is not negative.
abbrev pub above : ℕ → ℤ → Bool
above n (pos a) = ltb n a
above n (negsuc a) = false

-- What follows an access that indexes a table outside of it is not said.
pub data Paso : Type 0 where
  sigue : Sim → Paso
  fuera_de_rango memoria_llena fuera_de_tabla : Paso

-- The round after its tests.
unfoldable pub atender : Modo → Sim → ℤ → ℤ → Paso
atender modo s (negsuc a) pagina = fuera_de_tabla
atender modo s (pos pid) (negsuc a) = fuera_de_tabla
atender modo s (pos pid) (pos i) =
    if pid == 0
    then fuera_de_tabla
    else (let s' = inicializar_proceso s pid in
        elim (gestionar modo s' pid i) [
          | some t ↦ sigue t
          | none ↦ elim (first_free fisica 0 s'.ram) [
            | some frame ↦ sigue (copy_in (load s' pid i frame) pid i frame)
            | none ↦ elim modo [
              | lru ↦ sigue (evict_lru s' pid i)
              | fifo ↦ sigue (evict_fifo s' pid i)
            ]
          ]
        ])

-- One round of the loop of `main`.
unfoldable pub acceso : Modo → Sim → ℤ → ℤ → Paso
acceso modo s pid pagina =
    if above (max_procesos - 1) pid || above (virtual - 1) pagina
    then fuera_de_rango
    else elim (first_free swap 0 s.mem_secundaria) [
      | none ↦ memoria_llena
      | some _ ↦ atender modo s pid pagina
    ]

-- The loops of `main` that set up the tables: they run over all elements of the arrays.
unfoldable pub inicio : (ℕ → Proceso) → (ℕ → Pagina) → (ℕ → Pagina) → Sim
inicio procesos ram mem_secundaria = record {
  lru_index = 0;
  procesos = λ i. record (procesos i) { activo = false };
  ram = λ i. record (ram i) { pid = none };
  fifo_index = 0;
  mem_secundaria = λ i. record (mem_secundaria i) { pid = none };
}

-- How the program ends; after an access outside the tables it is not said how.
pub data Salida : Type 0 where
  exit_success : Sim → Salida
  exit_failure indefinido : Salida

-- The loop of `main`, on the values of `pid` and `pagina` after each `scanf` that is not EOF; where it
-- reads no number they are those of the round before.
unfoldable pub principal : Modo → Sim → List (ℤ × ℤ) → Salida
principal modo s [] = exit_success s
principal modo s ((pid, pagina) ∷ rest) = elim (acceso modo s pid pagina) [
  | sigue t ↦ principal modo t rest
  | fuera_de_rango ↦ exit_failure
  | memoria_llena ↦ exit_failure
  | fuera_de_tabla ↦ indefinido
]
