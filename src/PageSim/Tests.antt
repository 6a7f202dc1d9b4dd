-- ===== src/PageSim/Tests.antt =====
-- Tests of the model of lab-07/sim.c, and its theorems on small runs.
use laboratorio_lukitas.Common.{ℕ, ◌≡◌, refl, arith, true, Option, none, some, List, [], ◌∷◌, ◌++◌}
use laboratorio_lukitas.PageSim.{
  Sim, Pagina, Proceso, lru, page, inicializar_proceso, gestionar, lru_victim, first_free,
  evict_lru, evict_fifo,
}
use laboratorio_lukitas.PageSim.Loop.{
  Salida, exit_success, exit_failure, indefinido, fuera_de_tabla, inicio, principal, acceso, ℤ, pos,
  negsuc, atender,
}
use laboratorio_lukitas.PageSim.Ready.{Ready}
use laboratorio_lukitas.PageSim.Access.{Accessed, acceso_lem}
use laboratorio_lukitas.PageSim.Exchange.{Asked}
use laboratorio_lukitas.PageSim.Fifo.{Stale, evict_fifo-Stale}
use laboratorio_lukitas.PageSim.Program.{
  Ends, ended, beyond, no_slot, no_table, Unloaded, principal-inicio, inicio-Ready,
}

abbrev no_page : Pagina
no_page = record { pid = none; indice = 0; nro_en_memoria = none; memoria = 0; lru_indice = none }

abbrev processes : ℕ → Proceso
processes p = record { pid = p; paginas = λ i. no_page; activo = true }

abbrev frames : ℕ → Pagina
frames n = no_page

processes-Unloaded : Unloaded processes
processes-Unloaded p i l = (λ e. omega (arith, e), λ e. omega (arith, e))

abbrev eight : List (ℤ × ℤ)
eight =
    (pos 1, pos 0)
    ∷ (pos 1, pos 1)
    ∷ (pos 1, pos 2)
    ∷ (pos 1, pos 3)
    ∷ (pos 2, pos 0)
    ∷ (pos 2, pos 1)
    ∷ (pos 2, pos 2)
    ∷ (pos 2, pos 3)
    ∷ []

acceso_lem_example :
    Accessed
      (inicio processes frames frames)
      (pos 3)
      (pos 4)
      (acceso lru (inicio processes frames frames) (pos 3) (pos 4))
acceso_lem_example =
    acceso_lem (inicio processes frames frames) (pos 3) (pos 4)
      (inicio-Ready processes frames frames processes-Unloaded)

-- Where the pages of a process are at the end.
abbrev place_of : Salida → ℕ → ℕ → ℕ × Option ℕ
place_of (exit_success s) q i = ((page s q i).memoria, (page s q i).nro_en_memoria)
place_of exit_failure q i = (9, none)
place_of indefinido q i = (9, none)

-- The ninth page takes the frame of the page used the longest time ago.
ninth_page :
    place_of (principal lru (inicio processes frames frames) (eight ++ ((pos 3, pos 4) ∷ []))) 1 0
    ≡ (2, some 0)
unfolding principal inicio acceso atender inicializar_proceso gestionar lru_victim first_free
    evict_lru
ninth_page = refl

-- A negative process passes the test of the numbers, and comes to the tables.
negative_process : acceso lru (inicio processes frames frames) (negsuc 0) (pos 4) ≡ fuera_de_tabla
unfolding acceso inicio atender first_free
negative_process = refl

-- A full RAM, with one page in the swap.
abbrev state_of : Salida → Sim
state_of (exit_success s) = s
state_of exit_failure = inicio processes frames frames
state_of indefinido = inicio processes frames frames

abbrev full_ram : Sim
full_ram =
    state_of (principal lru (inicio processes frames frames) (eight ++ ((pos 3, pos 4) ∷ [])))

abbrev ReadyAt : Salida → Type 0
ReadyAt (exit_success s) = Ready s
ReadyAt exit_failure = Unit
ReadyAt indefinido = Unit

Ends-ReadyAt : (accesses : List (ℤ × ℤ)) (o : Salida) → Ends accesses o → ReadyAt o
Ends-ReadyAt accesses _ (ended x) = x
Ends-ReadyAt accesses _ (beyond m h) = tt
Ends-ReadyAt accesses _ (no_slot x h) = tt
Ends-ReadyAt accesses _ (no_table m h) = tt

full_ram-Ready : Ready full_ram
unfolding principal inicio acceso atender inicializar_proceso gestionar lru_victim first_free
    evict_lru
full_ram-Ready =
    Ends-ReadyAt (eight ++ ((pos 3, pos 4) ∷ []))
      (principal lru (inicio processes frames frames) (eight ++ ((pos 3, pos 4) ∷ [])))
      (principal-inicio processes frames frames (eight ++ ((pos 3, pos 4) ∷ [])) processes-Unloaded)

page-Asked : Asked full_ram 1 5
unfolding principal inicio acceso atender inicializar_proceso gestionar lru_victim first_free
    evict_lru
page-Asked = record {
  pid_low = omega arith;
  pid_high = omega arith;
  in_process = omega arith;
  is_active = refl;
}

evict_fifo-Stale_example : Stale full_ram (evict_fifo full_ram 1 5) 1
unfolding principal inicio acceso atender inicializar_proceso gestionar lru_victim first_free
    evict_lru
evict_fifo-Stale_example =
    evict_fifo-Stale full_ram 1 5 1 full_ram-Ready.agree page-Asked (λ e. omega (arith, e))
      (omega arith) refl (omega arith) refl
