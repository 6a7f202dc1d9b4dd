-- ===== src/PageSim/Program.antt =====
-- `main` of lab-07/sim.c under LRU: its first tables, and its loop.
use laboratorio_lukitas.Common.{ℕ, ◌-◌, ◌<◌, ◌≡◌, refl, ◌≢◌, ◌⊎◌, false, List, [], ◌∷◌}
use mathlib.Core.List.{Memᴰ}
use mathlib.Core.List.Memᴰ.{head, tail}
use laboratorio_lukitas.PageSim.{Sim, Pagina, Proceso, lru, virtual, is_free}
use laboratorio_lukitas.PageSim.Loop.{
  ℤ, pos, Paso, sigue, fuera_de_rango, memoria_llena, fuera_de_tabla, Salida, exit_success,
  exit_failure, indefinido, acceso, inicio, principal,
}
use laboratorio_lukitas.PageSim.Ready.{Ready}
use laboratorio_lukitas.PageSim.Access.{
  Beyond, IsNegative, Accessed, served, out_of_range, swap_full, outside, acceso_lem,
}

-- What stands in the array `procesos` before `main` writes there puts no page into a memory.
abbrev pub Unloaded : (ℕ → Proceso) → Type 0
Unloaded procesos =
    (p i : ℕ)
    → i < virtual
    → (((procesos p).paginas i).memoria ≢ 1) × (((procesos p).paginas i).memoria ≢ 2)

pub inicio-Ready :
    (procesos : ℕ → Proceso) (ram swap : ℕ → Pagina)
    → Unloaded procesos
    → Ready (inicio procesos ram swap)
unfolding inicio
inicio-Ready procesos ram swap h = record {
  agree = record {
    ram_ok = λ n q i l x. absurd (cc x.owner);
    swap_ok = λ n q i l x. absurd (cc x.owner);
    in_ram = λ q i lq li on e. absurd (cc on);
    in_swap = λ q i lq li on e. absurd (cc on);
    named = λ q i lq hq li on. absurd (cc on);
    unloaded = λ q i lq li off. h (q - 1) i li;
  };
  full = λ n m ln lm used. absurd (cc used);
}

-- How the program ends: with tables that agree; or it fails, at an access beyond the tables or with a
-- full swap; or an access has the process 0 or a negative number.
pub data Ends (accesses : List (ℤ × ℤ)) : Salida → Type 0 where
  ended : {t : Sim} → Ready t → Ends accesses (exit_success t)
  beyond :
      {a : ℤ × ℤ} → Memᴰ a accesses → Beyond 99 a.0 ⊎ Beyond 15 a.1 → Ends accesses exit_failure
  no_slot :
      {t : Sim}
      → Ready t
      → ((m : ℕ) → m < 16 → is_free (t.mem_secundaria m) ≡ false)
      → Ends accesses exit_failure
  no_table :
      {a : ℤ × ℤ}
      → Memᴰ a accesses
      → (a.0 ≡ pos 0) ⊎ IsNegative a.0 ⊎ IsNegative a.1
      → Ends accesses indefinido

Ends-more : (a : ℤ × ℤ) (rest : List (ℤ × ℤ)) (o : Salida) → Ends rest o → Ends (a ∷ rest) o
Ends-more a rest _ (ended x) = ended x
Ends-more a rest _ (beyond m h) = beyond (tail m) h
Ends-more a rest _ (no_slot x h) = no_slot x h
Ends-more a rest _ (no_table m h) = no_table (tail m) h

principal_step :
    (s : Sim) (pid pagina : ℤ) (rest : List (ℤ × ℤ)) (o : Paso)
    → Ready s
    → ((t : Sim) → Ready t → Ends rest (principal lru t rest))
    → Accessed s pid pagina o
    → Ends ((pid, pagina) ∷ rest) (elim o as (λ _. Salida) [
      | sigue t ↦ principal lru t rest
      | fuera_de_rango ↦ exit_failure
      | memoria_llena ↦ exit_failure
      | fuera_de_tabla ↦ indefinido
    ])
principal_step s pid pagina rest _ ready more (served {t = t} a b x) =
    Ends-more (pid, pagina) rest (principal lru t rest) (more t x.ready)
principal_step s pid pagina rest _ ready more (out_of_range h) = beyond (head refl) h
principal_step s pid pagina rest _ ready more (swap_full h) = no_slot ready h
principal_step s pid pagina rest _ ready more (outside h) = no_table (head refl) h

principal-Ends :
    (s : Sim) (accesses : List (ℤ × ℤ)) → Ready s → Ends accesses (principal lru s accesses)
unfolding principal
principal-Ends s [] ready = ended ready
principal-Ends s ((pid, pagina) ∷ rest) ready =
    principal_step s pid pagina rest (acceso lru s pid pagina) ready (λ t. principal-Ends t rest)
      (acceso_lem s pid pagina ready)

pub principal-inicio :
    (procesos : ℕ → Proceso) (ram swap : ℕ → Pagina) (accesses : List (ℤ × ℤ))
    → Unloaded procesos
    → Ends accesses (principal lru (inicio procesos ram swap) accesses)
principal-inicio procesos ram swap accesses h =
    principal-Ends (inicio procesos ram swap) accesses (inicio-Ready procesos ram swap h)
