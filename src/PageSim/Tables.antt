-- ===== src/PageSim/Tables.antt =====
-- The tables of lab-07/sim.c: what it is for them to agree.
use laboratorio_lukitas.Common.{
  ℕ, ◌-◌, ◌≤◌, ◌<◌, ◌≡◌, sym, ◌∙◌, ap, ◌≢◌, ◌⊎◌, inl, inr, Bool, true, false, some, arith, eq_cases,
  update, update_self, update_ne,
}
use laboratorio_lukitas.PageSim.{Sim, Pagina, Proceso, page, set_page}

abbrev pub Same : ℕ → ℕ → ℕ → ℕ → Type 0
Same q i r j = (q ≡ r) × (i ≡ j)

pub Same-cases : (q i r j : ℕ) → Same q i r j ⊎ (¬ Same q i r j)
Same-cases q i r j = elim (eq_cases q r) [
  | inr (ne, _) ↦ inr (λ s. ne s.0)
  | inl (e, _) ↦ elim (eq_cases i j) [ inr (ne, _) ↦ inr (λ s. ne s.1) | inl (f, _) ↦ inl (e, f) ]
]

abbrev pub active : Sim → ℕ → Bool
active s q = (s.procesos (q - 1)).activo

-- The page `i` of the process `q` is in the memory `where_` at the place `n`.
pub record At (s : Sim) (q i where_ n : ℕ) : Type 0 where
  pub pid_low : 1 ≤ q
  pub pid_high : q < 100
  pub in_process : i < 16
  pub is_active : active s q ≡ true
  pub which : (page s q i).memoria ≡ where_
  pub place : (page s q i).nro_en_memoria ≡ some n

-- The place `n` of a memory holds the page.
pub record Holds (frames : ℕ → Pagina) (n q i : ℕ) : Type 0 where
  pub owner : (frames n).pid ≡ some q
  pub number : (frames n).indice ≡ i

-- The tables of the processes and of the two memories describe the same placement.
pub record Agree (s : Sim) : Type 0 where
  pub ram_ok : (n q i : ℕ) → n < 8 → Holds s.ram n q i → At s q i 1 n
  pub swap_ok : (n q i : ℕ) → n < 16 → Holds s.mem_secundaria n q i → At s q i 2 n
  pub in_ram :
      (q i : ℕ)
      → 1 ≤ q
      → i < 16
      → active s q ≡ true
      → (page s q i).memoria ≡ 1
      → (n : ℕ) × (n < 8) × ((page s q i).nro_en_memoria ≡ some n) × Holds s.ram n q i
  pub in_swap :
      (q i : ℕ)
      → 1 ≤ q
      → i < 16
      → active s q ≡ true
      → (page s q i).memoria ≡ 2
      → (n : ℕ) × (n < 16) × ((page s q i).nro_en_memoria ≡ some n) × Holds s.mem_secundaria n q i
  pub named :
      (q i : ℕ)
      → 1 ≤ q
      → q < 100
      → i < 16
      → active s q ≡ true
      → ((page s q i).pid ≡ some q) × ((page s q i).indice ≡ i)
  pub unloaded :
      (q i : ℕ)
      → 1 ≤ q
      → i < 16
      → active s q ≡ false
      → ((page s q i).memoria ≢ 1) × ((page s q i).memoria ≢ 2)

abbrev pub changed : Sim → ℕ → ℕ → Pagina → Proceso
changed s q i v = record (s.procesos (q - 1)) { paginas = update (s.procesos (q - 1)).paginas i v }

pub page-set_page_self : (s : Sim) (q i : ℕ) (v : Pagina) → page (set_page s q i v) q i ≡ v
page-set_page_self s q i v =
    ap (λ (p : Proceso). p.paginas i)
      (update_self s.procesos (q - 1)
        (record (s.procesos (q - 1)) { paginas = update (s.procesos (q - 1)).paginas i v }))
    ∙ update_self (s.procesos (q - 1)).paginas i v

pub page-set_page_ne :
    (s : Sim) (q i r j : ℕ) (v : Pagina)
    → 1 ≤ q
    → 1 ≤ r
    → ¬ Same q i r j
    → page (set_page s q i v) r j ≡ page s r j
page-set_page_ne s q i r j v lq lr ne = elim (eq_cases (q - 1) (r - 1)) [
  | inr (apart, _) ↦
      ap (λ (p : Proceso). p.paginas j)
        (update_ne s.procesos (q - 1) (changed s q i v) (r - 1) apart)
  | inl (e, _) ↦
      sym (ap (λ k. ((set_page s q i v).procesos k).paginas j) e)
      ∙ ap (λ (p : Proceso). p.paginas j) (update_self s.procesos (q - 1) (changed s q i v))
      ∙ update_ne (s.procesos (q - 1)).paginas i v j (λ z. ne (omega arith, z))
      ∙ ap (λ k. (s.procesos k).paginas j) e
]

pub active-set_page : (s : Sim) (q i r : ℕ) (v : Pagina) → active (set_page s q i v) r ≡ active s r
active-set_page s q i r v = elim (eq_cases (q - 1) (r - 1)) [
  | inr (apart, _) ↦
      ap (λ (p : Proceso). p.activo) (update_ne s.procesos (q - 1) (changed s q i v) (r - 1) apart)
  | inl (e, _) ↦
      sym (ap (λ k. ((set_page s q i v).procesos k).activo) e)
      ∙ ap (λ (p : Proceso). p.activo) (update_self s.procesos (q - 1) (changed s q i v))
      ∙ ap (λ k. (s.procesos k).activo) e
]
