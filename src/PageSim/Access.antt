-- ===== src/PageSim/Access.antt =====
-- A whole access of lab-07/sim.c under LRU.
use laboratorio_lukitas.Common.{
  ℕ, ◌≤◌, ◌<◌, ◌≡◌, refl, sym, ◌∙◌, ap, subst, ◌≢◌, ◌⊎◌, inl, inr, true, false, Option, none, some,
  arith, eq_cases, Bool-cases,
}
use laboratorio_lukitas.PageSim.{
  Sim, lru, page, is_free, load, copy_in, first_free, evict_lru, gestionar, inicializar_proceso,
}
use laboratorio_lukitas.PageSim.Loop.{
  fuera_de_rango, memoria_llena, fuera_de_tabla, sigue, Paso, ℤ, pos, negsuc, above, atender,
  acceso,
}
use laboratorio_lukitas.PageSim.Victim.{Search, free, full, first_free_lem}
use laboratorio_lukitas.PageSim.Ready.{Ready}
use laboratorio_lukitas.PageSim.Exchange.{Asked}
use laboratorio_lukitas.PageSim.Frame.{Served}
use laboratorio_lukitas.PageSim.Start.{inicializar_proceso-Ready, inicializar_proceso-same}
use laboratorio_lukitas.PageSim.Serve.{
  placed-Served, evict_lru-Served, Managed, managed, in_neither, gestionar_lem,
}

-- A number above `n`.
abbrev pub Beyond : ℕ → ℤ → Type 0
Beyond n a = (x : ℕ) × (a ≡ pos x) × (n < x)

abbrev pub IsNegative : ℤ → Type 0
IsNegative a = (x : ℕ) × (a ≡ negsuc x)

above-Beyond : (n : ℕ) (a : ℤ) → above n a ≡ true → Beyond n a
above-Beyond n (pos x) t = (x, refl, ground arith)
above-Beyond n (negsuc x) t = absurd (cc t)

-- What an access does, on each branch.
pub data Accessed (s : Sim) (pid pagina : ℤ) : Paso → Type 0 where
  served :
      {t : Sim} {q i : ℕ}
      → pid ≡ pos q
      → pagina ≡ pos i
      → Served s.ram t q i s.lru_index
      → Accessed s pid pagina (sigue t)
  out_of_range : Beyond 99 pid ⊎ Beyond 15 pagina → Accessed s pid pagina fuera_de_rango
  swap_full :
      ((m : ℕ) → m < 16 → is_free (s.mem_secundaria m) ≡ false)
      → Accessed s pid pagina memoria_llena
  outside :
      (pid ≡ pos 0) ⊎ IsNegative pid ⊎ IsNegative pagina → Accessed s pid pagina fuera_de_tabla

-- The page is in neither memory: it gets a free frame, or one that is freed for it.
bring_in :
    (s : Sim) (q i n : ℕ) (o : Option ℕ)
    → Ready s
    → Asked s q i
    → (page s q i).memoria ≢ 1
    → (page s q i).memoria ≢ 2
    → first_free 16 0 s.mem_secundaria ≡ some n
    → n < 16
    → is_free (s.mem_secundaria n) ≡ true
    → Search s.ram 0 8 o
    → Accessed s (pos q) (pos i) (elim o as (λ _. Paso) [
      | some frame ↦ sigue (copy_in (load s q i frame) q i frame)
      | none ↦ sigue (evict_lru s q i)
    ])
bring_in s q i n (some k) ready asked ne1 ne2 found ln empty (free lk e) =
    served refl refl (placed-Served s q i k ready asked ne1 ne2 lk e)
bring_in s q i n none ready asked ne1 ne2 found ln empty (full h) =
    served refl refl
      (evict_lru-Served s q i n ready asked ne1 ne2 (λ m lm. h m (omega arith) lm) found ln empty)

manage :
    (s : Sim) (q i n : ℕ) (o : Option Sim)
    → Ready s
    → Asked s q i
    → first_free 16 0 s.mem_secundaria ≡ some n
    → n < 16
    → is_free (s.mem_secundaria n) ≡ true
    → Managed s q i o
    → Accessed s (pos q) (pos i) (elim o as (λ _. Paso) [
      | some t ↦ sigue t
      | none ↦ elim (first_free 8 0 s.ram) as (λ _. Paso) [
        | some frame ↦ sigue (copy_in (load s q i frame) q i frame)
        | none ↦ sigue (evict_lru s q i)
      ]
    ])
manage s q i n (some t) ready asked found ln empty (managed x) = served refl refl x
manage s q i n none ready asked found ln empty (in_neither ne1 ne2) =
    bring_in s q i n (first_free 8 0 s.ram) ready asked ne1 ne2 found ln empty
      (first_free_lem 8 0 8 s.ram refl)

-- The process has its entries already.
Accessed-earlier :
    (s t : Sim) (pid pagina : ℤ) (o : Paso)
    → t.lru_index ≡ s.lru_index
    → t.mem_secundaria ≡ s.mem_secundaria
    → t.ram ≡ s.ram
    → Accessed t pid pagina o
    → Accessed s pid pagina o
Accessed-earlier s t pid pagina o e f g (served {t = u} {q} {i} a b x) =
    served a b (subst (Served s.ram u q i) e (subst (λ h. Served h u q i t.lru_index) g x))
Accessed-earlier s t pid pagina o e f g (out_of_range h) = out_of_range h
Accessed-earlier s t pid pagina o e f g (swap_full h) =
    swap_full (λ m lm. sym (ap (λ c. is_free (c m)) f) ∙ h m lm)
Accessed-earlier s t pid pagina o e f g (outside h) = outside h

atender_in_tables :
    (s : Sim) (q i n : ℕ)
    → Ready s
    → q < 100
    → i < 16
    → first_free 16 0 s.mem_secundaria ≡ some n
    → n < 16
    → is_free (s.mem_secundaria n) ≡ true
    → Accessed s (pos q) (pos i) (atender lru s (pos q) (pos i))
unfolding atender
atender_in_tables s q i n ready hq li found ln empty = elim (eq_cases q 0) [
  | inl (e, t) ↦ rw (t, atender) (outside (inl (ap pos e)))
  | inr (ne, t) ↦
      let lq : 1 ≤ q = omega arith in
      let (ready', on) = inicializar_proceso-Ready s q lq ready in
      let (clock, slots, frames) = inicializar_proceso-same s q lq in
      let s' = inicializar_proceso s q in
      let asked : Asked s' q i = record {
        pid_low = lq;
        pid_high = hq;
        in_process = li;
        is_active = on;
      } in
      rw (t, atender)
        (Accessed-earlier s s' (pos q) (pos i) _ clock slots frames (
          manage s' q i n (gestionar lru s' q i) ready' asked (ap (first_free 16 0) slots ∙ found)
            ln (ap (λ g. is_free (g n)) slots ∙ empty) (gestionar_lem s' q i ready' asked)))
]

atender_lem :
    (s : Sim) (pid pagina : ℤ) (n : ℕ)
    → Ready s
    → above 99 pid ≡ false
    → above 15 pagina ≡ false
    → first_free 16 0 s.mem_secundaria ≡ some n
    → n < 16
    → is_free (s.mem_secundaria n) ≡ true
    → Accessed s pid pagina (atender lru s pid pagina)
unfolding atender
atender_lem s (negsuc a) pagina n ready tp tq found ln empty = outside (inr (inl (a, refl)))
atender_lem s (pos q) (negsuc a) n ready tp tq found ln empty = outside (inr (inr (a, refl)))
atender_lem s (pos q) (pos i) n ready tp tq found ln empty =
    atender_in_tables s q i n ready (ground arith) (ground arith) found ln empty

Search-slot :
    (s : Sim) (pid pagina : ℤ) (o : Option ℕ)
    → Ready s
    → above 99 pid ≡ false
    → above 15 pagina ≡ false
    → first_free 16 0 s.mem_secundaria ≡ o
    → Search s.mem_secundaria 0 16 o
    → Accessed s pid pagina (acceso lru s pid pagina)
unfolding acceso
Search-slot s pid pagina none ready tp tq e (full h) =
    rw (tp, tq, e, acceso) (swap_full (λ m lm. h m (omega arith) lm))
Search-slot s pid pagina (some n) ready tp tq e (free ln empty) =
    rw (tp, tq, e, acceso) (atender_lem s pid pagina n ready tp tq e ln empty)

-- Under LRU, from tables that agree, for any numbers read: an access that goes on ends with tables that
-- agree, and with the page in RAM, in a frame where it was already, or that was free, or, when every
-- frame was in use, in one that no frame was used longer ago than, whose page is then in the swap. The
-- page and its frame have the last stamp of use, and the other frames are as before. It does not go
-- on only if the process is above 99 or the page above 15, or every slot of the swap is in use, or the
-- process is 0 or negative or the page negative.
pub acceso_lem :
    (s : Sim) (pid pagina : ℤ) → Ready s → Accessed s pid pagina (acceso lru s pid pagina)
unfolding acceso
acceso_lem s pid pagina ready = elim (Bool-cases (above 99 pid)) [
  | inl t ↦ rw (t, acceso) (out_of_range (inl (above-Beyond 99 pid t)))
  | inr t ↦ elim (Bool-cases (above 15 pagina)) [
    | inl u ↦ rw (t, u, acceso) (out_of_range (inr (above-Beyond 15 pagina u)))
    | inr u ↦
        Search-slot s pid pagina (first_free 16 0 s.mem_secundaria) ready t u refl
          (first_free_lem 16 0 16 s.mem_secundaria refl)
  ]
]
