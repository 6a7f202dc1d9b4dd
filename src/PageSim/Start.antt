-- ===== src/PageSim/Start.antt =====
-- `inicializarProcesoSiEsNecesario` of lab-07/sim.c.
use laboratorio_lukitas.Common.{
  ℕ, ◌-◌, ◌≤◌, ◌<◌, ◌≡◌, refl, sym, ◌∙◌, ap, subst, ◌≢◌, inl, inr, true, false, none, some, arith,
  eq_cases, update, update_self, update_ne, Bool-cases, lt_cases, ltb, if◌then◌else◌,
}
use laboratorio_lukitas.PageSim.{Sim, Pagina, Proceso, page, is_free, inicializar_proceso}
use laboratorio_lukitas.PageSim.Tables.{active, At, Holds, Agree}
use laboratorio_lukitas.PageSim.Ready.{Ready}

-- The process `q` gets its entries; the others stay.
pub record Started (s t : Sim) (q : ℕ) : Type 0 where
  was_off : active s q ≡ false
  now_on : active t q ≡ true
  ram_same : t.ram ≡ s.ram
  lru_same : t.lru_index ≡ s.lru_index
  swap_same : t.mem_secundaria ≡ s.mem_secundaria
  others : (r : ℕ) → 1 ≤ r → q ≢ r → t.procesos (r - 1) ≡ s.procesos (r - 1)
  places : (i : ℕ) → i < 16 → (page t q i).memoria ≡ (page s q i).memoria
  names : (i : ℕ) → i < 16 → ((page t q i).pid ≡ some q) × ((page t q i).indice ≡ i)

Started-At : (s t : Sim) (q r i w n : ℕ) → Started s t q → At s r i w n → At t r i w n
Started-At s t q r i w n x h =
    let same = x.others r h.pid_low (λ e. cc (sym x.was_off ∙ ap (active s) e ∙ h.is_active)) in
    record {
      pid_low = h.pid_low;
      pid_high = h.pid_high;
      in_process = h.in_process;
      is_active = ap (λ (p : Proceso). p.activo) same ∙ h.is_active;
      which = ap (λ (p : Proceso). (p.paginas i).memoria) same ∙ h.which;
      place = ap (λ (p : Proceso). (p.paginas i).nro_en_memoria) same ∙ h.place;
    }

Started-Agree : (s t : Sim) (q : ℕ) → 1 ≤ q → Agree s → Started s t q → Agree t
Started-Agree s t q lq a x = record {
  ram_ok = λ n r i l h.
      Started-At s t q r i 1 n x (a.ram_ok n r i l (subst (λ f. Holds f n r i) x.ram_same h));
  swap_ok = λ n r i l h.
      Started-At s t q r i 2 n x (a.swap_ok n r i l (subst (λ f. Holds f n r i) x.swap_same h));
  in_ram = λ r i lr li on e. elim (eq_cases q r) [
    | inl (same, _) ↦ absurd (
        (a.unloaded q i lq li x.was_off).0
          (sym (x.places i li) ∙ ap (λ c. (page t c i).memoria) same ∙ e))
    | inr (ne, _) ↦
        let o = x.others r lr ne in
        let (n, ln, p, h) =
          a.in_ram r i lr li (sym (ap (λ (p : Proceso). p.activo) o) ∙ on)
            (sym (ap (λ (p : Proceso). (p.paginas i).memoria) o) ∙ e) in
        (
          n,
          ln,
          ap (λ (p : Proceso). (p.paginas i).nro_en_memoria) o ∙ p,
          subst (λ f. Holds f n r i) (sym x.ram_same) h,
        )
  ];
  in_swap = λ r i lr li on e. elim (eq_cases q r) [
    | inl (same, _) ↦ absurd (
        (a.unloaded q i lq li x.was_off).1
          (sym (x.places i li) ∙ ap (λ c. (page t c i).memoria) same ∙ e))
    | inr (ne, _) ↦
        let o = x.others r lr ne in
        let (n, ln, p, h) =
          a.in_swap r i lr li (sym (ap (λ (p : Proceso). p.activo) o) ∙ on)
            (sym (ap (λ (p : Proceso). (p.paginas i).memoria) o) ∙ e) in
        (
          n,
          ln,
          ap (λ (p : Proceso). (p.paginas i).nro_en_memoria) o ∙ p,
          subst (λ f. Holds f n r i) (sym x.swap_same) h,
        )
  ];
  named = λ r i lr hr li on. elim (eq_cases q r) [
    | inl (same, _) ↦
        subst (λ c. ((page t c i).pid ≡ some c) × ((page t c i).indice ≡ i)) same (x.names i li)
    | inr (ne, _) ↦
        let o = x.others r lr ne in
        let (p, c) = a.named r i lr hr li (sym (ap (λ (p : Proceso). p.activo) o) ∙ on) in
        (
          ap (λ (p : Proceso). (p.paginas i).pid) o ∙ p,
          ap (λ (p : Proceso). (p.paginas i).indice) o ∙ c,
        )
  ];
  unloaded = λ r i lr li off. elim (eq_cases q r) [
    | inl (same, _) ↦ absurd (cc (sym x.now_on ∙ ap (active t) same ∙ off))
    | inr (ne, _) ↦
        let o = x.others r lr ne in
        let u = a.unloaded r i lr li (sym (ap (λ (p : Proceso). p.activo) o) ∙ off) in
        (
          λ z. u.0 (sym (ap (λ (p : Proceso). (p.paginas i).memoria) o) ∙ z),
          λ z. u.1 (sym (ap (λ (p : Proceso). (p.paginas i).memoria) o) ∙ z),
        )
  ];
}

abbrev first_entry : Sim → ℕ → ℕ → Pagina
first_entry s q i = record (page s q i) {
  pid = some q;
  nro_en_memoria = none;
  indice = i;
  lru_indice = none;
}

abbrev started : Sim → ℕ → Proceso
started s q = record {
  pid = q;
  paginas = λ i. if ltb i 16 then first_entry s q i else page s q i;
  activo = true;
}

started-paginas : (s : Sim) (q i : ℕ) → i < 16 → (started s q).paginas i ≡ first_entry s q i
started-paginas s q i l = elim (lt_cases i 16) [
  | inl (_, t) ↦ rw (t, started) refl
  | inr (ge, _) ↦ absurd (omega arith)
]

-- A process that is active already stays as it is; another gets its entries.
pub data Begins (s : Sim) (q : ℕ) : Sim → Type 0 where
  was_active : active s q ≡ true → Begins s q s
  started_now : {t : Sim} → Started s t q → Begins s q t

inicializar_proceso_lem : (s : Sim) (q : ℕ) → 1 ≤ q → Begins s q (inicializar_proceso s q)
unfolding inicializar_proceso
inicializar_proceso_lem s q lq = elim (Bool-cases (active s q)) [
  | inl t ↦ rw (t, inicializar_proceso) (was_active t)
  | inr t ↦
      rw (t, inicializar_proceso)
        (started_now (record {
          was_off = t;
          now_on = ap (λ (p : Proceso). p.activo) own;
          ram_same = refl;
          lru_same = refl;
          swap_same = refl;
          others =
              λ r lr ne. update_ne s.procesos (q - 1) (started s q) (r - 1) (λ e. ne (omega arith));
          places = λ i l. ap (λ (p : Pagina). p.memoria) (entries i l);
          names = λ i l. (
            ap (λ (p : Pagina). p.pid) (entries i l),
            ap (λ (p : Pagina). p.indice) (entries i l),
          );
        }))
]
  where
    own : update s.procesos (q - 1) (started s q) (q - 1) ≡ started s q
    own = update_self s.procesos (q - 1) (started s q)

    entries :
        (i : ℕ)
        → i < 16
        → (update s.procesos (q - 1) (started s q) (q - 1)).paginas i ≡ first_entry s q i
    entries i l = ap (λ (p : Proceso). p.paginas i) own ∙ started-paginas s q i l

Begins-Ready : (s t : Sim) (q : ℕ) → 1 ≤ q → Ready s → Begins s q t → Ready t × (active t q ≡ true)
Begins-Ready s t q lq ready (was_active on) = (ready, on)
Begins-Ready s t q lq ready (started_now x) = (
  record {
    agree = Started-Agree s t q lq ready.agree x;
    full = λ n m ln lm used.
        ap (λ f. is_free (f m)) x.ram_same
        ∙ ready.full n m ln lm (sym (ap (λ f. is_free (f n)) x.swap_same) ∙ used);
  },
  x.now_on,
)

Begins-same :
    (s t : Sim) (q : ℕ)
    → Begins s q t
    → (t.lru_index ≡ s.lru_index) × (t.mem_secundaria ≡ s.mem_secundaria) × (t.ram ≡ s.ram)
Begins-same s t q (was_active on) = (refl, refl, refl)
Begins-same s t q (started_now x) = (x.lru_same, x.swap_same, x.ram_same)

-- Afterwards the process is active, and the invariant holds.
pub inicializar_proceso-Ready :
    (s : Sim) (q : ℕ)
    → 1 ≤ q
    → Ready s
    → Ready (inicializar_proceso s q) × (active (inicializar_proceso s q) q ≡ true)
inicializar_proceso-Ready s q lq ready =
    Begins-Ready s (inicializar_proceso s q) q lq ready (inicializar_proceso_lem s q lq)

pub inicializar_proceso-same :
    (s : Sim) (q : ℕ)
    → 1 ≤ q
    → ((inicializar_proceso s q).lru_index ≡ s.lru_index)
      × ((inicializar_proceso s q).mem_secundaria ≡ s.mem_secundaria)
      × ((inicializar_proceso s q).ram ≡ s.ram)
inicializar_proceso-same s q lq =
    Begins-same s (inicializar_proceso s q) q (inicializar_proceso_lem s q lq)
