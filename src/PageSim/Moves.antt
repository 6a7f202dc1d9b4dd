-- ===== src/PageSim/Moves.antt =====
-- How the tables of lab-07/sim.c change when a page gets a frame.
use laboratorio_lukitas.Common.{
  ℕ, ◌-◌, ◌≤◌, ◌<◌, ◌≡◌, sym, ◌∙◌, ap, subst, ◌≢◌, ◌⊎◌, inl, inr, false, none, some, arith,
  eq_cases,
}
use laboratorio_lukitas.PageSim.{Sim, Pagina, Proceso, page, is_free}
use laboratorio_lukitas.PageSim.Tables.{Same, Same-cases, active, At, Holds, Agree}

pub some-injective {ℓ} : {A : Type ℓ} {a b : A} → some a ≡ some b → a ≡ b
some-injective {a = a} e = ap (λ o. elim o [ some x ↦ x | none ↦ a ]) e

-- The place of a page in the tables is as before.
abbrev pub Kept : Sim → Sim → ℕ → ℕ → Type 0
Kept s t q i =
    ((page t q i).memoria ≡ (page s q i).memoria)
    × ((page t q i).nro_en_memoria ≡ (page s q i).nro_en_memoria)

-- Names of pages and activity are as before.
pub record Renames (f g : ℕ → Proceso) : Type 0 where
  pub pids : (q i : ℕ) → 1 ≤ q → ((g (q - 1)).paginas i).pid ≡ ((f (q - 1)).paginas i).pid
  pub indices : (q i : ℕ) → 1 ≤ q → ((g (q - 1)).paginas i).indice ≡ ((f (q - 1)).paginas i).indice
  pub activity : (q : ℕ) → (g (q - 1)).activo ≡ (f (q - 1)).activo

abbrev pub HoldSame : (ℕ → Pagina) → (ℕ → Pagina) → ℕ → Type 0
HoldSame f g n = ((g n).pid ≡ (f n).pid) × ((g n).indice ≡ (f n).indice)

pub Holds-before : (f g : ℕ → Pagina) (n q i : ℕ) → HoldSame f g n → Holds g n q i → Holds f n q i
Holds-before f g n q i (a, b) h = record { owner = sym a ∙ h.owner; number = sym b ∙ h.number }

pub Holds-after : (f g : ℕ → Pagina) (n q i : ℕ) → HoldSame f g n → Holds f n q i → Holds g n q i
Holds-after f g n q i (a, b) h = record { owner = a ∙ h.owner; number = b ∙ h.number }

pub Holds-one : (f : ℕ → Pagina) (n q i r j : ℕ) → Holds f n q i → Holds f n r j → Same q i r j
Holds-one f n q i r j h k = (some-injective (sym h.owner ∙ k.owner), sym h.number ∙ k.number)

pub At-Kept :
    (s t : Sim) (q i w n : ℕ)
    → Renames s.procesos t.procesos
    → Kept s t q i
    → At s q i w n
    → At t q i w n
At-Kept s t q i w n x (a, b) h = record {
  pid_low = h.pid_low;
  pid_high = h.pid_high;
  in_process = h.in_process;
  is_active = x.activity q ∙ h.is_active;
  which = a ∙ h.which;
  place = b ∙ h.place;
}

-- The page (q, i) gets the frame `k`, whose page (v, j) goes to the slot `n` of the swap. The slot was free, or
-- that of the page (q, i).
pub record Exchanged (s t : Sim) (q i k v j n : ℕ) : Type 0 where
  pub names : Renames s.procesos t.procesos
  pub frame : k < 8
  pub slot : n < 16
  pub was_in : Holds s.ram k v j
  pub was_full : (m : ℕ) → m < 8 → is_free (s.ram m) ≡ false
  pub slot_was : ((r m : ℕ) → ¬ Holds s.mem_secundaria n r m) ⊎ Holds s.mem_secundaria n q i
  pub not_in : (page s q i).memoria ≢ 1
  pub came_from : (page s q i).memoria ≡ 2 → (page s q i).nro_en_memoria ≡ some n
  pub newcomer : At t q i 1 k
  pub evicted : ((page t v j).memoria ≡ 2) × ((page t v j).nro_en_memoria ≡ some n)
  pub pages : (r m : ℕ) → 1 ≤ r → ¬ Same q i r m → ¬ Same v j r m → Kept s t r m
  pub in_frame : Holds t.ram k q i
  pub in_slot : Holds t.mem_secundaria n v j
  pub frames : (m : ℕ) → k ≢ m → HoldSame s.ram t.ram m
  pub slots : (m : ℕ) → n ≢ m → HoldSame s.mem_secundaria t.mem_secundaria m

pub Exchanged-Agree : (s t : Sim) (q i k v j n : ℕ) → Agree s → Exchanged s t q i k v j n → Agree t
Exchanged-Agree s t q i k v j n a x = record {
  ram_ok = λ m r l lm h. elim (eq_cases k m) [
    | inl (e, _) ↦
        let (rq, li) =
          Holds-one t.ram k q i r l x.in_frame (subst (λ c. Holds t.ram c r l) (sym e) h) in
        subst (λ c. At t r l 1 c) e
          (subst (λ c. At t r c 1 k) li (subst (λ c. At t c i 1 k) rq x.newcomer))
    | inr (ne, _) ↦
        let old = Holds-before s.ram t.ram m r l (x.frames m ne) h in
        let o = a.ram_ok m r l lm old in
        At-Kept s t r l 1 m x.names
          (x.pages r l o.pid_low
            (λ z.
              x.not_in
                (ap (λ c. (page s c i).memoria) z.0 ∙ ap (λ c. (page s r c).memoria) z.1 ∙ o.which))
            (λ z. ne (
              some-injective (
                sym victim.place
                ∙ ap (λ c. (page s c j).nro_en_memoria) z.0
                ∙ ap (λ c. (page s r c).nro_en_memoria) z.1
                ∙ o.place))))
          o
  ];
  swap_ok = λ m r l lm h. elim (eq_cases n m) [
    | inl (e, _) ↦
        let (rv, lj) =
          Holds-one t.mem_secundaria n v j r l x.in_slot
            (subst (λ c. Holds t.mem_secundaria c r l) (sym e) h) in
        subst (λ c. At t r l 2 c) e
          (subst (λ c. At t r c 2 n) lj (subst (λ c. At t c j 2 n) rv moved))
    | inr (ne, _) ↦
        let old = Holds-before s.mem_secundaria t.mem_secundaria m r l (x.slots m ne) h in
        let o = a.swap_ok m r l lm old in
        At-Kept s t r l 2 m x.names
          (x.pages r l o.pid_low
            (λ z. ne (some-injective (sym (x.came_from (at_q z o.which)) ∙ place_q z ∙ o.place)))
            (λ z. absurd (
              omega (
                arith,
                victim.which,
                ap (λ c. (page s c j).memoria) z.0 ∙ ap (λ c. (page s r c).memoria) z.1 ∙ o.which,
              ))))
          o
  ];
  in_ram = λ r l lr ll on e. elim (Same-cases q i r l) [
    | inl (rq, li) ↦ (
      k,
      x.frame,
      place_new rq li,
      subst (Holds t.ram k r) li (subst (λ c. Holds t.ram k c i) rq x.in_frame),
    )
    | inr not_q ↦ elim (Same-cases v j r l) [
      | inl (rv, lj) ↦ absurd (
          omega (
            arith,
            sym x.evicted.0
                ∙ ap (λ c. (page t c j).memoria) rv
                ∙ ap (λ c. (page t r c).memoria) lj
                ∙ e,
          ))
      | inr not_v ↦
          let (same, place) = x.pages r l lr not_q not_v in
          let (m, lm, p, h) = a.in_ram r l lr ll (sym (x.names.activity r) ∙ on) (sym same ∙ e) in
          (
            m,
            lm,
            place ∙ p,
            Holds-after s.ram t.ram m r l
                (x.frames m (λ z.
                  not_v (
                    Holds-one s.ram k v j r l x.was_in (subst (λ c. Holds s.ram c r l) (sym z) h))))
                h,
          )
    ]
  ];
  in_swap = λ r l lr ll on e. elim (Same-cases v j r l) [
    | inl (rv, lj) ↦ (
      n,
      x.slot,
      place_old rv lj,
      subst (Holds t.mem_secundaria n r) lj
          (subst (λ c. Holds t.mem_secundaria n c j) rv x.in_slot),
    )
    | inr not_v ↦ elim (Same-cases q i r l) [
      | inl (rq, li) ↦ absurd (
          omega (
            arith,
            sym x.newcomer.which
                ∙ ap (λ c. (page t c i).memoria) rq
                ∙ ap (λ c. (page t r c).memoria) li
                ∙ e,
          ))
      | inr not_q ↦
          let (same, place) = x.pages r l lr not_q not_v in
          let (m, lm, p, h) = a.in_swap r l lr ll (sym (x.names.activity r) ∙ on) (sym same ∙ e) in
          (
            m,
            lm,
            place ∙ p,
            Holds-after s.mem_secundaria t.mem_secundaria m r l
                (x.slots m
                  (λ z. not_there r l not_q (subst (λ c. Holds s.mem_secundaria c r l) (sym z) h)))
                h,
          )
    ]
  ];
  named = λ r l lr hr ll on.
      let (p, c) = a.named r l lr hr ll (sym (x.names.activity r) ∙ on) in
      (x.names.pids r l lr ∙ p, x.names.indices r l lr ∙ c);
  unloaded = λ r l lr ll off.
      let o = a.unloaded r l lr ll (sym (x.names.activity r) ∙ off) in
      let kept = x.pages r l lr (not_q r l off) (not_v r l off) in
      (λ z. o.0 (sym kept.0 ∙ z), λ z. o.1 (sym kept.0 ∙ z));
}
  where
    victim : At s v j 1 k
    victim = a.ram_ok k v j x.frame x.was_in

    moved : At t v j 2 n
    moved = record {
      pid_low = victim.pid_low;
      pid_high = victim.pid_high;
      in_process = victim.in_process;
      is_active = x.names.activity v ∙ victim.is_active;
      which = x.evicted.0;
      place = x.evicted.1;
    }

    at_q : {r l : ℕ} → Same q i r l → (page s r l).memoria ≡ 2 → (page s q i).memoria ≡ 2
    at_q {r} z e = ap (λ c. (page s c i).memoria) z.0 ∙ ap (λ c. (page s r c).memoria) z.1 ∙ e

    place_q : {r l : ℕ} → Same q i r l → (page s q i).nro_en_memoria ≡ (page s r l).nro_en_memoria
    place_q {r} z =
        ap (λ c. (page s c i).nro_en_memoria) z.0 ∙ ap (λ c. (page s r c).nro_en_memoria) z.1

    place_new : {r l : ℕ} → q ≡ r → i ≡ l → (page t r l).nro_en_memoria ≡ some k
    place_new {r} e f =
        sym (ap (λ c. (page t c i).nro_en_memoria) e ∙ ap (λ c. (page t r c).nro_en_memoria) f)
        ∙ x.newcomer.place

    place_old : {r l : ℕ} → v ≡ r → j ≡ l → (page t r l).nro_en_memoria ≡ some n
    place_old {r} e f =
        sym (ap (λ c. (page t c j).nro_en_memoria) e ∙ ap (λ c. (page t r c).nro_en_memoria) f)
        ∙ x.evicted.1

    not_there : (r l : ℕ) → ¬ Same q i r l → ¬ Holds s.mem_secundaria n r l
    not_there r l ne h = elim x.slot_was [
      | inl empty ↦ empty r l h
      | inr own ↦ ne (Holds-one s.mem_secundaria n q i r l own h)
    ]

    not_q : (r l : ℕ) → active t r ≡ false → ¬ Same q i r l
    not_q r l off z = cc (sym x.newcomer.is_active ∙ ap (active t) z.0 ∙ off)

    not_v : (r l : ℕ) → active t r ≡ false → ¬ Same v j r l
    not_v r l off z = cc (sym moved.is_active ∙ ap (active t) z.0 ∙ off)
