-- ===== src/PageSim/Settle.antt =====
-- The steps of lab-07/sim.c that move no page out of a frame: a page found in RAM, a page put into a free
-- frame, and the entries of a new process.
use laboratorio_lukitas.Common.{
  ℕ, ◌≤◌, ◌<◌, ◌≡◌, refl, sym, ◌∙◌, ap, subst, ◌≢◌, inl, inr, true, some, arith, eq_cases, update,
  update_self,
}
use laboratorio_lukitas.PageSim.{
  Sim, Pagina, page, set_page, is_free, index_of, load, copy_in, touch,
}
use laboratorio_lukitas.PageSim.Tables.{
  Same, Same-cases, active, At, Holds, Agree, page-set_page_self, page-set_page_ne,
}
use laboratorio_lukitas.PageSim.Moves.{
  Kept, Renames, HoldSame, Holds-before, Holds-after, Holds-one, At-Kept,
}
use laboratorio_lukitas.PageSim.Ready.{
  Ready, Holds-is_free, HoldSame-is_free, update-HoldSame, update-Holds, set_page-Renames,
}
use laboratorio_lukitas.PageSim.Exchange.{Asked, entry}

-- Every page is where it was.
record Settled (s t : Sim) : Type 0 where
  names : Renames s.procesos t.procesos
  pages : (r m : ℕ) → 1 ≤ r → Kept s t r m
  frames : (m : ℕ) → HoldSame s.ram t.ram m
  slots : t.mem_secundaria ≡ s.mem_secundaria

Settled-Agree : (s t : Sim) → Agree s → Settled s t → Agree t
Settled-Agree s t a x = record {
  ram_ok = λ n q i l h.
      let o = a.ram_ok n q i l (Holds-before s.ram t.ram n q i (x.frames n) h) in
      At-Kept s t q i 1 n x.names (x.pages q i o.pid_low) o;
  swap_ok = λ n q i l h.
      let o = a.swap_ok n q i l (subst (λ f. Holds f n q i) x.slots h) in
      At-Kept s t q i 2 n x.names (x.pages q i o.pid_low) o;
  in_ram = λ q i lq li on e.
      let (same, place) = x.pages q i lq in
      let (n, ln, p, h) = a.in_ram q i lq li (sym (x.names.activity q) ∙ on) (sym same ∙ e) in
      (n, ln, place ∙ p, Holds-after s.ram t.ram n q i (x.frames n) h);
  in_swap = λ q i lq li on e.
      let (same, place) = x.pages q i lq in
      let (n, ln, p, h) = a.in_swap q i lq li (sym (x.names.activity q) ∙ on) (sym same ∙ e) in
      (n, ln, place ∙ p, subst (λ f. Holds f n q i) (sym x.slots) h);
  named = λ q i lq hq li on.
      let (p, c) = a.named q i lq hq li (sym (x.names.activity q) ∙ on) in
      (x.names.pids q i lq ∙ p, x.names.indices q i lq ∙ c);
  unloaded = λ q i lq li off.
      let o = a.unloaded q i lq li (sym (x.names.activity q) ∙ off) in
      let (same, _) = x.pages q i lq in (λ z. o.0 (sym same ∙ z), λ z. o.1 (sym same ∙ z));
}

Settled-Ready : (s t : Sim) → Ready s → Settled s t → Ready t
Settled-Ready s t ready x = record {
  agree = Settled-Agree s t ready.agree x;
  full = λ n m ln lm used.
      HoldSame-is_free s.ram t.ram m (x.frames m)
      ∙ ready.full n m ln lm (sym (ap (λ f. is_free (f n)) x.slots) ∙ used);
}

touch-Settled : (s : Sim) (q i : ℕ) → 1 ≤ q → Settled s (touch s q i)
unfolding touch
touch-Settled s q i lq = record {
  names = set_page-Renames s q i v lq refl refl;
  pages = λ r m lr. elim (Same-cases q i r m) [
    | inr ne ↦ (
      ap (λ (p : Pagina). p.memoria) (page-set_page_ne s q i r m v lq lr ne),
      ap (λ (p : Pagina). p.nro_en_memoria) (page-set_page_ne s q i r m v lq lr ne),
    )
    | inl (e, f) ↦
        subst (λ c. Kept s (set_page s q i v) c m) e
          (subst (λ c. Kept s (set_page s q i v) q c) f
            (
              ap (λ (p : Pagina). p.memoria) (page-set_page_self s q i v),
              ap (λ (p : Pagina). p.nro_en_memoria) (page-set_page_self s q i v),
            ))
  ];
  frames = λ m. elim (eq_cases frame m) [
    | inr (ne, _) ↦ update-HoldSame s.ram frame marked m ne
    | inl (e, _) ↦
        subst (λ c. HoldSame s.ram (update s.ram frame marked) c) e
          (
            ap (λ (p : Pagina). p.pid) (update_self s.ram frame marked),
            ap (λ (p : Pagina). p.indice) (update_self s.ram frame marked),
          )
  ];
  slots = refl;
}
  where
    v : Pagina
    v = record (page s q i) { lru_indice = some s.lru_index }

    frame : ℕ
    frame = index_of (page s q i).nro_en_memoria

    marked : Pagina
    marked = record (s.ram frame) { lru_indice = some s.lru_index }

pub touch-Ready : (s : Sim) (q i : ℕ) → 1 ≤ q → Ready s → Ready (touch s q i)
touch-Ready s q i lq ready = Settled-Ready s (touch s q i) ready (touch-Settled s q i lq)

-- The page (q, i), in no memory, gets the free frame `k`.
placed-Agree :
    (s : Sim) (q i k : ℕ)
    → Agree s
    → Asked s q i
    → (page s q i).memoria ≢ 1
    → (page s q i).memoria ≢ 2
    → k < 8
    → is_free (s.ram k) ≡ true
    → Agree (copy_in (load s q i k) q i k)
placed-Agree s q i k a asked ne1 ne2 lk empty = record {
  ram_ok = λ m r l lm h. elim (eq_cases k m) [
    | inl (e, _) ↦
        let (rq, li) = Holds-one t.ram k q i r l held (subst (λ c. Holds t.ram c r l) (sym e) h) in
        subst (λ c. At t r l 1 c) e
          (subst (λ c. At t r c 1 k) li (subst (λ c. At t c i 1 k) rq newcomer))
    | inr (ne, _) ↦
        let o =
          a.ram_ok m r l lm
            (Holds-before s.ram t.ram m r l (update-HoldSame s.ram k (page t q i) m ne) h) in
        At-Kept s t r l 1 m names (kept r l o.pid_low (differs r l 1 ne1 o.which)) o
  ];
  swap_ok = λ m r l lm h.
      let o = a.swap_ok m r l lm h in
      At-Kept s t r l 2 m names (kept r l o.pid_low (differs r l 2 ne2 o.which)) o;
  in_ram = λ r l lr ll on e. elim (Same-cases q i r l) [
    | inl (rq, li) ↦ (
      k,
      lk,
      subst (λ c. (page t c l).nro_en_memoria ≡ some k) rq
          (subst (λ c. (page t q c).nro_en_memoria ≡ some k) li newcomer.place),
      subst (Holds t.ram k r) li (subst (λ c. Holds t.ram k c i) rq held),
    )
    | inr ne ↦
        let (same, place) = kept r l lr ne in
        let (m, lm, p, h) = a.in_ram r l lr ll (sym (names.activity r) ∙ on) (sym same ∙ e) in
        (
          m,
          lm,
          place ∙ p,
          Holds-after s.ram t.ram m r l
              (update-HoldSame s.ram k (page t q i) m (λ z.
                cc (Holds-is_free s.ram m r l h, ap (λ c. is_free (s.ram c)) (sym z) ∙ empty)))
              h,
        )
  ];
  in_swap = λ r l lr ll on e. elim (Same-cases q i r l) [
    | inl (rq, li) ↦ absurd (
        omega (
          arith,
          sym newcomer.which
              ∙ ap (λ c. (page t c i).memoria) rq
              ∙ ap (λ c. (page t r c).memoria) li
              ∙ e,
        ))
    | inr ne ↦
        let (same, place) = kept r l lr ne in
        let (m, lm, p, h) = a.in_swap r l lr ll (sym (names.activity r) ∙ on) (sym same ∙ e) in
        (m, lm, place ∙ p, h)
  ];
  named = λ r l lr hr ll on.
      let (p, c) = a.named r l lr hr ll (sym (names.activity r) ∙ on) in
      (names.pids r l lr ∙ p, names.indices r l lr ∙ c);
  unloaded = λ r l lr ll off.
      let o = a.unloaded r l lr ll (sym (names.activity r) ∙ off) in
      let (same, _) = kept r l lr (λ z. cc (sym newcomer.is_active ∙ ap (active t) z.0 ∙ off)) in
      (λ z. o.0 (sym same ∙ z), λ z. o.1 (sym same ∙ z));
}
  where
    t : Sim
    t = copy_in (load s q i k) q i k

    own : page t q i ≡ entry s q i k
    own = page-set_page_self s q i (entry s q i k)

    names : Renames s.procesos t.procesos
    names = set_page-Renames s q i (entry s q i k) asked.pid_low refl refl

    named : ((page s q i).pid ≡ some q) × ((page s q i).indice ≡ i)
    named = a.named q i asked.pid_low asked.pid_high asked.in_process asked.is_active

    kept : (r m : ℕ) → 1 ≤ r → ¬ Same q i r m → Kept s t r m
    kept r m lr ne =
        let same = page-set_page_ne s q i r m (entry s q i k) asked.pid_low lr ne in
        (ap (λ (p : Pagina). p.memoria) same, ap (λ (p : Pagina). p.nro_en_memoria) same)

    differs : (r l w : ℕ) → (page s q i).memoria ≢ w → (page s r l).memoria ≡ w → ¬ Same q i r l
    differs r l w ne e z =
        ne (ap (λ c. (page s c i).memoria) z.0 ∙ ap (λ c. (page s r c).memoria) z.1 ∙ e)

    newcomer : At t q i 1 k
    newcomer = record {
      pid_low = asked.pid_low;
      pid_high = asked.pid_high;
      in_process = asked.in_process;
      is_active = names.activity q ∙ asked.is_active;
      which = ap (λ (p : Pagina). p.memoria) own;
      place = ap (λ (p : Pagina). p.nro_en_memoria) own;
    }

    held : Holds t.ram k q i
    held =
        update-Holds s.ram k q i (page t q i) (ap (λ (p : Pagina). p.pid) own ∙ named.0)
          (ap (λ (p : Pagina). p.indice) own ∙ named.1)

pub placed-Ready :
    (s : Sim) (q i k : ℕ)
    → Ready s
    → Asked s q i
    → (page s q i).memoria ≢ 1
    → (page s q i).memoria ≢ 2
    → k < 8
    → is_free (s.ram k) ≡ true
    → Ready (copy_in (load s q i k) q i k)
placed-Ready s q i k ready asked ne1 ne2 lk empty = record {
  agree = placed-Agree s q i k ready.agree asked ne1 ne2 lk empty;
  full = λ n m ln lm used. absurd (cc (ready.full n k ln lk used, empty));
}
