-- ===== src/PageSim/Serve.antt =====
-- The page asked for, served: on each of the ways of lab-07/sim.c under LRU, and exchanged under FIFO.
use laboratorio_lukitas.Common.{
  ℕ, ◌+◌, ◌<◌, ◌≡◌, refl, sym, ◌∙◌, ap, subst, ◌≢◌, inl, inr, true, false, Option, none, some,
  arith, eq_cases, ◌%◌, update, update_self, update_ne,
}
use laboratorio_lukitas.PageSim.{
  Sim, Pagina, lru, page, set_ram, is_free, index_of, move_out, lru_victim, load, copy_in, touch,
  exchange_lru, exchange_fifo, first_free, evict_lru, gestionar, fisica,
}
use laboratorio_lukitas.PageSim.Tables.{Holds, page-set_page_self, active-set_page}
use laboratorio_lukitas.PageSim.Frame.{Served, Stamped, was_there, was_free, replaces}
use laboratorio_lukitas.PageSim.Victim.{lru_victim-Least}
use laboratorio_lukitas.PageSim.Ready.{Ready, Holds-is_free, Exchanged-Ready, update-Holds}
use laboratorio_lukitas.PageSim.Moves.{Exchanged}
use laboratorio_lukitas.PageSim.Exchange.{
  Asked, InSwap, owner, number, entry, swapped-Exchanged, evicted-Exchanged, page-evicted,
}
use laboratorio_lukitas.PageSim.Settle.{touch-Ready, placed-Ready}

touch-Stamped :
    (s : Sim) (q i : ℕ)
    → Ready s
    → Asked s q i
    → (page s q i).memoria ≡ 1
    → Stamped s.ram (touch s q i) q i (index_of (page s q i).nro_en_memoria) s.lru_index
unfolding touch
touch-Stamped s q i ready asked e =
    let (n, ln, p, h) = ready.agree.in_ram q i asked.pid_low asked.in_process asked.is_active e in
    let k = index_of (page s q i).nro_en_memoria in
    let at : n ≡ k = sym (ap index_of p) in
    let held : Holds s.ram k q i = subst (λ c. Holds s.ram c q i) at h in
    let v = record (page s q i) { lru_indice = some s.lru_index } in
    let marked = record (s.ram k) { lru_indice = some s.lru_index } in
    record {
      low = subst (λ c. c < 8) at ln;
      place = ap (λ (c : Pagina). c.nro_en_memoria) (page-set_page_self s q i v) ∙ p ∙ ap some at;
      holds = update-Holds s.ram k q i marked held.owner held.number;
      stamp = ap (λ (c : Pagina). c.lru_indice) (update_self s.ram k marked);
      others = update_ne s.ram k marked;
      how = was_there held;
    }

-- A page that takes the frame of another.
Exchanged-Stamped :
    (s t : Sim) (q i n : ℕ) (big : Pagina)
    → Exchanged s t q i
        (lru_victim 7 1 0 s)
        (owner s (lru_victim 7 1 0 s))
        (number s (lru_victim 7 1 0 s))
        n
    → t.ram ≡ update s.ram (lru_victim 7 1 0 s) big
    → big.lru_indice ≡ some s.lru_index
    → Stamped s.ram t q i (lru_victim 7 1 0 s) s.lru_index
Exchanged-Stamped s t q i n big x e l =
    let k = lru_victim 7 1 0 s in
    record {
      low = x.frame;
      place = x.newcomer.place;
      holds = x.in_frame;
      stamp =
          ap (λ f. (f k).lru_indice) e
          ∙ ap (λ (p : Pagina). p.lru_indice) (update_self s.ram k big)
          ∙ l;
      others = λ m ne. ap (λ f. f m) e ∙ update_ne s.ram k big m ne;
      how = replaces x.was_full (lru_victim-Least s).1 x.was_in x.evicted.0;
    }

touch-Served :
    (s : Sim) (q i : ℕ)
    → Ready s
    → Asked s q i
    → (page s q i).memoria ≡ 1
    → Served s.ram (touch s q i) q i s.lru_index
unfolding touch
touch-Served s q i ready asked e =
    let v = record (page s q i) { lru_indice = some s.lru_index } in
    record {
      ready = touch-Ready s q i asked.pid_low ready;
      is_active = active-set_page s q i q v ∙ asked.is_active;
      in_ram = ap (λ (p : Pagina). p.memoria) (page-set_page_self s q i v) ∙ e;
      used_last = ap (λ (p : Pagina). p.lru_indice) (page-set_page_self s q i v);
      counted = refl;
      frame = index_of (page s q i).nro_en_memoria;
      stamped = touch-Stamped s q i ready asked e;
    }

-- A page that its table says is in the swap is in the slot its table says, and every frame is in use.
swap_place :
    (s : Sim) (q i : ℕ)
    → Ready s
    → Asked s q i
    → (page s q i).memoria ≡ 2
    → InSwap s q i (index_of (page s q i).nro_en_memoria)
      × ((m : ℕ) → m < 8 → is_free (s.ram m) ≡ false)
swap_place s q i ready asked e =
    let (n, ln, p, h) = ready.agree.in_swap q i asked.pid_low asked.in_process asked.is_active e in
    let at : n ≡ index_of (page s q i).nro_en_memoria = sym (ap index_of p) in
    (
      subst (InSwap s q i) at (record { slot = ln; which = e; place = p; holds = h }),
      λ m lm. ready.full n m ln lm (Holds-is_free s.mem_secundaria n q i h),
    )

exchange_lru-Served :
    (s : Sim) (q i : ℕ)
    → Ready s
    → Asked s q i
    → (page s q i).memoria ≡ 2
    → Served s.ram (exchange_lru s q i) q i s.lru_index
unfolding exchange_lru
exchange_lru-Served s q i ready asked e =
    let (w, full) = swap_place s q i ready asked e in
    let k = lru_victim 7 1 0 s in
    let n = index_of (page s q i).nro_en_memoria in
    let big = record (s.mem_secundaria n) { memoria = 1; lru_indice = some s.lru_index } in
    let x = record (page (move_out s k n) q i) {
      nro_en_memoria = some k;
      memoria = 1;
      lru_indice = some s.lru_index;
    } in
    let exchanged =
      swapped-Exchanged s q i k n (s.lru_index + 1) s.fifo_index big x ready.agree asked w
        (lru_victim-Least s).0 full refl refl refl refl refl refl in
    record {
      ready =
          Exchanged-Ready s (exchange_lru s q i) q i k (owner s k) (number s k) n ready exchanged;
      is_active = exchanged.newcomer.is_active;
      in_ram = exchanged.newcomer.which;
      used_last =
          ap (λ (p : Pagina). p.lru_indice)
            (page-set_page_self (set_ram (move_out s k n) k big) q i x);
      counted = refl;
      frame = k;
      stamped = Exchanged-Stamped s (exchange_lru s q i) q i n big exchanged refl refl;
    }

-- Under FIFO a page that is in the swap comes into RAM, and the invariant is kept.
pub exchange_fifo-Ready :
    (s : Sim) (q i : ℕ)
    → Ready s
    → Asked s q i
    → s.fifo_index < 8
    → (page s q i).memoria ≡ 2
    → Ready (exchange_fifo s q i)
      × ((page (exchange_fifo s q i) q i).nro_en_memoria ≡ some s.fifo_index)
      × ((exchange_fifo s q i).fifo_index < 8)
unfolding exchange_fifo
exchange_fifo-Ready s q i ready asked lk e =
    let (w, full) = swap_place s q i ready asked e in
    let k = s.fifo_index in
    let n = index_of (page s q i).nro_en_memoria in
    let big = record (s.mem_secundaria n) { memoria = 1 } in
    let x = record (page (move_out s k n) q i) { nro_en_memoria = some k; memoria = 1 } in
    let exchanged =
      swapped-Exchanged s q i k n s.lru_index ((s.fifo_index + 1) % fisica) big x ready.agree asked
        w lk full refl refl refl refl refl refl in
    (
      Exchanged-Ready s (exchange_fifo s q i) q i k (owner s k) (number s k) n ready exchanged,
      exchanged.newcomer.place,
      omega arith,
    )

pub placed-Served :
    (s : Sim) (q i k : ℕ)
    → Ready s
    → Asked s q i
    → (page s q i).memoria ≢ 1
    → (page s q i).memoria ≢ 2
    → k < 8
    → is_free (s.ram k) ≡ true
    → Served s.ram (copy_in (load s q i k) q i k) q i s.lru_index
placed-Served s q i k ready asked ne1 ne2 lk empty = record {
  ready = placed-Ready s q i k ready asked ne1 ne2 lk empty;
  is_active = active-set_page s q i q (entry s q i k) ∙ asked.is_active;
  in_ram = ap (λ (p : Pagina). p.memoria) (page-set_page_self s q i (entry s q i k));
  used_last = ap (λ (p : Pagina). p.lru_indice) own;
  counted = refl;
  frame = k;
  stamped = record {
    low = lk;
    place = ap (λ (p : Pagina). p.nro_en_memoria) own;
    holds =
        update-Holds s.ram k q i (page t q i) (ap (λ (p : Pagina). p.pid) own ∙ named.0)
          (ap (λ (p : Pagina). p.indice) own ∙ named.1);
    stamp = ap (λ (p : Pagina). p.lru_indice) (update_self s.ram k (page t q i) ∙ own);
    others = update_ne s.ram k (page t q i);
    how = was_free empty;
  };
}
  where
    t : Sim
    t = copy_in (load s q i k) q i k

    own : page t q i ≡ entry s q i k
    own = page-set_page_self s q i (entry s q i k)

    named : ((page s q i).pid ≡ some q) × ((page s q i).indice ≡ i)
    named = ready.agree.named q i asked.pid_low asked.pid_high asked.in_process asked.is_active

pub evict_lru-Served :
    (s : Sim) (q i n : ℕ)
    → Ready s
    → Asked s q i
    → (page s q i).memoria ≢ 1
    → (page s q i).memoria ≢ 2
    → ((m : ℕ) → m < 8 → is_free (s.ram m) ≡ false)
    → first_free 16 0 s.mem_secundaria ≡ some n
    → n < 16
    → is_free (s.mem_secundaria n) ≡ true
    → Served s.ram (evict_lru s q i) q i s.lru_index
unfolding evict_lru
evict_lru-Served s q i n ready asked ne1 ne2 full found ln empty =
    let k = lru_victim 7 1 0 s in
    let lk = (lru_victim-Least s).0 in
    let exchanged = evicted-Exchanged s q i k n ready.agree asked ne1 ne2 lk ln empty full in
    let after = copy_in (move_out (load s q i k) k n) q i k in
    let at_new = page-evicted s q i k n ready.agree asked ne1 lk full in
    rw (found, evict_lru)
      (record {
        ready = Exchanged-Ready s after q i k (owner s k) (number s k) n ready exchanged;
        is_active = exchanged.newcomer.is_active;
        in_ram = exchanged.newcomer.which;
        used_last = ap (λ (p : Pagina). p.lru_indice) at_new;
        counted = refl;
        frame = k;
        stamped =
            Exchanged-Stamped s after q i n (page (move_out (load s q i k) k n) q i) exchanged refl
              (ap (λ (p : Pagina). p.lru_indice) at_new);
      })

-- What `gestionarProcesoEnMemoria` does under LRU, on each branch.
pub data Managed (s : Sim) (q i : ℕ) : Option Sim → Type 0 where
  managed : {t : Sim} → Served s.ram t q i s.lru_index → Managed s q i (some t)
  in_neither : (page s q i).memoria ≢ 1 → (page s q i).memoria ≢ 2 → Managed s q i none

pub gestionar_lem :
    (s : Sim) (q i : ℕ) → Ready s → Asked s q i → Managed s q i (gestionar lru s q i)
unfolding gestionar
gestionar_lem s q i ready asked = elim (eq_cases (page s q i).memoria 1) [
  | inl (e, t) ↦ rw (t, gestionar) (managed (touch-Served s q i ready asked e))
  | inr (ne, t) ↦ elim (eq_cases (page s q i).memoria 2) [
    | inl (e, u) ↦ rw (t, u, gestionar) (managed (exchange_lru-Served s q i ready asked e))
    | inr (ne2, u) ↦ rw (t, u, gestionar) (in_neither ne ne2)
  ]
]
