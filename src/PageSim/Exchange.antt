-- ===== src/PageSim/Exchange.antt =====
-- The exchanges of lab-07/sim.c between a frame and a slot of the swap.
use laboratorio_lukitas.Common.{
  ℕ, ◌≤◌, ◌<◌, ◌≡◌, refl, sym, ◌∙◌, ap, ◌≢◌, inl, inr, true, false, some, arith,
}
use laboratorio_lukitas.PageSim.{
  Sim, Pagina, page, set_page, set_ram, set_swap, is_free, index_of, move_out, load, copy_in,
}
use laboratorio_lukitas.PageSim.Tables.{
  Same, active, At, Holds, Agree, page-set_page_self, page-set_page_ne, active-set_page,
}
use laboratorio_lukitas.PageSim.Moves.{Exchanged}
use laboratorio_lukitas.PageSim.Ready.{
  owner_of, free-not_Holds, update-HoldSame, update-Holds, trans-Renames, set_page-Renames,
}

-- The page asked for is one of an active process.
pub record Asked (s : Sim) (q i : ℕ) : Type 0 where
  pub pid_low : 1 ≤ q
  pub pid_high : q < 100
  pub in_process : i < 16
  pub is_active : active s q ≡ true

-- The owner of the frame, and its page in it.
abbrev pub owner : Sim → ℕ → ℕ
owner s k = index_of (s.ram k).pid

abbrev pub number : Sim → ℕ → ℕ
number s k = (s.ram k).indice

frame_held : (s : Sim) (k : ℕ) → is_free (s.ram k) ≡ false → Holds s.ram k (owner s k) (number s k)
frame_held s k used = record { owner = owner_of (s.ram k) used; number = refl }

pub frame_page :
    (s : Sim) (k : ℕ)
    → Agree s
    → k < 8
    → is_free (s.ram k) ≡ false
    → At s (owner s k) (number s k) 1 k
frame_page s k a l used = a.ram_ok k (owner s k) (number s k) l (frame_held s k used)

apart : (s : Sim) (q i v j k : ℕ) → (page s q i).memoria ≢ 1 → At s v j 1 k → ¬ Same q i v j
apart s q i v j k ne h z =
    ne (ap (λ c. (page s c i).memoria) z.0 ∙ ap (λ c. (page s v c).memoria) z.1 ∙ h.which)

flip_apart : {q i v j : ℕ} → ¬ Same q i v j → ¬ Same v j q i
flip_apart h z = h (sym z.0, sym z.1)

-- The page that asks is in the slot `n`.
pub record InSwap (s : Sim) (q i n : ℕ) : Type 0 where
  pub slot : n < 16
  pub which : (page s q i).memoria ≡ 2
  pub place : (page s q i).nro_en_memoria ≡ some n
  pub holds : Holds s.mem_secundaria n q i

-- The page in the frame `k` goes to the slot `n`; the frame and the page's entry become `big` and `x`.
abbrev pub swapped : Sim → ℕ → ℕ → ℕ → ℕ → Pagina → Pagina → Sim
swapped s q i k n big x = set_page (set_ram (move_out s k n) k big) q i x

pub swapped-Exchanged :
    (s : Sim) (q i k n lru fifo : ℕ) (big x : Pagina)
    → Agree s
    → Asked s q i
    → InSwap s q i n
    → k < 8
    → ((m : ℕ) → m < 8 → is_free (s.ram m) ≡ false)
    → big.pid ≡ (s.mem_secundaria n).pid
    → big.indice ≡ (s.mem_secundaria n).indice
    → x.pid ≡ (page (move_out s k n) q i).pid
    → x.indice ≡ (page (move_out s k n) q i).indice
    → x.memoria ≡ 1
    → x.nro_en_memoria ≡ some k
    → Exchanged s
        (record (swapped s q i k n big x) { lru_index = lru; fifo_index = fifo })
        q
        i
        k
        (owner s k)
        (number s k)
        n
swapped-Exchanged s q i k n lru fifo big x a asked w lk full bp bi xp xi xm xn = record {
  names =
      trans-Renames s.procesos out.procesos (set_page loaded q i x).procesos
        (set_page-Renames s' (owner s k) (number s k) y victim.pid_low refl refl)
        (set_page-Renames loaded q i x asked.pid_low xp xi);
  frame = lk;
  slot = w.slot;
  was_in = frame_held s k (full k lk);
  was_full = full;
  slot_was = inr w.holds;
  not_in = λ e. omega (arith, e, w.which);
  came_from = λ _. w.place;
  newcomer = record {
    pid_low = asked.pid_low;
    pid_high = asked.pid_high;
    in_process = asked.in_process;
    is_active =
        active-set_page loaded q i q x
        ∙ active-set_page s' (owner s k) (number s k) q y
        ∙ asked.is_active;
    which = ap (λ (p : Pagina). p.memoria) (page-set_page_self loaded q i x) ∙ xm;
    place = ap (λ (p : Pagina). p.nro_en_memoria) (page-set_page_self loaded q i x) ∙ xn;
  };
  evicted =
      (ap (λ (p : Pagina). p.memoria) at_victim, ap (λ (p : Pagina). p.nro_en_memoria) at_victim);
  pages = λ r m lr nq nv.
      let same =
        page-set_page_ne loaded q i r m x asked.pid_low lr nq
        ∙ page-set_page_ne s' (owner s k) (number s k) r m y victim.pid_low lr nv in
      (ap (λ (p : Pagina). p.memoria) same, ap (λ (p : Pagina). p.nro_en_memoria) same);
  in_frame = update-Holds s.ram k q i big (bp ∙ w.holds.owner) (bi ∙ w.holds.number);
  in_slot =
      update-Holds s.mem_secundaria n (owner s k) (number s k) (record (s.ram k) { memoria = 2 })
        (owner_of (s.ram k) (full k lk)) refl;
  frames = update-HoldSame s.ram k big;
  slots = update-HoldSame s.mem_secundaria n (record (s.ram k) { memoria = 2 });
}
  where
    s' : Sim
    s' = set_swap s n (record (s.ram k) { memoria = 2 })

    y : Pagina
    y = record (page s' (owner s k) (number s k)) { nro_en_memoria = some n; memoria = 2 }

    out : Sim
    out = move_out s k n

    loaded : Sim
    loaded = set_ram out k big

    victim : At s (owner s k) (number s k) 1 k
    victim = frame_page s k a lk (full k lk)

    at_victim : page (set_page loaded q i x) (owner s k) (number s k) ≡ y
    at_victim =
        page-set_page_ne loaded q i (owner s k) (number s k) x asked.pid_low victim.pid_low
          (apart s q i (owner s k) (number s k) k (λ e. omega (arith, e, w.which)) victim)
        ∙ page-set_page_self s' (owner s k) (number s k) y

-- What becomes of the entry of a page that is loaded.
abbrev pub entry : Sim → ℕ → ℕ → ℕ → Pagina
entry s q i k = record (page s q i) {
  nro_en_memoria = some k;
  memoria = 1;
  lru_indice = some s.lru_index;
}

pub page-evicted :
    (s : Sim) (q i k n : ℕ)
    → Agree s
    → Asked s q i
    → (page s q i).memoria ≢ 1
    → k < 8
    → ((m : ℕ) → m < 8 → is_free (s.ram m) ≡ false)
    → page (move_out (load s q i k) k n) q i ≡ entry s q i k
page-evicted s q i k n a asked ne1 lk full =
    let victim = frame_page s k a lk (full k lk) in
    let s' = set_swap (load s q i k) n (record (s.ram k) { memoria = 2 }) in
    page-set_page_ne s' (owner s k) (number s k) q i
      (record (page s' (owner s k) (number s k)) { nro_en_memoria = some n; memoria = 2 })
      victim.pid_low asked.pid_low (flip_apart (apart s q i (owner s k) (number s k) k ne1 victim))
    ∙ page-set_page_self s q i (entry s q i k)

-- The page loaded into a full RAM: the page of the frame `k` goes to the free slot `n`.
pub evicted-Exchanged :
    (s : Sim) (q i k n : ℕ)
    → Agree s
    → Asked s q i
    → (page s q i).memoria ≢ 1
    → (page s q i).memoria ≢ 2
    → k < 8
    → n < 16
    → is_free (s.mem_secundaria n) ≡ true
    → ((m : ℕ) → m < 8 → is_free (s.ram m) ≡ false)
    → Exchanged s (copy_in (move_out (load s q i k) k n) q i k) q i k (owner s k) (number s k) n
evicted-Exchanged s q i k n a asked ne1 ne2 lk ln empty full = record {
  names =
      trans-Renames s.procesos ready.procesos (move_out ready k n).procesos
        (set_page-Renames s q i x asked.pid_low refl refl)
        (set_page-Renames s' (owner s k) (number s k) y victim.pid_low refl refl);
  frame = lk;
  slot = ln;
  was_in = frame_held s k (full k lk);
  was_full = full;
  slot_was = inl (free-not_Holds s.mem_secundaria n empty);
  not_in = ne1;
  came_from = λ e. absurd (ne2 e);
  newcomer = record {
    pid_low = asked.pid_low;
    pid_high = asked.pid_high;
    in_process = asked.in_process;
    is_active =
        active-set_page s' (owner s k) (number s k) q y
        ∙ active-set_page s q i q x
        ∙ asked.is_active;
    which = ap (λ (p : Pagina). p.memoria) at_new;
    place = ap (λ (p : Pagina). p.nro_en_memoria) at_new;
  };
  evicted =
      (ap (λ (p : Pagina). p.memoria) at_victim, ap (λ (p : Pagina). p.nro_en_memoria) at_victim);
  pages = λ r m lr nq nv.
      let same =
        page-set_page_ne s' (owner s k) (number s k) r m y victim.pid_low lr nv
        ∙ page-set_page_ne s q i r m x asked.pid_low lr nq in
      (ap (λ (p : Pagina). p.memoria) same, ap (λ (p : Pagina). p.nro_en_memoria) same);
  in_frame =
      update-Holds s.ram k q i (page (move_out ready k n) q i)
        (ap (λ (p : Pagina). p.pid) at_new ∙ names.0)
        (ap (λ (p : Pagina). p.indice) at_new ∙ names.1);
  in_slot =
      update-Holds s.mem_secundaria n (owner s k) (number s k) (record (s.ram k) { memoria = 2 })
        (owner_of (s.ram k) (full k lk)) refl;
  frames = update-HoldSame s.ram k (page (move_out ready k n) q i);
  slots = update-HoldSame s.mem_secundaria n (record (s.ram k) { memoria = 2 });
}
  where
    ready : Sim
    ready = load s q i k

    x : Pagina
    x = entry s q i k

    s' : Sim
    s' = set_swap ready n (record (s.ram k) { memoria = 2 })

    y : Pagina
    y = record (page s' (owner s k) (number s k)) { nro_en_memoria = some n; memoria = 2 }

    victim : At s (owner s k) (number s k) 1 k
    victim = frame_page s k a lk (full k lk)

    names : ((page s q i).pid ≡ some q) × ((page s q i).indice ≡ i)
    names = a.named q i asked.pid_low asked.pid_high asked.in_process asked.is_active

    at_new : page (move_out ready k n) q i ≡ x
    at_new = page-evicted s q i k n a asked ne1 lk full

    at_victim : page (move_out ready k n) (owner s k) (number s k) ≡ y
    at_victim = page-set_page_self s' (owner s k) (number s k) y
