-- ===== src/PageSim/Fifo.antt =====
-- The replacement of lab-07/sim.c under FIFO, in `main`.
use laboratorio_lukitas.Common.{ℕ, ◌<◌, ◌≡◌, refl, sym, ◌∙◌, ap, ◌≢◌, false, some}
use laboratorio_lukitas.PageSim.{
  Sim, Pagina, page, set_swap, is_free, load, first_free, evict_fifo, move_out_fifo, swap,
}
use laboratorio_lukitas.PageSim.Tables.{At, Holds, Agree, page-set_page_self, page-set_page_ne}
use laboratorio_lukitas.PageSim.Moves.{some-injective}
use laboratorio_lukitas.PageSim.Ready.{owner_of, update-Holds}
use laboratorio_lukitas.PageSim.Exchange.{Asked, owner, number, entry, frame_page}

-- The page that leaves the frame of the turn is in the slot, but its process's table names the frame.
pub record Stale (s t : Sim) (n : ℕ) : Type 0 where
  pub in_slot : Holds t.mem_secundaria n (owner s s.fifo_index) (number s s.fifo_index)
  pub which : (page t (owner s s.fifo_index) (number s s.fifo_index)).memoria ≡ 2
  pub place :
      (page t (owner s s.fifo_index) (number s s.fifo_index)).nro_en_memoria ≡ some s.fifo_index
  pub disagree : n ≢ s.fifo_index → ¬ Agree t

-- Under FIFO, from tables that agree, a page loaded into a full RAM leaves the table of the evicted
-- page with the number of its old frame, so that the tables agree no more, unless the slot has
-- the frame's number.
pub evict_fifo-Stale :
    (s : Sim) (q i n : ℕ)
    → Agree s
    → Asked s q i
    → (page s q i).memoria ≢ 1
    → s.fifo_index < 8
    → is_free (s.ram s.fifo_index) ≡ false
    → n < 16
    → first_free swap 0 s.mem_secundaria ≡ some n
    → Stale s (evict_fifo s q i) n
unfolding evict_fifo
evict_fifo-Stale s q i n a asked ne1 lk used ln found =
    rw (found, evict_fifo)
      (record {
        in_slot = held;
        which = ap (λ (p : Pagina). p.memoria) at_victim;
        place = stale;
        disagree = λ ne b. ne (some-injective (sym (b.swap_ok n v j ln held).place ∙ stale));
      })
  where
    k : ℕ
    k = s.fifo_index

    v : ℕ
    v = owner s k

    j : ℕ
    j = number s k

    victim : At s v j 1 k
    victim = frame_page s k a lk used

    s' : Sim
    s' = set_swap (load s q i k) n (record (s.ram k) { memoria = 2 })

    y : Pagina
    y = record (page s' v j) { memoria = 2 }

    at_victim : page (move_out_fifo (load s q i k) k n) v j ≡ y
    at_victim = page-set_page_self s' v j y

    before : page s' v j ≡ page s v j
    before = page-set_page_ne s q i v j (entry s q i k) asked.pid_low victim.pid_low (λ z.
        ne1
          (ap (λ c. (page s c i).memoria) z.0 ∙ ap (λ c. (page s v c).memoria) z.1 ∙ victim.which))

    stale : (page (move_out_fifo (load s q i k) k n) v j).nro_en_memoria ≡ some k
    stale =
        ap (λ (p : Pagina). p.nro_en_memoria) at_victim
        ∙ ap (λ (p : Pagina). p.nro_en_memoria) before
        ∙ victim.place

    held : Holds (move_out_fifo (load s q i k) k n).mem_secundaria n v j
    held =
        update-Holds s.mem_secundaria n v j (record (s.ram k) { memoria = 2 })
          (owner_of (s.ram k) used) refl
