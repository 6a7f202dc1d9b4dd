-- ===== src/PageSim/Ready.antt =====
-- The invariant of lab-07/sim.c under LRU: the tables agree, and the swap is used only when every frame is.
use laboratorio_lukitas.Common.{
  ℕ, ◌≤◌, ◌<◌, ◌≡◌, refl, ◌∙◌, ap, subst, ◌≢◌, inl, inr, Bool, true, false, Option, none, some,
  eq_cases, update, update_self, update_ne,
}
use laboratorio_lukitas.PageSim.{Sim, Pagina, Proceso, page, set_page, is_free, index_of}
use laboratorio_lukitas.PageSim.Tables.{
  Same-cases, Holds, Agree, page-set_page_self, page-set_page_ne, active-set_page,
}
use laboratorio_lukitas.PageSim.Moves.{Renames, HoldSame, Exchanged, Exchanged-Agree}

pub record Ready (s : Sim) : Type 0 where
  pub agree : Agree s
  pub full :
      (n m : ℕ) → n < 16 → m < 8 → is_free (s.mem_secundaria n) ≡ false → is_free (s.ram m) ≡ false

pub owner_of : (p : Pagina) → is_free p ≡ false → p.pid ≡ some (index_of p.pid)
owner_of p e = go p.pid e
  where
    go :
        (o : Option ℕ)
        → elim o as (λ _. Bool) [ none ↦ true | some _ ↦ false ] ≡ false
        → o ≡ some (index_of o)
    go none e = absurd (cc e)
    go (some q) e = refl

pub Holds-is_free : (f : ℕ → Pagina) (n q i : ℕ) → Holds f n q i → is_free (f n) ≡ false
Holds-is_free f n q i h = ap (λ o. elim o as (λ _. Bool) [ none ↦ true | some _ ↦ false ]) h.owner

pub HoldSame-is_free : (f g : ℕ → Pagina) (n : ℕ) → HoldSame f g n → is_free (g n) ≡ is_free (f n)
HoldSame-is_free f g n h = ap (λ o. elim o as (λ _. Bool) [ none ↦ true | some _ ↦ false ]) h.0

pub free-not_Holds : (f : ℕ → Pagina) (n : ℕ) → is_free (f n) ≡ true → (q i : ℕ) → ¬ Holds f n q i
free-not_Holds f n e q i h = cc (Holds-is_free f n q i h, e)

pub update-HoldSame :
    (f : ℕ → Pagina) (n : ℕ) (v : Pagina) (m : ℕ) → n ≢ m → HoldSame f (update f n v) m
update-HoldSame f n v m ne = (
  ap (λ (p : Pagina). p.pid) (update_ne f n v m ne),
  ap (λ (p : Pagina). p.indice) (update_ne f n v m ne),
)

pub update-Holds :
    (f : ℕ → Pagina) (n q i : ℕ) (v : Pagina)
    → v.pid ≡ some q
    → v.indice ≡ i
    → Holds (update f n v) n q i
update-Holds f n q i v a b = record {
  owner = ap (λ (p : Pagina). p.pid) (update_self f n v) ∙ a;
  number = ap (λ (p : Pagina). p.indice) (update_self f n v) ∙ b;
}

pub trans-Renames : (f g h : ℕ → Proceso) → Renames f g → Renames g h → Renames f h
trans-Renames f g h x y = record {
  pids = λ q i l. y.pids q i l ∙ x.pids q i l;
  indices = λ q i l. y.indices q i l ∙ x.indices q i l;
  activity = λ q. y.activity q ∙ x.activity q;
}

-- A change of the place of a page changes no name.
pub set_page-Renames :
    (s : Sim) (q i : ℕ) (v : Pagina)
    → 1 ≤ q
    → v.pid ≡ (page s q i).pid
    → v.indice ≡ (page s q i).indice
    → Renames s.procesos (set_page s q i v).procesos
set_page-Renames s q i v lq a b = record {
  pids = λ r j lr. elim (Same-cases q i r j) [
    | inr ne ↦ ap (λ (p : Pagina). p.pid) (page-set_page_ne s q i r j v lq lr ne)
    | inl (e, f) ↦
        subst (λ c. (page (set_page s q i v) c j).pid ≡ (page s c j).pid) e
          (subst (λ c. (page (set_page s q i v) q c).pid ≡ (page s q c).pid) f
            (ap (λ (p : Pagina). p.pid) (page-set_page_self s q i v) ∙ a))
  ];
  indices = λ r j lr. elim (Same-cases q i r j) [
    | inr ne ↦ ap (λ (p : Pagina). p.indice) (page-set_page_ne s q i r j v lq lr ne)
    | inl (e, f) ↦
        subst (λ c. (page (set_page s q i v) c j).indice ≡ (page s c j).indice) e
          (subst (λ c. (page (set_page s q i v) q c).indice ≡ (page s q c).indice) f
            (ap (λ (p : Pagina). p.indice) (page-set_page_self s q i v) ∙ b))
  ];
  activity = λ r. active-set_page s q i r v;
}

pub Exchanged-Ready : (s t : Sim) (q i k v j n : ℕ) → Ready s → Exchanged s t q i k v j n → Ready t
Exchanged-Ready s t q i k v j n ready x = record {
  agree = Exchanged-Agree s t q i k v j n ready.agree x;
  full = λ c m lc lm used. elim (eq_cases k m) [
    | inl (e, _) ↦ subst (λ d. is_free (t.ram d) ≡ false) e (Holds-is_free t.ram k q i x.in_frame)
    | inr (ne, _) ↦ HoldSame-is_free s.ram t.ram m (x.frames m ne) ∙ x.was_full m lm
  ];
}
