-- ===== src/Kernel/Log/Trace.antt =====
-- Histories of disk writes, for xv6/log.c: a power failure leaves the disk after some first writes.
use laboratorio_lukitas.Common.{
  ℕ, zero, suc, ◌≡◌, refl, ◌∙◌, sym, ap, subst, List, [], ◌∷◌, ◌++◌, take, update,
}
use laboratorio_lukitas.Kernel.Log.{Block, Disk, Machine, bwrite}

abbrev pub Write : Type 0
Write = ℕ × Block

abbrev pub replay : List Write → Disk → Disk
replay [] d = d
replay ((b, x) ∷ ws) d = replay ws (update d b x)

-- `P` holds of the disk at the start and after each write.
abbrev pub Along : (Disk → Type 0) → Disk → List Write → Type 0
Along P d [] = P d
Along P d ((b, x) ∷ ws) = P d × Along P (update d b x) ws

-- The disk when the power fails after `k` writes of `op`, run from `m`.
abbrev pub after_crash : (Machine → Machine) → ℕ → Machine → Disk
after_crash op k m = replay (take k (op (record m { writes = [] })).writes) m.disk

replay-append :
    (ws : List Write) (b : ℕ) (x : Block) (d : Disk)
    → replay (ws ++ (b, x) ∷ []) d ≡ update (replay ws d) b x
replay-append [] b x d = refl
replay-append ((c, y) ∷ ws) b x d = replay-append ws b x (update d c y)

module _ (P : Disk → Type 0) where
  Along-append :
      (ws : List Write) (b : ℕ) (x : Block) (d : Disk)
      → Along P d ws
      → P (update (replay ws d) b x)
      → Along P d (ws ++ (b, x) ∷ [])
  Along-append [] b x d h p = (h, p)
  Along-append ((c, y) ∷ ws) b x d h p = (h.0, Along-append ws b x (update d c y) h.1 p)

  pub Along-take : (ws : List Write) (k : ℕ) (d : Disk) → Along P d ws → P (replay (take k ws) d)
  Along-take [] zero d h = h
  Along-take [] (suc k) d h = h
  Along-take ((c, y) ∷ ws) zero d h = h.0
  Along-take ((c, y) ∷ ws) (suc k) d h = Along-take ws k (update d c y) h.1

  -- The history of `m` leads from `d` to its disk, with `P` all along.
  pub record Safe (d : Disk) (m : Machine) : Type 0 where
    pub along : Along P d m.writes
    pub leads : replay m.writes d ≡ m.disk

  pub bwrite-Safe :
      {d : Disk} {m : Machine} (b : ℕ) (x : Block)
      → Safe d m
      → P (update m.disk b x)
      → Safe d (bwrite m b x)
  unfolding bwrite
  bwrite-Safe {d} {m} b x s p = record {
    along = Along-append m.writes b x d s.along (subst (λ e. P (update e b x)) (sym s.leads) p);
    leads = replay-append m.writes b x d ∙ ap (λ e. update e b x) s.leads;
  }
