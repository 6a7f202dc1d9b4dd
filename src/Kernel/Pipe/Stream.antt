-- ===== src/Kernel/Pipe/Stream.antt =====
-- A writer and readers over one pipe of xv6/pipe.c, woken in any order.
use laboratorio_lukitas.Common.{
  ℕ, ◌≡◌, refl, sym, ap, ◌∙◌, inl, inr, true, false, List, [], ◌∷◌, ◌++◌, append_assoc, arith,
  append-nil,
}
use laboratorio_lukitas.Kernel.Pipe.{
  Pipe, Write, wrote, failed, sleeping, pipewrite, Read, got, killed_reader, asleep, piperead,
  pipe_init,
}
use laboratorio_lukitas.Kernel.Pipe.Window.{contents, IsValid}
use laboratorio_lukitas.Kernel.Pipe.Refine.{
  WriteSpec, all, part, broken, ReadSpec, bytes_out, dead, waits, pipewrite_lem, piperead_lem,
}

-- `pending` is what the writer's call has left to write, `received` what readers have got.
pub record Transfer : Type 0 where
  pub pipe : Pipe
  pub pending : List ℕ
  pub received : List ℕ

-- The writer runs until it returns or sleeps, or a reader asks for `n` bytes.
pub data Turn : Type 0 where
  writer : Turn
  reader : ℕ → Turn

abbrev after_write : Transfer → Write → Transfer
after_write t (wrote q) = record t { pipe = q; pending = [] }
after_write t (failed q) = record t { pipe = q }
after_write t (sleeping q rest) = record t { pipe = q; pending = rest }

abbrev after_read : Transfer → Read → Transfer
after_read t (got bytes q) = record t { pipe = q; received = t.received ++ bytes }
after_read t killed_reader = t
after_read t asleep = t

unfoldable pub turn : Transfer → Turn → Transfer
turn t writer = after_write t (pipewrite false t.pipe t.pending)
turn t (reader n) = after_read t (piperead false t.pipe n)

unfoldable pub run : Transfer → List Turn → Transfer
run t [] = t
run t (x ∷ xs) = run (turn t x) xs

abbrev pub total : Transfer → List ℕ
total t = t.received ++ (contents t.pipe ++ t.pending)

-- Both ends are open, and nothing was lost, doubled or reordered so far.
pub record Inv (sent : List ℕ) (t : Transfer) : Type 0 where
  pub valid : IsValid t.pipe
  pub open_read : t.pipe.readopen ≡ true
  pub stream : total t ≡ sent

write-Inv :
    {sent : List ℕ} (t : Transfer) {w : Write}
    → Inv sent t
    → WriteSpec false t.pipe t.pending w
    → Inv sent (after_write t w)
write-Inv t v (all {q} k) = record {
  valid = k.valid;
  open_read = k.readopen ∙ v.open_read;
  stream = ap (λ l. t.received ++ l) (append-nil (contents q) ∙ k.bytes) ∙ v.stream;
}
write-Inv t v (part {q} {rest} taken split k full some_left who) = record {
  valid = k.valid;
  open_read = k.readopen ∙ v.open_read;
  stream =
      ap (λ l. t.received ++ l)
        (ap (λ l. l ++ rest) k.bytes
          ∙ append_assoc (contents t.pipe) taken rest
          ∙ ap (λ l. contents t.pipe ++ l) (sym split))
      ∙ v.stream;
}
write-Inv t v (broken taken rest split k full (inl closed)) = cc (sym v.open_read ∙ closed)
write-Inv t v (broken taken rest split k full (inr killed)) = cc

read-Inv :
    {sent : List ℕ} (t : Transfer) (n : ℕ) {r : Read}
    → Inv sent t
    → ReadSpec false t.pipe n r
    → Inv sent (after_read t r)
read-Inv t n v (bytes_out {bytes} {q} valid split count opened why) = record {
  valid = valid;
  open_read = opened ∙ v.open_read;
  stream =
      append_assoc t.received bytes (contents q ++ t.pending)
      ∙ ap (λ l. t.received ++ l)
          (sym (append_assoc bytes (contents q) t.pending) ∙ ap (λ l. l ++ t.pending) (sym split))
      ∙ v.stream;
}
read-Inv t n v (dead e o k) = v
read-Inv t n v (waits e o k) = v

turn-Inv : {sent : List ℕ} (t : Transfer) (x : Turn) → Inv sent t → Inv sent (turn t x)
unfolding turn
turn-Inv t writer v = write-Inv t v (pipewrite_lem false t.pending t.pipe v.valid)
turn-Inv t (reader n) v = read-Inv t n v (piperead_lem false t.pipe n v.valid)

run-Inv : {sent : List ℕ} (xs : List Turn) (t : Transfer) → Inv sent t → Inv sent (run t xs)
unfolding run
run-Inv [] t v = v
run-Inv (x ∷ xs) t v = run-Inv xs (turn t x) (turn-Inv t x v)

-- A call of `pipewrite` with the bytes `cs` on a new pipe.
abbrev pub opening : (ℕ → ℕ) → List ℕ → Transfer
opening junk cs = record { pipe = pipe_init junk; pending = cs; received = [] }

opening-Inv : (junk : ℕ → ℕ) (cs : List ℕ) → Inv cs (opening junk cs)
unfolding pipe_init
opening-Inv junk cs = record { valid = omega arith; open_read = refl; stream = refl }

-- A pipe delivers what is written to it: whatever the order in which the writer and the readers run
-- and however much the readers ask for, the bytes received, then those in the pipe, then those that
-- the writer has yet to write, are the bytes of the call in order.
pub pipe_delivers :
    (junk : ℕ → ℕ) (cs : List ℕ) (xs : List Turn) → total (run (opening junk cs) xs) ≡ cs
pipe_delivers junk cs xs = (run-Inv xs (opening junk cs) (opening-Inv junk cs)).stream
