-- ===== src/Kernel/Pipe/Refine.antt =====
-- `pipewrite`, `piperead` and `pipeclose` of xv6/pipe.c against a bounded queue of bytes.
use laboratorio_lukitas.Common.{
  ℕ, zero, suc, ◌<◌, ◌≡◌, refl, sym, ap, ◌∙◌, ◌≢◌, ◌⊎◌, inl, inr, Bool, true, false, not, ◌||◌,
  ◌&&◌, List, [], ◌∷◌, ◌++◌, arith, length, append-nil, append_assoc, Bool-cases, min,
  if◌then◌else◌,
}
use laboratorio_lukitas.Kernel.Pipe.{
  Pipe, pipe_size, put_byte, next_byte, skip_byte, is_full, is_empty, Write, wrote, failed,
  sleeping, pipewrite, copy_out, Read, got, killed_reader, asleep, piperead,
}
use laboratorio_lukitas.Kernel.Pipe.Window.{
  size, contents, IsValid, full_size, room_size, empty_size, some_size, put_byte-IsValid,
  skip_byte-IsValid, contents-put_byte, contents-skip_byte, contents-nil, length-window,
}

-- The pipe has taken in `taken` behind what it held.
pub record Took (p : Pipe) (taken : List ℕ) (q : Pipe) : Type 0 where
  pub valid : IsValid q
  pub bytes : contents q ≡ contents p ++ taken
  pub readopen : q.readopen ≡ p.readopen

-- What each outcome of `pipewrite` says: all bytes are in the pipe; or it is full, and a first part
-- is in; or a first part is in, and there is no reader or the writer was killed.
pub data WriteSpec (killed : Bool) (p : Pipe) (cs : List ℕ) : Write → Type 0 where
  all : {q : Pipe} → Took p cs q → WriteSpec killed p cs (wrote q)
  part :
      {q : Pipe} {rest : List ℕ} (taken : List ℕ)
      → cs ≡ taken ++ rest
      → Took p taken q
      → size q ≡ pipe_size
      → rest ≢ []
      → (p.readopen ≡ true) × (killed ≡ false)
      → WriteSpec killed p cs (sleeping q rest)
  broken :
      {q : Pipe} (taken rest : List ℕ)
      → cs ≡ taken ++ rest
      → Took p taken q
      → size q ≡ pipe_size
      → (p.readopen ≡ false) ⊎ (killed ≡ true)
      → WriteSpec killed p cs (failed q)

Took-none : (p : Pipe) → IsValid p → Took p [] p
Took-none p v = record { valid = v; bytes = sym (append-nil (contents p)); readopen = refl }

Took-more :
    {p q r : Pipe} {xs : List ℕ} (c : ℕ)
    → contents q ≡ contents p ++ c ∷ []
    → q.readopen ≡ p.readopen
    → Took q xs r
    → Took p (c ∷ xs) r
Took-more {p} {q} {r} {xs} c e o t = record {
  valid = t.valid;
  bytes = t.bytes ∙ ap (λ l. l ++ xs) e ∙ append_assoc (contents p) (c ∷ []) xs;
  readopen = t.readopen ∙ o;
}

WriteSpec-cons :
    {killed : Bool} {p q : Pipe} {cs : List ℕ} {w : Write} (c : ℕ)
    → contents q ≡ contents p ++ c ∷ []
    → q.readopen ≡ p.readopen
    → WriteSpec killed q cs w
    → WriteSpec killed p (c ∷ cs) w
WriteSpec-cons c e o (all t) = all (Took-more c e o t)
WriteSpec-cons c e o (part taken split t full some_left who) =
    part (c ∷ taken) (ap (λ l. c ∷ l) split) (Took-more c e o t) full some_left
      (sym o ∙ who.0, who.1)
WriteSpec-cons c e o (broken taken rest split t full (inl closed)) =
    broken (c ∷ taken) rest (ap (λ l. c ∷ l) split) (Took-more c e o t) full (inl (sym o ∙ closed))
WriteSpec-cons c e o (broken taken rest split t full (inr dead)) =
    broken (c ∷ taken) rest (ap (λ l. c ∷ l) split) (Took-more c e o t) full (inr dead)

blocked :
    (killed : Bool) (p : Pipe) (c : ℕ) (cs : List ℕ)
    → IsValid p
    → size p ≡ pipe_size
    → (o : Bool) → p.readopen ≡ o
    → (k : Bool) → killed ≡ k
    → WriteSpec killed p (c ∷ cs) (if not o || k then failed p else sleeping p (c ∷ cs))
blocked killed p c cs v full true e true k = broken [] (c ∷ cs) refl (Took-none p v) full (inr k)
blocked killed p c cs v full true e false k = part [] refl (Took-none p v) full (λ h. cc) (e, k)
blocked killed p c cs v full false e b k = broken [] (c ∷ cs) refl (Took-none p v) full (inl e)

-- `pipewrite` on a valid pipe appends a first part of its bytes, in order: all of them when it
-- returns `n`; otherwise the pipe is full, and it sleeps with the rest if there is a reader and the
-- writer was not killed, and fails if not. It never overwrites a byte that was not read.
pub pipewrite_lem :
    (killed : Bool) (cs : List ℕ) (p : Pipe)
    → IsValid p
    → WriteSpec killed p cs (pipewrite killed p cs)
unfolding pipewrite
pipewrite_lem killed [] p v = all (Took-none p v)
pipewrite_lem killed (c ∷ cs) p v =
    let ih = pipewrite_lem killed cs (put_byte p c) in
    elim (Bool-cases (is_full p)) [
      | inl full ↦
          rw full (blocked killed p c cs v (full_size p v full) p.readopen refl killed refl)
      | inr room ↦ rw room (
          WriteSpec-cons c (contents-put_byte p c v (below room)) (open_kept)
            (ih (put_byte-IsValid p c v (below room))))
    ]
  where
    below : is_full p ≡ false → size p < pipe_size
    below room = room_size p v room

    open_kept : (put_byte p c).readopen ≡ p.readopen
    open_kept = unfold put_byte in refl

-- What the copying loop of `piperead` has taken out.
record Gave (p : Pipe) (rounds : ℕ) (bytes : List ℕ) (q : Pipe) : Type 0 where
  pub valid : IsValid q
  pub split : contents p ≡ bytes ++ contents q
  pub count : length bytes ≡ min rounds (size p)
  pub opened : q.readopen ≡ p.readopen

copy_out-Gave :
    (rounds : ℕ) (p : Pipe) → IsValid p → Gave p rounds (copy_out rounds p).0 (copy_out rounds p).1
unfolding copy_out
copy_out-Gave zero p v = record { valid = v; split = refl; count = omega arith; opened = refl }
copy_out-Gave (suc rounds) p v =
    let ih = copy_out-Gave rounds (skip_byte p) in
    elim (Bool-cases (is_empty p)) [
      | inl none_left ↦ rw none_left (record {
        valid = v;
        split = refl;
        count = omega (arith, empty_size p v none_left);
        opened = refl;
      })
      | inr some_left ↦
          rw some_left (one_more some_left (ih (skip_byte-IsValid p v (some_size p v some_left))))
    ]
  where
    one_more :
        is_empty p ≡ false
        → Gave
            (skip_byte p)
            rounds
            (copy_out rounds (skip_byte p)).0
            (copy_out rounds (skip_byte p)).1
        → Gave p
            (suc rounds)
            (next_byte p ∷ (copy_out rounds (skip_byte p)).0)
            (copy_out rounds (skip_byte p)).1
    one_more some_left g = record {
      valid = g.valid;
      split = front ∙ ap (λ l. next_byte p ∷ l) g.split;
      count = omega (arith, g.count, shorter, some_size p v some_left);
      opened = g.opened ∙ (unfold skip_byte in refl);
    }
      where
        front : contents p ≡ next_byte p ∷ contents (skip_byte p)
        front = contents-skip_byte p v (some_size p v some_left)

        shorter : size p ≡ suc (size (skip_byte p))
        shorter = omega (
          arith,
          ap length front,
          length-window p.ring p.nread (size p),
          length-window (skip_byte p).ring (skip_byte p).nread (size (skip_byte p)),
        )

-- What each outcome of `piperead` says.
pub data ReadSpec (killed : Bool) (p : Pipe) (n : ℕ) : Read → Type 0 where
  bytes_out :
      {bytes : List ℕ} {q : Pipe}
      → IsValid q
      → contents p ≡ bytes ++ contents q
      → length bytes ≡ min n (size p)
      → q.readopen ≡ p.readopen
      → (contents p ≢ []) ⊎ (p.writeopen ≡ false)
      → ReadSpec killed p n (got bytes q)
  dead : contents p ≡ [] → p.writeopen ≡ true → killed ≡ true → ReadSpec killed p n killed_reader
  waits : contents p ≡ [] → p.writeopen ≡ true → killed ≡ false → ReadSpec killed p n asleep

-- `piperead` on a valid pipe returns the oldest bytes, as many as are asked for and there, and leaves
-- the rest, if there are any or the write end is closed; otherwise it fails if the reader was killed,
-- and sleeps if not.
pub piperead_lem :
    (killed : Bool) (p : Pipe) (n : ℕ) → IsValid p → ReadSpec killed p n (piperead killed p n)
unfolding piperead
piperead_lem killed p n v = elim (Bool-cases (is_empty p)) [
  | inl none_left ↦
      rw none_left
        (empty_case p.writeopen refl killed refl (contents-nil p (empty_size p v none_left)))
  | inr some_left ↦ rw some_left (
      bytes_out gave.valid gave.split gave.count gave.opened
        (inl (nonempty (some_size p v some_left))))
]
  where
    gave : Gave p n (copy_out n p).0 (copy_out n p).1
    gave = copy_out-Gave n p v

    nonempty : size p ≢ 0 → contents p ≢ []
    nonempty ne e = ne (sym (length-window p.ring p.nread (size p)) ∙ ap length e)

    empty_case :
        (o : Bool)
        → p.writeopen ≡ o
        → (k : Bool) → killed ≡ k
        → contents p ≡ []
        → ReadSpec killed p n (
            if true && o
            then if k then killed_reader else asleep
            else let (bytes, q) = copy_out n p in got bytes q)
    empty_case true eo true ek e = dead e eo ek
    empty_case true eo false ek e = waits e eo ek
    empty_case false eo k ek e = bytes_out gave.valid gave.split gave.count gave.opened (inr eo)
