-- ===== src/Kernel/Pipe.antt =====
-- xv6/pipe.c: a pipe's ring of 512 bytes with two 32-bit counters. The lock is held throughout each
-- function but for the sleeps; a call that sleeps returns `sleeping` with what is left of it, and is
-- run again from its loop's test when it is woken. Bytes are only moved, so a byte is any number.
pub mod Window
pub mod Refine
pub mod Stream
mod Tests
use laboratorio_lukitas.Common.{
  ℕ, zero, suc, ◌+◌, ◌%◌, ◌^◌, Bool, true, false, not, ◌&&◌, ◌||◌, List, [], ◌∷◌, ◌==◌,
  if◌then◌else◌, update,
}

abbrev pub pipe_size : ℕ
pipe_size = 512

abbrev pub u32_mod : ℕ
u32_mod = 2 ^ 32

pub record Pipe : Type 0 where
  pub ring : ℕ → ℕ
  pub nread : ℕ
  pub nwrite : ℕ
  pub readopen : Bool
  pub writeopen : Bool

-- The fields that `pipealloc` sets in the page from `kalloc`, which holds `junk`.
pub pipe_init : (ℕ → ℕ) → Pipe
pipe_init junk = record { ring = junk; nread = 0; nwrite = 0; readopen = true; writeopen = true }

-- `p->data[p->nwrite++ % PIPESIZE] = c`
pub put_byte : Pipe → ℕ → Pipe
put_byte p c = record p {
  ring = update p.ring (p.nwrite % pipe_size) c;
  nwrite = (p.nwrite + 1) % u32_mod;
}

-- `p->nread++` in `piperead`, and the byte that it reads.
pub next_byte : Pipe → ℕ
next_byte p = p.ring (p.nread % pipe_size)

pub skip_byte : Pipe → Pipe
skip_byte p = record p { nread = (p.nread + 1) % u32_mod }

pub is_full : Pipe → Bool
is_full p = p.nwrite == (p.nread + pipe_size) % u32_mod

pub is_empty : Pipe → Bool
is_empty p = p.nread == p.nwrite

-- `wrote` stands for the return of `n`, `failed` for that of -1.
pub data Write : Type 0 where
  wrote : Pipe → Write
  failed : Pipe → Write
  sleeping : Pipe → List ℕ → Write

-- `pipewrite` from the test of its inner loop on, with `addr[i..n)` still to write.
pub pipewrite : Bool → Pipe → List ℕ → Write
pipewrite killed p [] = wrote p
pipewrite killed p (c ∷ cs) =
    let rest = pipewrite killed (put_byte p c) cs in
    if is_full p then if not p.readopen || killed then failed p else sleeping p (c ∷ cs) else rest

-- The copying loop of `piperead`, with `rounds` = n - i: the bytes read, and the pipe.
pub copy_out : ℕ → Pipe → List ℕ × Pipe
copy_out zero p = ([], p)
copy_out (suc rounds) p =
    let (bytes, p') = copy_out rounds (skip_byte p) in
    if is_empty p then ([], p) else (next_byte p ∷ bytes, p')

pub data Read : Type 0 where
  got : List ℕ → Pipe → Read
  killed_reader : Read
  asleep : Read

-- `piperead` from the test of its first loop on.
pub piperead : Bool → Pipe → ℕ → Read
piperead killed p n =
    if is_empty p && p.writeopen
    then if killed then killed_reader else asleep
    else let (bytes, p') = copy_out n p in got bytes p'

-- `pipeclose`: the pipe, and whether its page is freed.
pub pipeclose : Pipe → Bool → Pipe × Bool
pipeclose p writable =
    let q = if writable then record p { writeopen = false } else record p { readopen = false } in
    (q, not q.readopen && not q.writeopen)
