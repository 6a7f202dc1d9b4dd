-- ===== src/Kernel/Strings.antt =====
-- xv6/string.c: areas of memory and strings, over a memory of bytes by address. The areas do not
-- reach past the end of the address space, so addresses do not wrap around.
pub mod Move
pub mod Bounded
pub mod Names
mod Tests
use laboratorio_lukitas.Common.{
  ℕ, zero, suc, ◌+◌, ◌-◌, ◌%◌, Bool, true, false, not, ◌&&◌, ltb, ◌==◌, if◌then◌else◌, update,
}

abbrev pub Memory : Type 0
Memory = ℕ → ℕ

-- The loop of `memmove` from the ends of the areas.
unfoldable pub copy_back : ℕ → ℕ → ℕ → Memory → Memory
copy_back zero d s mem = mem
copy_back (suc n) d s mem = copy_back n d s (update mem (d + n) (mem (s + n)))

-- The loop of `memmove` from the starts.
unfoldable pub copy_forth : ℕ → ℕ → ℕ → Memory → Memory
copy_forth zero d s mem = mem
copy_forth (suc n) d s mem = copy_forth n (suc d) (suc s) (update mem d (mem s))

unfoldable pub memmove : Memory → ℕ → ℕ → ℕ → Memory
memmove mem dst src n =
    if ltb src dst && ltb dst (src + n) then copy_back n dst src mem else copy_forth n dst src mem

unfoldable pub memcpy : Memory → ℕ → ℕ → ℕ → Memory
memcpy mem dst src n = memmove mem dst src n

-- The loop of `safestrcpy`, with n - 1 rounds, and the NUL after it.
unfoldable pub copy_string : ℕ → ℕ → ℕ → Memory → Memory
copy_string zero s t mem = update mem s 0
copy_string (suc n) s t mem = elim (mem t == 0) [
  | true ↦ update (update mem s (mem t)) (suc s) 0
  | false ↦ copy_string n (suc s) (suc t) (update mem s (mem t))
]

unfoldable pub safestrcpy : Memory → ℕ → ℕ → ℕ → Memory
safestrcpy mem s t zero = mem
safestrcpy mem s t (suc n) = copy_string n s t mem

-- The loop of `strncpy` that pads with NUL.
unfoldable pub pad : ℕ → ℕ → Memory → Memory
pad zero s mem = mem
pad (suc n) s mem = pad n (suc s) (update mem s 0)

-- `strncpy`, for an n that is not negative.
unfoldable pub strncpy : Memory → ℕ → ℕ → ℕ → Memory
strncpy mem s t zero = mem
strncpy mem s t (suc n) = elim (mem t == 0) [
  | true ↦ pad n (suc s) (update mem s (mem t))
  | false ↦ strncpy (update mem s (mem t)) (suc s) (suc t) n
]

-- The difference of two bytes, which is the result of a comparison.
pub record Difference : Type 0 where
  pub minuend : ℕ
  pub subtrahend : ℕ

unfoldable pub strncmp : Memory → ℕ → ℕ → ℕ → Difference
strncmp mem p q zero = record { minuend = 0; subtrahend = 0 }
strncmp mem p q (suc n) =
    let rest = strncmp mem (suc p) (suc q) n in
    if not (mem p == 0) && (mem p == mem q)
    then rest
    else record { minuend = mem p; subtrahend = mem q }

unfoldable pub memcmp : Memory → ℕ → ℕ → ℕ → Difference
memcmp mem v1 v2 zero = record { minuend = 0; subtrahend = 0 }
memcmp mem v1 v2 (suc n) =
    let rest = memcmp mem (suc v1) (suc v2) n in
    if mem v1 == mem v2 then rest else record { minuend = mem v1; subtrahend = mem v2 }
