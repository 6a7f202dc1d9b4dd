-- ===== src/Kernel/Strings/Tests.antt =====
-- Tests of the model of xv6/string.c, and its theorems at concrete memories.
use laboratorio_lukitas.Common.{◌≡◌, refl, arith, inr, update}
use laboratorio_lukitas.Kernel.Strings.{
  Memory, copy_back, copy_forth, memmove, memcpy, copy_string, safestrcpy, strncpy, strncmp, pad,
}
use laboratorio_lukitas.Kernel.Strings.Move.{Moved, memmove_lem}
use laboratorio_lukitas.Kernel.Strings.Names.{strncmp-strncpy}
use laboratorio_lukitas.Kernel.Strings.Bounded.{Ended, safestrcpy_lem}

-- The byte at each address is the address.
abbrev numbered : Memory
numbered a = a

overlapping : memmove numbered 12 10 5 16 ≡ 14
unfolding memmove copy_back
overlapping = refl

forwards : memcpy numbered 10 12 5 14 ≡ 16
unfolding memcpy memmove copy_forth
forwards = refl

cut_short : safestrcpy numbered 100 50 4 103 ≡ 0
unfolding safestrcpy copy_string
cut_short = refl

memmove_lem_example : Moved numbered 12 10 5 (memmove numbered 12 10 5)
memmove_lem_example = memmove_lem numbered 12 10 5

safestrcpy_lem_example : Ended numbered 100 4 (safestrcpy numbered 100 50 4)
safestrcpy_lem_example = safestrcpy_lem numbered 100 50 4 (omega arith)

-- The names "ab" at 10 and 20, and the field at 30.
abbrev names : Memory
names = update (update (update (update (λ _. 0) 10 97) 11 98) 20 97) 21 98

same_names : strncmp (strncpy names 30 10 5) 20 30 5 ≡ record { minuend = 0; subtrahend = 0 }
unfolding strncmp strncpy pad
same_names = refl

strncmp-strncpy_example : strncmp (strncpy names 30 10 5) 20 30 5 ≡ strncmp names 20 10 5
strncmp-strncpy_example = strncmp-strncpy 5 30 10 20 names (inr (omega arith)) (inr (omega arith))
