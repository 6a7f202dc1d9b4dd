-- ===== src/Shell/Printer.antt =====
-- The lines that xv6/sh.c reads as a given command: every command inside another stands in parentheses.
use laboratorio_lukitas.Common.{
  ℕ, zero, suc, ◌≤◌, ◌<◌, ◌≡◌, false, List, [], ◌∷◌, ◌++◌, length, arith,
}
use laboratorio_lukitas.Shell.{
  Chars, Redir, Cmd, execcmd, redircmd, pipecmd, listcmd, backcmd, o_rdonly, o_wronly_create,
  whitespace, symbols, strchr, maxargs,
}

-- A character of a word.
pub record Plain (c : ℕ) : Type 0 where
  pub blank : strchr whitespace c ≡ false
  pub inside : strchr symbols c ≡ false

pub data IsWord : Chars → Type 0 where
  last : {c : ℕ} → Plain c → IsWord (c ∷ [])
  more : {c : ℕ} {w : Chars} → Plain c → IsWord w → IsWord (c ∷ w)

pub data Words : List Chars → Type 0 where
  no_words : Words []
  words : {w : Chars} {ws : List Chars} → IsWord w → Words ws → Words (w ∷ ws)

-- "<" file, and ">" file.
pub data IsRedir : Redir → Type 0 where
  input : {file : Chars} → IsWord file → IsRedir (record { file = file; mode = o_rdonly; fd = 0 })
  output :
      {file : Chars}
      → IsWord file
      → IsRedir (record { file = file; mode = o_wronly_create; fd = 1 })

-- The commands that a line can stand for.
pub data IsCmd : Cmd → Type 0 where
  is_exec : {ws : List Chars} → Words ws → length ws < maxargs → IsCmd (execcmd ws)
  is_redir : {c : Cmd} {r : Redir} → IsCmd c → IsRedir r → IsCmd (redircmd c r)
  is_pipe : {c d : Cmd} → IsCmd c → IsCmd d → IsCmd (pipecmd c d)
  is_list : {c d : Cmd} → IsCmd c → IsCmd d → IsCmd (listcmd c d)
  is_back : {c : Cmd} → IsCmd c → IsCmd (backcmd c)

abbrev pub print_word : Chars → Chars → Chars
print_word w k = w ++ (32 ∷ k)

abbrev pub print_words : List Chars → Chars → Chars
print_words [] k = k
print_words (w ∷ ws) k = print_word w (print_words ws k)

abbrev pub sign : ℕ → ℕ
sign zero = 60
sign (suc n) = 62

-- The line of the command, in front of `k`.
abbrev pub print : Cmd → Chars → Chars
print (execcmd ws) k = print_words ws k
print (redircmd c r) k = 40 ∷ 32 ∷ print c (41 ∷ 32 ∷ sign r.fd ∷ 32 ∷ print_word r.file k)
print (pipecmd c d) k = 40 ∷ 32 ∷ print c (41 ∷ 32 ∷ 124 ∷ 32 ∷ 40 ∷ 32 ∷ print d (41 ∷ 32 ∷ k))
print (listcmd c d) k = 40 ∷ 32 ∷ print c (41 ∷ 32 ∷ 59 ∷ 32 ∷ 40 ∷ 32 ∷ print d (41 ∷ 32 ∷ k))
print (backcmd c) k = 40 ∷ 32 ∷ print c (41 ∷ 32 ∷ 38 ∷ 32 ∷ k)

length-print_word : (w k : Chars) → length k ≤ length (print_word w k)
length-print_word [] k = omega arith
length-print_word (c ∷ w) k = omega (arith, length-print_word w k)

length-print_words : (ws : List Chars) (k : Chars) → length k ≤ length (print_words ws k)
length-print_words [] k = omega arith
length-print_words (w ∷ ws) k =
    omega (arith, length-print_words ws k, length-print_word w (print_words ws k))

pub length-print : (c : Cmd) (k : Chars) → length k ≤ length (print c k)
length-print (execcmd ws) k = length-print_words ws k
length-print (redircmd c r) k =
    let after = 41 ∷ 32 ∷ sign r.fd ∷ 32 ∷ print_word r.file k in
    omega (arith, length-print_word r.file k, length-print c after)
length-print (pipecmd c d) k =
    let after = 41 ∷ 32 ∷ 124 ∷ 32 ∷ 40 ∷ 32 ∷ print d (41 ∷ 32 ∷ k) in
    omega (arith, length-print d (41 ∷ 32 ∷ k), length-print c after)
length-print (listcmd c d) k =
    let after = 41 ∷ 32 ∷ 59 ∷ 32 ∷ 40 ∷ 32 ∷ print d (41 ∷ 32 ∷ k) in
    omega (arith, length-print d (41 ∷ 32 ∷ k), length-print c after)
length-print (backcmd c) k = omega (arith, length-print c (41 ∷ 32 ∷ 38 ∷ 32 ∷ k))
