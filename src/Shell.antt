-- ===== src/Shell.antt =====
-- xv6/sh.c: the parser of the shell. A line is the list of its characters up to the NUL, which
-- stands at the end of the list; the pointer `*ps` is the rest of the line. A counted string is the
-- list of its characters, which is what it is once `nulterminate` has ended it.
pub mod Tokens
pub mod Returns
pub mod Printer
pub mod Words
pub mod RoundTrip
mod Tests
use laboratorio_lukitas.Common.{
  ℕ, zero, suc, ◌+◌, Bool, true, false, ◌||◌, List, [], ◌∷◌, ◌++◌, ◌==◌, leb, if◌then◌else◌, length,
}

abbrev pub maxargs : ℕ
maxargs = 10

abbrev pub o_rdonly : ℕ
o_rdonly = 0

-- O_WRONLY|O_CREATE
abbrev pub o_wronly_create : ℕ
o_wronly_create = 513

abbrev pub Chars : Type 0
Chars = List ℕ

pub record Redir : Type 0 where
  pub file : Chars
  pub mode : ℕ
  pub fd : ℕ

pub data Cmd : Type 0 where
  execcmd : List Chars → Cmd
  redircmd : Cmd → Redir → Cmd
  pipecmd listcmd : Cmd → Cmd → Cmd
  backcmd : Cmd → Cmd

-- The results of `gettoken`: 0, a character of `symbols`, '+' for ">>", and 'a' with the word.
pub data Token : Type 0 where
  nul append : Token
  symbol : ℕ → Token
  word : Chars → Token

pub data Panic : Type 0 where
  missing_file missing_paren syntax too_many_args leftovers : Panic

pub data Parsed (A : Type 0) : Type 0 where
  parsed : A → Chars → Parsed A
  panic : Panic → Parsed A
  out_of_rounds : Parsed A

abbrev pub whitespace : Chars
whitespace = 32 ∷ 9 ∷ 13 ∷ 10 ∷ 11 ∷ []

abbrev pub symbols : Chars
symbols = 60 ∷ 124 ∷ 62 ∷ 38 ∷ 59 ∷ 40 ∷ 41 ∷ []

-- Whether the character, which is not NUL, stands in the string.
abbrev pub strchr : Chars → ℕ → Bool
strchr [] c = false
strchr (d ∷ s) c = (c == d) || strchr s c

-- The loops over whitespace.
unfoldable pub skip : Chars → Chars
skip [] = []
skip (c ∷ s) = let rest = skip s in if strchr whitespace c then rest else c ∷ s

-- The loop over the characters of a word: the word, and what follows it.
unfoldable pub scan_word : Chars → Chars × Chars
scan_word [] = ([], [])
scan_word (c ∷ s) =
    let rest = scan_word s in
    if strchr whitespace c || strchr symbols c then ([], c ∷ s) else (c ∷ rest.0, rest.1)

abbrev pub lex_greater : Chars → Token × Chars
lex_greater [] = (symbol 62, [])
lex_greater (c ∷ s) = if c == 62 then (append, skip s) else (symbol 62, skip (c ∷ s))

-- The `switch` of `gettoken`, and the whitespace after the token.
unfoldable pub lex : Chars → Token × Chars
lex [] = (nul, [])
lex (c ∷ s) =
    if c == 62
    then lex_greater s
    else if strchr (60 ∷ 124 ∷ 38 ∷ 59 ∷ 40 ∷ 41 ∷ []) c
    then (symbol c, skip s)
    else (word (scan_word (c ∷ s)).0, skip (scan_word (c ∷ s)).1)

abbrev pub gettoken : Chars → Token × Chars
gettoken s = lex (skip s)

abbrev pub starts : Chars → Chars → Bool
starts toks [] = false
starts toks (c ∷ s) = strchr toks c

-- The result of `peek`, which moves `*ps` to `skip s`.
abbrev pub peek : Chars → Chars → Bool
peek toks s = starts toks (skip s)

abbrev pub and_then : {A B : Type 0} → Parsed A → (A → Chars → Parsed B) → Parsed B
and_then (parsed a r) f = f a r
and_then (panic p) f = panic p
and_then out_of_rounds f = out_of_rounds

-- The redirections, the first one innermost.
abbrev pub redirect : Cmd → List Redir → Cmd
redirect c [] = c
redirect c (r ∷ rs) = redirect (redircmd c r) rs

abbrev pub redir_of : Token → Chars → Redir
redir_of (symbol c) file =
    if c == 60
    then record { file = file; mode = o_rdonly; fd = 0 }
    else record { file = file; mode = o_wronly_create; fd = 1 }
redir_of append file = record { file = file; mode = o_wronly_create; fd = 1 }
redir_of nul file = record { file = file; mode = o_wronly_create; fd = 1 }
redir_of (word w) file = record { file = file; mode = o_wronly_create; fd = 1 }

-- The word that `gettoken` has to give.
abbrev pub expect_word : Panic → Token × Chars → Parsed Chars
expect_word p (word w, r) = parsed w r
expect_word p (nul, r) = panic p
expect_word p (append, r) = panic p
expect_word p (symbol c, r) = panic p

-- The redirections that `parseredirs` puts around its command.
unfoldable pub parseredirs : ℕ → Chars → Parsed (List Redir)
parseredirs zero s = out_of_rounds
parseredirs (suc rounds) s = elim (peek (60 ∷ 62 ∷ []) s) as (λ _. Parsed (List Redir)) [
  | false ↦ parsed [] (skip s)
  | true ↦ and_then (expect_word missing_file (gettoken (gettoken s).1)) (λ file r.
      and_then (parseredirs rounds r) (λ rs r'. parsed (redir_of (gettoken s).0 file ∷ rs) r'))
]

-- The loop of `parseexec`: the arguments from the `argc`-th on, and the redirections among them.
unfoldable pub parseargs : ℕ → ℕ → Chars → Parsed (List Chars × List Redir)
parseargs zero argc s = out_of_rounds
parseargs (suc rounds) argc s =
    elim (peek (124 ∷ 41 ∷ 38 ∷ 59 ∷ []) s) as (λ _. Parsed (List Chars × List Redir)) [
      | true ↦ parsed ([], []) (skip s)
      | false ↦ elim (gettoken s).0 as (λ _. Parsed (List Chars × List Redir)) [
        | nul ↦ parsed ([], []) (gettoken s).1
        | append ↦ panic syntax
        | symbol _ ↦ panic syntax
        | word w ↦ elim (leb maxargs (argc + 1)) as (λ _. Parsed (List Chars × List Redir)) [
          | true ↦ panic too_many_args
          | false ↦ and_then (parseredirs rounds (gettoken s).1) (λ rs r.
              and_then (parseargs rounds (argc + 1) r)
                (λ (ws, rs') r'. parsed (w ∷ ws, rs ++ rs') r'))
        ]
      ]
    ]

-- `parseblock`, after its test for "("; `line` is `parseline`.
unfoldable pub parseblock : (Chars → Parsed Cmd) → ℕ → Chars → Parsed Cmd
parseblock line rounds s = and_then (line (gettoken s).1) (λ c r.
    elim (peek (41 ∷ []) r) as (λ _. Parsed Cmd) [
      | false ↦ panic missing_paren
      | true ↦ and_then (parseredirs rounds (gettoken r).1) (λ rs r'. parsed (redirect c rs) r')
    ])

unfoldable pub parseexec : (Chars → Parsed Cmd) → ℕ → Chars → Parsed Cmd
parseexec line rounds s = elim (peek (40 ∷ []) s) as (λ _. Parsed Cmd) [
  | true ↦ parseblock line rounds s
  | false ↦ and_then (parseredirs rounds s) (λ rs r.
      and_then (parseargs rounds 0 r)
        (λ (ws, rs') r'. parsed (redirect (execcmd ws) (rs ++ rs')) r'))
]

unfoldable pub parsepipe : (Chars → Parsed Cmd) → ℕ → Chars → Parsed Cmd
parsepipe line zero s = out_of_rounds
parsepipe line (suc rounds) s = and_then (parseexec line (suc rounds) s) (λ c r.
    elim (peek (124 ∷ []) r) as (λ _. Parsed Cmd) [
      | false ↦ parsed c (skip r)
      | true ↦ and_then (parsepipe line rounds (gettoken r).1) (λ d r'. parsed (pipecmd c d) r')
    ])

-- The loop of `parseline` over "&".
unfoldable pub parsebacks : ℕ → Cmd → Chars → Parsed Cmd
parsebacks zero c s = out_of_rounds
parsebacks (suc rounds) c s = elim (peek (38 ∷ []) s) as (λ _. Parsed Cmd) [
  | false ↦ parsed c (skip s)
  | true ↦ parsebacks rounds (backcmd c) (gettoken s).1
]

unfoldable pub parseline : ℕ → Chars → Parsed Cmd
parseline zero s = out_of_rounds
parseline (suc rounds) s = and_then (parsepipe (λ t. parseline rounds t) (suc rounds) s) (λ c r.
    and_then (parsebacks (suc rounds) c r) (λ d r'. elim (peek (59 ∷ []) r') as (λ _. Parsed Cmd) [
      | false ↦ parsed d (skip r')
      | true ↦ and_then (parseline rounds (gettoken r').1) (λ e r''. parsed (listcmd d e) r'')
    ]))

abbrev pub at_end : Cmd → Chars → Parsed Cmd
at_end c [] = parsed c []
at_end c (d ∷ s) = panic leftovers

unfoldable pub parsecmd : Chars → Parsed Cmd
parsecmd s = and_then (parseline (suc (length s)) s) (λ c r. at_end c (skip r))
