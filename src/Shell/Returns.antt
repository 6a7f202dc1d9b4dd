-- ===== src/Shell/Returns.antt =====
-- The parser of xv6/sh.c ends: every parser gives a result or a panic within a round for each character.
use laboratorio_lukitas.Common.{
  ℕ, zero, suc, ◌+◌, ◌≤◌, ◌<◌, ◌≡◌, refl, inl, inr, true, false, List, [], ◌∷◌, ◌++◌, leb, length,
  arith, Bool-cases,
}
use laboratorio_lukitas.Shell.{
  Chars, Redir, Cmd, backcmd, Token, nul, append, symbol, word, Panic, Parsed, parsed, panic, skip,
  gettoken, peek, and_then, missing_file, syntax, too_many_args, maxargs, expect_word, parseredirs,
  parseargs, parseblock, parseexec, parsepipe, parsebacks, parseline, parsecmd, at_end,
}
use laboratorio_lukitas.Shell.Tokens.{
  length-skip, length-gettoken, length-gettoken-peek, length-gettoken-word,
}

-- A result that leaves at most `b` characters, or a panic: the rounds were enough.
pub data Returns {A : Type 0} (b : ℕ) : Parsed A → Type 0 where
  leaves : {a : A} {r : Chars} → length r ≤ b → Returns b (parsed a r)
  panics : {p : Panic} → Returns b (panic p)

and_then-Returns :
    {A B : Type 0} (b b' : ℕ) (o : Parsed A) (f : A → Chars → Parsed B)
    → Returns b o
    → ((a : A) (r : Chars) → length r ≤ b → Returns b' (f a r))
    → Returns b' (and_then o f)
and_then-Returns b b' _ f (leaves {a = a} {r = r} l) h = h a r l
and_then-Returns b b' _ f panics h = panics

Returns-le : {A : Type 0} (b b' : ℕ) (o : Parsed A) → b ≤ b' → Returns b o → Returns b' o
Returns-le b b' _ l (leaves lr) = leaves (omega (arith, l, lr))
Returns-le b b' _ l panics = panics

expect_word-Returns :
    (p : Panic) (x : Token × Chars) (b : ℕ) → length x.1 ≤ b → Returns b (expect_word p x)
expect_word-Returns p (nul, r) b l = panics
expect_word-Returns p (append, r) b l = panics
expect_word-Returns p (symbol c, r) b l = panics
expect_word-Returns p (word w, r) b l = leaves l

parseredirs-Returns :
    (rounds : ℕ) (s : Chars) → length s < rounds → Returns (length s) (parseredirs rounds s)
unfolding parseredirs
parseredirs-Returns zero s l = absurd (omega arith)
parseredirs-Returns (suc rounds) s l = elim (Bool-cases (peek (60 ∷ 62 ∷ []) s)) [
  | inr t ↦ rw (t, parseredirs) (leaves (length-skip s))
  | inl t ↦
      let first = length-gettoken-peek (60 ∷ 62 ∷ []) s t in
      let second = length-gettoken (gettoken s).1 in
      rw (t, parseredirs)
        (and_then-Returns (length (gettoken s).1) (length s)
          (expect_word missing_file (gettoken (gettoken s).1)) _
          (expect_word-Returns missing_file (gettoken (gettoken s).1) (length (gettoken s).1)
            second)
          (λ file r lr.
            and_then-Returns (length r) (length s) (parseredirs rounds r) _
              (parseredirs-Returns rounds r (omega (arith, first, lr, l)))
              (λ rs r' lr'. leaves (omega (arith, first, lr, lr')))))
]

parseargs-Returns :
    (rounds argc : ℕ) (s : Chars) → length s < rounds → Returns (length s) (parseargs rounds argc s)
unfolding parseargs
parseargs-Returns zero argc s l = absurd (omega arith)
parseargs-Returns (suc rounds) argc s l = elim (Bool-cases (peek (124 ∷ 41 ∷ 38 ∷ 59 ∷ []) s)) [
  | inl t ↦ rw (t, parseargs) (leaves (length-skip s))
  | inr t ↦
      rw (t, parseargs)
        (by_token (λ r lr. parseargs-Returns rounds (argc + 1) r lr) (gettoken s).0
          (λ w e. length-gettoken-word s w e))
]
  where
    Rest : Type 0
    Rest = (r : Chars) → length r < rounds → Returns (length r) (parseargs rounds (argc + 1) r)

    next :
        Rest
        → (w : Chars) → length (gettoken s).1 < length s
        → Returns
            (length s)
            (elim (leb maxargs (argc + 1)) as (λ _. Parsed (List Chars × List Redir)) [
              | true ↦ panic too_many_args
              | false ↦ and_then (parseredirs rounds (gettoken s).1) (λ rs r.
                  and_then
                    (parseargs rounds (argc + 1) r)
                    (λ (ws, rs') r'. parsed (w ∷ ws, rs ++ rs') r'))
            ])
    next rest w shorter = elim (Bool-cases (leb maxargs (argc + 1))) [
      | inl t ↦ rw t panics
      | inr t ↦ rw t (
          and_then-Returns (length (gettoken s).1) (length s) (parseredirs rounds (gettoken s).1) _
            (parseredirs-Returns rounds (gettoken s).1 (omega (arith, shorter, l)))
            (λ rs r lr.
              and_then-Returns (length r) (length s) (parseargs rounds (argc + 1) r) _
                (rest r (omega (arith, shorter, lr, l)))
                (λ x r' lr'. leaves (omega (arith, shorter, lr, lr')))))
    ]

    by_token :
        Rest
        → (tok : Token) → ((w : Chars) → tok ≡ word w → length (gettoken s).1 < length s)
        → Returns (length s) (elim tok as (λ _. Parsed (List Chars × List Redir)) [
          | nul ↦ parsed ([], []) (gettoken s).1
          | append ↦ panic syntax
          | symbol _ ↦ panic syntax
          | word w ↦ elim (leb maxargs (argc + 1)) as (λ _. Parsed (List Chars × List Redir)) [
            | true ↦ panic too_many_args
            | false ↦ and_then (parseredirs rounds (gettoken s).1) (λ rs r.
                and_then
                  (parseargs rounds (argc + 1) r)
                  (λ (ws, rs') r'. parsed (w ∷ ws, rs ++ rs') r'))
          ]
        ])
    by_token rest nul h = leaves (length-gettoken s)
    by_token rest append h = panics
    by_token rest (symbol c) h = panics
    by_token rest (word w) h = next rest w (h w refl)

-- The parser of lines ends on lines of fewer than `m` characters.
abbrev LineReturns : (Chars → Parsed Cmd) → ℕ → Type 0
LineReturns line m = (t : Chars) → length t < m → Returns (length t) (line t)

parseblock-Returns :
    (line : Chars → Parsed Cmd) (m rounds : ℕ) (s : Chars)
    → LineReturns line m
    → length s ≤ m
    → length s < rounds
    → length (gettoken s).1 < length s
    → Returns (length s) (parseblock line rounds s)
unfolding parseblock
parseblock-Returns line m rounds s ok lm l shorter =
    and_then-Returns (length (gettoken s).1) (length s) (line (gettoken s).1) _
      (ok (gettoken s).1 (omega (arith, lm, shorter)))
      (λ c r lr. elim (Bool-cases (peek (41 ∷ []) r)) [
        | inr t ↦ rw t panics
        | inl t ↦
            let after = length-gettoken r in
            rw t (
              and_then-Returns (length (gettoken r).1) (length s)
                (parseredirs rounds (gettoken r).1) _
                (parseredirs-Returns rounds (gettoken r).1 (omega (arith, after, lr, shorter, l)))
                (λ rs r' lr'. leaves (omega (arith, after, lr, lr', shorter))))
      ])

parseexec-Returns :
    (line : Chars → Parsed Cmd) (m rounds : ℕ) (s : Chars)
    → LineReturns line m
    → length s ≤ m
    → length s < rounds
    → Returns (length s) (parseexec line rounds s)
unfolding parseexec
parseexec-Returns line m rounds s ok lm l = elim (Bool-cases (peek (40 ∷ []) s)) [
  | inl t ↦
      rw (t, parseexec)
        (parseblock-Returns line m rounds s ok lm l (length-gettoken-peek (40 ∷ []) s t))
  | inr t ↦
      rw (t, parseexec)
        (and_then-Returns (length s) (length s) (parseredirs rounds s) _
          (parseredirs-Returns rounds s l)
          (λ rs r lr.
            and_then-Returns (length r) (length s) (parseargs rounds 0 r) _
              (parseargs-Returns rounds 0 r (omega (arith, lr, l)))
              (λ x r' lr'. leaves (omega (arith, lr, lr')))))
]

parsepipe-Returns :
    (line : Chars → Parsed Cmd) (m rounds : ℕ) (s : Chars)
    → LineReturns line m
    → length s ≤ m
    → length s < rounds
    → Returns (length s) (parsepipe line rounds s)
unfolding parsepipe
parsepipe-Returns line m zero s ok lm l = absurd (omega arith)
parsepipe-Returns line m (suc rounds) s ok lm l =
    and_then-Returns (length s) (length s) (parseexec line (suc rounds) s) _
      (parseexec-Returns line m (suc rounds) s ok lm l)
      (λ c r lr. elim (Bool-cases (peek (124 ∷ []) r)) [
        | inr t ↦ rw t (let after = length-skip r in leaves (omega (arith, after, lr)))
        | inl t ↦
            let after = length-gettoken-peek (124 ∷ []) r t in
            rw t (
              and_then-Returns (length (gettoken r).1) (length s)
                (parsepipe line rounds (gettoken r).1) _
                (parsepipe-Returns line m rounds (gettoken r).1 ok (omega (arith, after, lr, lm))
                  (omega (arith, after, lr, l)))
                (λ d r' lr'. leaves (omega (arith, after, lr, lr'))))
      ])

parsebacks-Returns :
    (rounds : ℕ) (c : Cmd) (s : Chars)
    → length s < rounds
    → Returns (length s) (parsebacks rounds c s)
unfolding parsebacks
parsebacks-Returns zero c s l = absurd (omega arith)
parsebacks-Returns (suc rounds) c s l = elim (Bool-cases (peek (38 ∷ []) s)) [
  | inr t ↦ rw (t, parsebacks) (leaves (length-skip s))
  | inl t ↦
      let after = length-gettoken-peek (38 ∷ []) s t in
      rw (t, parsebacks)
        (Returns-le (length (gettoken s).1) (length s) _ (omega (arith, after))
          (parsebacks-Returns rounds (backcmd c) (gettoken s).1 (omega (arith, after, l))))
]

pub parseline-Returns :
    (rounds : ℕ) (s : Chars) → length s < rounds → Returns (length s) (parseline rounds s)
unfolding parseline
parseline-Returns zero s l = absurd (omega arith)
parseline-Returns (suc rounds) s l =
    and_then-Returns (length s) (length s) (parsepipe (λ t. parseline rounds t) (suc rounds) s) _
      (parsepipe-Returns (λ t. parseline rounds t) rounds (suc rounds) s
        (λ t lt. parseline-Returns rounds t lt) (omega arith) l)
      (λ c r lr.
        and_then-Returns (length r) (length s) (parsebacks (suc rounds) c r) _
          (parsebacks-Returns (suc rounds) c r (omega (arith, lr, l)))
          (λ d r' lr'. elim (Bool-cases (peek (59 ∷ []) r')) [
            | inr t ↦ rw t (let after = length-skip r' in leaves (omega (arith, after, lr, lr')))
            | inl t ↦
                let after = length-gettoken-peek (59 ∷ []) r' t in
                rw t (
                  and_then-Returns (length (gettoken r').1) (length s)
                    (parseline rounds (gettoken r').1) _
                    (parseline-Returns rounds (gettoken r').1 (omega (arith, after, lr, lr', l)))
                    (λ e r'' lr''. leaves (omega (arith, after, lr, lr', lr''))))
          ]))

at_end-Returns : (c : Cmd) (r : Chars) → Returns 0 (at_end c r)
at_end-Returns c [] = leaves (omega arith)
at_end-Returns c (d ∷ r) = panics

-- On every line the parser gives a command with nothing left over, or panics: the rounds that
-- `parsecmd` has, one for each character and one more, are enough.
pub parsecmd-Returns : (s : Chars) → Returns 0 (parsecmd s)
unfolding parsecmd
parsecmd-Returns s =
    and_then-Returns (length s) 0 (parseline (suc (length s)) s) _
      (parseline-Returns (suc (length s)) s (omega arith)) (λ c r lr. at_end-Returns c (skip r))
