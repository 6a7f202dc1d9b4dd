-- ===== src/Shell/Tokens.antt =====
-- The tokens of xv6/sh.c: what of the line a token takes.
use laboratorio_lukitas.Common.{
  ℕ, ◌≤◌, ◌<◌, ◌≡◌, refl, inl, inr, Bool, true, false, ◌||◌, [], ◌∷◌, ◌==◌, length, arith,
  Bool-cases, eq_cases, ◌-◌,
}
use laboratorio_lukitas.Shell.{
  Chars, word, whitespace, symbols, strchr, skip, scan_word, lex_greater, lex, gettoken, starts,
  peek,
}

pub length-skip : (s : Chars) → length (skip s) ≤ length s
unfolding skip
length-skip [] = omega arith
length-skip (c ∷ s) =
    let rest = length-skip s in
    elim (Bool-cases (strchr whitespace c)) [
      | inl t ↦ rw (t, skip) (omega (arith, rest))
      | inr t ↦ rw (t, skip) (omega arith)
    ]

length-scan_word : (s : Chars) → length (scan_word s).1 ≤ length s
unfolding scan_word
length-scan_word [] = omega arith
length-scan_word (c ∷ s) =
    let rest = length-scan_word s in
    elim (Bool-cases (strchr whitespace c || strchr symbols c)) [
      | inl t ↦ rw (t, scan_word) (omega arith)
      | inr t ↦ rw (t, scan_word) (omega (arith, rest))
    ]

-- What is left once the whitespace is skipped.
pub data Skipped : Chars → Type 0 where
  none_left : Skipped []
  stands : {c : ℕ} {s : Chars} → strchr whitespace c ≡ false → Skipped (c ∷ s)

pub skip-Skipped : (s : Chars) → Skipped (skip s)
unfolding skip
skip-Skipped [] = none_left
skip-Skipped (c ∷ s) =
    let rest = skip-Skipped s in
    elim (Bool-cases (strchr whitespace c)) [
      | inl t ↦ rw (t, skip) rest
      | inr t ↦ rw (t, skip) (stands t)
    ]

pub or_insert :
    (a b d e : Bool) → (a || (b || d)) ≡ false → e ≡ false → (a || (b || (e || d))) ≡ false
or_insert true b d e h k = h
or_insert false true d e h k = h
or_insert false false d true h k = absurd (cc k)
or_insert false false d false h k = h

length-lex_greater : (s : Chars) → length (lex_greater s).1 ≤ length s
length-lex_greater [] = omega arith
length-lex_greater (c ∷ s) =
    let rest = length-skip s in
    let whole = length-skip (c ∷ s) in
    elim (eq_cases c 62) [ inl (_, t) ↦ rw t (omega (arith, rest)) | inr (_, t) ↦ rw t whole ]

pub scan_word-Plain :
    (c : ℕ) (s : Chars)
    → strchr whitespace c ≡ false
    → strchr symbols c ≡ false
    → scan_word (c ∷ s) ≡ (c ∷ (scan_word s).0, (scan_word s).1)
unfolding scan_word
scan_word-Plain c s blank inside = rw (blank, inside, scan_word) refl

-- A token takes a character at least, unless the line has ended.
length-lex : (t : Chars) → Skipped t → length (lex t).1 ≤ length t - 1
unfolding lex
length-lex _ none_left = omega arith
length-lex _ (stands {c = c} {s = s} blank) = elim (eq_cases c 62) [
  | inl (_, t) ↦ let after = length-lex_greater s in rw (t, lex) (omega (arith, after))
  | inr (_, t) ↦ elim (Bool-cases (strchr (60 ∷ 124 ∷ 38 ∷ 59 ∷ 40 ∷ 41 ∷ []) c)) [
    | inl u ↦ let after = length-skip s in rw (t, u, lex) (omega (arith, after))
    | inr u ↦
        let inside =
          or_insert (c == 60) (c == 124) (strchr (38 ∷ 59 ∷ 40 ∷ 41 ∷ []) c) (c == 62) u t in
        let scanned = length-scan_word s in
        let skipped = length-skip (scan_word s).1 in
        rw (t, u, lex, scan_word-Plain c s blank inside) (omega (arith, scanned, skipped))
  ]
]

starts-nonempty : (toks t : Chars) → starts toks t ≡ true → 1 ≤ length t
starts-nonempty toks [] h = absurd (cc h)
starts-nonempty toks (c ∷ s) h = omega arith

pub length-gettoken : (s : Chars) → length (gettoken s).1 ≤ length s
length-gettoken s =
    let lexed = length-lex (skip s) (skip-Skipped s) in
    let skipped = length-skip s in omega (arith, lexed, skipped)

pub length-gettoken-peek : (toks s : Chars) → peek toks s ≡ true → length (gettoken s).1 < length s
length-gettoken-peek toks s h =
    let lexed = length-lex (skip s) (skip-Skipped s) in
    let skipped = length-skip s in
    let some_left = starts-nonempty toks (skip s) h in omega (arith, lexed, skipped, some_left)

nonempty_word : (t w : Chars) → (lex t).0 ≡ word w → 1 ≤ length t
unfolding lex
nonempty_word [] w e = absurd (cc e)
nonempty_word (c ∷ s) w e = omega arith

pub length-gettoken-word :
    (s w : Chars) → (gettoken s).0 ≡ word w → length (gettoken s).1 < length s
length-gettoken-word s w e =
    let lexed = length-lex (skip s) (skip-Skipped s) in
    let skipped = length-skip s in
    let some_left = nonempty_word (skip s) w e in omega (arith, lexed, skipped, some_left)
