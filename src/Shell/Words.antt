-- ===== src/Shell/Words.antt =====
-- Words and the ends of commands, as the parser of xv6/sh.c sees them.
use laboratorio_lukitas.Common.{
  ℕ, zero, suc, ◌+◌, ◌<◌, ◌≡◌, refl, ◌∙◌, ap, Bool, true, false, ◌||◌, List, [], ◌∷◌, ◌==◌, leb,
  length, arith, Bool-cases, inl, inr,
}
use laboratorio_lukitas.Shell.{
  Chars, Redir, Cmd, execcmd, word, Parsed, parsed, whitespace, strchr, skip, scan_word, lex,
  gettoken, starts, peek, parseredirs, parseargs, parseexec, maxargs,
}
use laboratorio_lukitas.Shell.Tokens.{scan_word-Plain}
use laboratorio_lukitas.Shell.Printer.{
  Plain, IsWord, last, more, Words, no_words, words, IsRedir, input, output, print_word,
  print_words, sign,
}

or_left : (a b : Bool) → (a || b) ≡ false → a ≡ false
or_left true b h = h
or_left false b h = refl

or_right : (a b : Bool) → (a || b) ≡ false → b ≡ false
or_right true b h = absurd (cc h)
or_right false b h = h

-- A character of a word is none of the symbols.
pub record NoSymbol (c : ℕ) : Type 0 where
  pub less : (c == 60) ≡ false
  pub bar : (c == 124) ≡ false
  pub greater : (c == 62) ≡ false
  pub amp : (c == 38) ≡ false
  pub semi : (c == 59) ≡ false
  pub opens : (c == 40) ≡ false
  pub closes : (c == 41) ≡ false

pub Plain-NoSymbol : (c : ℕ) → Plain c → NoSymbol c
Plain-NoSymbol c p =
    let after_less = or_right (c == 60) _ p.inside in
    let after_bar = or_right (c == 124) _ after_less in
    let after_greater = or_right (c == 62) _ after_bar in
    let after_amp = or_right (c == 38) _ after_greater in
    let after_semi = or_right (c == 59) _ after_amp in
    let after_open = or_right (c == 40) _ after_semi in
    record {
      less = or_left (c == 60) _ p.inside;
      bar = or_left (c == 124) _ after_less;
      greater = or_left (c == 62) _ after_bar;
      amp = or_left (c == 38) _ after_greater;
      semi = or_left (c == 59) _ after_amp;
      opens = or_left (c == 40) _ after_semi;
      closes = or_left (c == 41) _ after_open;
    }

-- The rest of a line after a command: nothing, or a closing parenthesis.
pub data Stop : Chars → Type 0 where
  line_end : Stop []
  paren : {s : Chars} → Stop (41 ∷ s)

-- What the parser meets where it looks for redirections or for an opening parenthesis, and finds none.
pub record Calm (s : Chars) : Type 0 where
  pub skipped : skip s ≡ s
  pub no_redir : peek (60 ∷ 62 ∷ []) s ≡ false
  pub no_open : peek (40 ∷ []) s ≡ false

pub Stop-Calm : (k : Chars) → Stop k → Calm k
unfolding skip
Stop-Calm _ line_end = record { skipped = refl; no_redir = refl; no_open = refl }
Stop-Calm _ paren = record { skipped = refl; no_redir = refl; no_open = refl }

skip-Plain : (c : ℕ) (s : Chars) → strchr whitespace c ≡ false → skip (c ∷ s) ≡ c ∷ s
unfolding skip
skip-Plain c s t = rw (t, skip) refl

Plain-Calm : (c : ℕ) (s : Chars) → Plain c → Calm (c ∷ s)
Plain-Calm c s p =
    let n = Plain-NoSymbol c p in
    let same = skip-Plain c s p.blank in
    record {
      skipped = same;
      no_redir = ap (starts (60 ∷ 62 ∷ [])) same ∙ rw (n.less, n.greater) refl;
      no_open = ap (starts (40 ∷ [])) same ∙ rw n.opens refl;
    }

pub print_word-Calm : (w k : Chars) → IsWord w → Calm (print_word w k)
print_word-Calm _ k (last {c = c} p) = Plain-Calm c (32 ∷ k) p
print_word-Calm _ k (more {c = c} {w = w} p x) = Plain-Calm c (print_word w k) p

pub print_words-Calm : (ws : List Chars) (k : Chars) → Words ws → Stop k → Calm (print_words ws k)
print_words-Calm _ k no_words stop = Stop-Calm k stop
print_words-Calm _ k (words {w = w} {ws = ws} x xs) stop = print_word-Calm w (print_words ws k) x

scan_word-print_word : (w k : Chars) → IsWord w → scan_word (print_word w k) ≡ (w, 32 ∷ k)
unfolding scan_word
scan_word-print_word _ k (last {c = c} p) = scan_word-Plain c (32 ∷ k) p.blank p.inside
scan_word-print_word _ k (more {c = c} {w = w} p x) =
    scan_word-Plain c (print_word w k) p.blank p.inside
    ∙ ap (λ r. (c ∷ r.0, r.1)) (scan_word-print_word w k x)

lex-Plain :
    (c : ℕ) (s : Chars)
    → Plain c
    → lex (c ∷ s) ≡ (word (scan_word (c ∷ s)).0, skip (scan_word (c ∷ s)).1)
unfolding lex
lex-Plain c s p =
    let n = Plain-NoSymbol c p in
    rw (n.greater, n.less, n.bar, n.amp, n.semi, n.opens, n.closes, lex) refl

lex-print_word : (w k : Chars) → IsWord w → lex (print_word w k) ≡ (word w, skip (32 ∷ k))
lex-print_word _ k (last {c = c} p) =
    lex-Plain c (32 ∷ k) p
    ∙ ap (λ r. (word r.0, skip r.1)) (scan_word-print_word (c ∷ []) k (last p))
lex-print_word _ k (more {c = c} {w = w} p x) =
    lex-Plain c (print_word w k) p
    ∙ ap (λ r. (word r.0, skip r.1)) (scan_word-print_word (c ∷ w) k (more p x))

pub gettoken-print_word :
    (w k : Chars) → IsWord w → skip k ≡ k → gettoken (print_word w k) ≡ (word w, k)
unfolding skip
gettoken-print_word w k x e =
    ap lex (print_word-Calm w k x).skipped ∙ lex-print_word w k x ∙ ap (λ r. (word w, r)) e

pub parseredirs-Calm : (n : ℕ) (s : Chars) → Calm s → parseredirs (suc n) s ≡ parsed [] s
unfolding parseredirs
parseredirs-Calm n s calm = rw (calm.no_redir, parseredirs) (ap (parsed []) calm.skipped)

no_stop : (c : ℕ) (s : Chars) → Plain c → peek (124 ∷ 41 ∷ 38 ∷ 59 ∷ []) (c ∷ s) ≡ false
no_stop c s p =
    let n = Plain-NoSymbol c p in
    ap (starts (124 ∷ 41 ∷ 38 ∷ 59 ∷ [])) (skip-Plain c s p.blank)
    ∙ rw (n.bar, n.closes, n.amp, n.semi) refl

print_word-peek : (w k : Chars) → IsWord w → peek (124 ∷ 41 ∷ 38 ∷ 59 ∷ []) (print_word w k) ≡ false
print_word-peek _ k (last {c = c} p) = no_stop c (32 ∷ k) p
print_word-peek _ k (more {c = c} {w = w} p x) = no_stop c (print_word w k) p

print_word-long : (w k : Chars) → length k < length (print_word w k)
print_word-long [] k = omega arith
print_word-long (c ∷ w) k = omega (arith, print_word-long w k)

-- One round of the loop over the arguments.
parseargs-word :
    (n argc : ℕ) (w rest k : Chars) (ws : List Chars)
    → IsWord w
    → Calm rest
    → argc + 1 < maxargs
    → parseargs (suc n) (argc + 1) rest ≡ parsed (ws, []) k
    → parseargs (suc (suc n)) argc (print_word w rest) ≡ parsed (w ∷ ws, []) k
unfolding parseargs
parseargs-word n argc w rest k ws x calm l e = elim (Bool-cases (leb maxargs (argc + 1))) [
  | inl t ↦ absurd (ground arith)
  | inr t ↦
      let token = gettoken-print_word w rest x calm.skipped in
      rw
        (
          print_word-peek w rest x,
          ap (λ g. g.0) token,
          t,
          ap (λ g. g.1) token,
          parseredirs-Calm n rest calm,
          e,
          parseargs,
        )
        refl
]

parseargs-Stop : (n argc : ℕ) (k : Chars) → Stop k → parseargs (suc n) argc k ≡ parsed ([], []) k
unfolding parseargs skip lex
parseargs-Stop n argc _ line_end = refl
parseargs-Stop n argc _ paren = refl

pub parseargs-print_words :
    (n argc : ℕ) (ws : List Chars) (k : Chars)
    → Words ws
    → argc + length ws < maxargs
    → Stop k
    → length (print_words ws k) < n
    → parseargs n argc (print_words ws k) ≡ parsed (ws, []) k
parseargs-print_words zero argc ws k xs l stop h = absurd (omega arith)
parseargs-print_words (suc n) argc _ k no_words l stop h = parseargs-Stop n argc k stop
parseargs-print_words (suc zero) argc _ k (words {w = w} {ws = ws} x xs) l stop h =
    absurd (omega (arith, print_word-long w (print_words ws k)))
parseargs-print_words (suc (suc n)) argc _ k (words {w = w} {ws = ws} x xs) l stop h =
    parseargs-word n argc w (print_words ws k) k ws x (print_words-Calm ws k xs stop)
      (omega (arith, l))
      (parseargs-print_words (suc n) (argc + 1) ws k xs (omega (arith, l)) stop
        (omega (arith, h, print_word-long w (print_words ws k))))

-- A command of words alone.
pub parseexec-print_words :
    (line : Chars → Parsed Cmd) (n : ℕ) (ws : List Chars) (k : Chars)
    → Words ws
    → length ws < maxargs
    → Stop k
    → length (print_words ws k) < suc n
    → parseexec line (suc n) (print_words ws k) ≡ parsed (execcmd ws) k
unfolding parseexec
parseexec-print_words line n ws k xs l stop h =
    let calm = print_words-Calm ws k xs stop in
    rw
      (
        calm.no_open,
        parseredirs-Calm n (print_words ws k) calm,
        parseargs-print_words (suc n) 0 ws k xs (omega (arith, l)) stop h,
        parseexec,
      )
      refl

-- A redirection at the end of a command.
pub parseredirs-IsRedir :
    (n : ℕ) (r : Redir) (k : Chars)
    → IsRedir r
    → Stop k
    → parseredirs (suc (suc n)) (sign r.fd ∷ 32 ∷ print_word r.file k) ≡ parsed (r ∷ []) k
unfolding parseredirs skip lex
parseredirs-IsRedir n _ k (input {file = file} x) stop =
    let calm = Stop-Calm k stop in
    let after = (print_word-Calm file k x).skipped in
    rw (after, gettoken-print_word file k x calm.skipped, parseredirs-Calm n k calm) refl
parseredirs-IsRedir n _ k (output {file = file} x) stop =
    let calm = Stop-Calm k stop in
    let after = (print_word-Calm file k x).skipped in
    rw (after, gettoken-print_word file k x calm.skipped, parseredirs-Calm n k calm) refl
