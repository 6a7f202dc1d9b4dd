-- ===== src/Shell/RoundTrip.antt =====
-- The parser of xv6/sh.c reads back what the printer writes.
use laboratorio_lukitas.Common.{
  ℕ, zero, suc, ◌<◌, ◌≡◌, refl, ap, false, List, [], ◌∷◌, length, arith,
}
use laboratorio_lukitas.Shell.{
  Chars, Redir, Cmd, execcmd, redircmd, pipecmd, listcmd, backcmd, Parsed, parsed, skip, lex, peek,
  redirect, and_then, parseredirs, parseblock, parseexec, parsepipe, parsebacks, parseline,
  parsecmd,
}
use laboratorio_lukitas.Shell.Printer.{
  IsCmd, is_exec, is_redir, is_pipe, is_list, is_back, IsRedir, input, output, print, print_word,
  print_words, sign, length-print,
}
use laboratorio_lukitas.Shell.Words.{
  Stop, line_end, paren, Calm, Stop-Calm, print_words-Calm, parseredirs-Calm, parseexec-print_words,
  parseredirs-IsRedir,
}

-- A command in parentheses, in front of `k`.
abbrev atom : Cmd → Chars → Chars
atom c k = 40 ∷ 32 ∷ print c (41 ∷ 32 ∷ k)

skip-print : (c : Cmd) (k : Chars) → IsCmd c → Stop k → skip (print c k) ≡ print c k
unfolding skip
skip-print _ k (is_exec {ws = ws} xs l) stop = (print_words-Calm ws k xs stop).skipped
skip-print _ k (is_redir x y) stop = refl
skip-print _ k (is_pipe x y) stop = refl
skip-print _ k (is_list x y) stop = refl
skip-print _ k (is_back x) stop = refl

parseblock-atom :
    (line : Chars → Parsed Cmd) (n : ℕ) (c : Cmd) (k r : Chars) (rs : List Redir)
    → IsCmd c
    → line (print c (41 ∷ 32 ∷ k)) ≡ parsed c (41 ∷ 32 ∷ k)
    → skip k ≡ k
    → parseredirs n k ≡ parsed rs r
    → parseexec line n (atom c k) ≡ parsed (redirect c rs) r
unfolding parseexec parseblock skip lex
parseblock-atom line n c k r rs x e s f = rw (skip-print c (41 ∷ 32 ∷ k) x paren, e, s, f) refl

-- The parser of lines reads back the command that is followed by a parenthesis.
abbrev Reads : (Chars → Parsed Cmd) → Cmd → Chars → Type 0
Reads line c k = line (print c (41 ∷ 32 ∷ k)) ≡ parsed c (41 ∷ 32 ∷ k)

parseexec-atom :
    (line : Chars → Parsed Cmd) (n : ℕ) (c : Cmd) (k : Chars)
    → IsCmd c
    → Reads line c k
    → Calm k
    → parseexec line (suc n) (atom c k) ≡ parsed c k
parseexec-atom line n c k x e calm =
    parseblock-atom line (suc n) c k k [] x e calm.skipped (parseredirs-Calm n k calm)

parsepipe-alone :
    (line : Chars → Parsed Cmd) (n : ℕ) (c : Cmd) (s k : Chars)
    → parseexec line (suc n) s ≡ parsed c k
    → peek (124 ∷ []) k ≡ false
    → skip k ≡ k
    → parsepipe line (suc n) s ≡ parsed c k
unfolding parsepipe
parsepipe-alone line n c s k e t same = rw (e, t, parsepipe, and_then) (ap (parsed c) same)

parsepipe-Stop :
    (line : Chars → Parsed Cmd) (n : ℕ) (c : Cmd) (s k : Chars)
    → parseexec line (suc n) s ≡ parsed c k
    → Stop k
    → parsepipe line (suc n) s ≡ parsed c k
unfolding skip
parsepipe-Stop line n c s _ e line_end = parsepipe-alone line n c s [] e refl refl
parsepipe-Stop line n c s _ e (paren {s = r}) = parsepipe-alone line n c s (41 ∷ r) e refl refl

parsepipe-bar :
    (line : Chars → Parsed Cmd) (n : ℕ) (c d : Cmd) (s t k : Chars)
    → parseexec line (suc n) s ≡ parsed c (124 ∷ 32 ∷ t)
    → skip t ≡ t
    → parsepipe line n t ≡ parsed d k
    → parsepipe line (suc n) s ≡ parsed (pipecmd c d) k
unfolding parsepipe skip lex
parsepipe-bar line n c d s t k e same f = rw (e, same, f, parsepipe) refl

parsebacks-Stop : (n : ℕ) (c : Cmd) (k : Chars) → Stop k → parsebacks (suc n) c k ≡ parsed c k
unfolding parsebacks skip
parsebacks-Stop n c _ line_end = refl
parsebacks-Stop n c _ paren = refl

-- A pipeline that ends the line.
parseline-Stop :
    (n : ℕ) (c d : Cmd) (s r k : Chars)
    → parsepipe (λ t. parseline n t) (suc n) s ≡ parsed c r
    → parsebacks (suc n) c r ≡ parsed d k
    → Stop k
    → parseline (suc n) s ≡ parsed d k
unfolding parseline skip
parseline-Stop n c d s r _ e f line_end = rw (e, f, parseline) refl
parseline-Stop n c d s r _ e f paren = rw (e, f, parseline) refl

-- One command that ends the line.
parseline-exec :
    (n : ℕ) (c : Cmd) (s k : Chars)
    → parseexec (λ t. parseline n t) (suc n) s ≡ parsed c k
    → Stop k
    → parseline (suc n) s ≡ parsed c k
parseline-exec n c s k e stop =
    parseline-Stop n c c s k k (parsepipe-Stop (λ t. parseline n t) n c s k e stop)
      (parsebacks-Stop n c k stop) stop

parseline-semi :
    (n : ℕ) (c d : Cmd) (s t k : Chars)
    → parseexec (λ t. parseline n t) (suc n) s ≡ parsed c (59 ∷ 32 ∷ t)
    → skip t ≡ t
    → parseline n t ≡ parsed d k
    → parseline (suc n) s ≡ parsed (listcmd c d) k
unfolding parseline parsebacks skip lex
parseline-semi n c d s t k e same f =
    rw (parsepipe-alone (λ t. parseline n t) n c s (59 ∷ 32 ∷ t) e refl refl, same, f, parseline)
      refl

parsebacks-amp :
    (n : ℕ) (c : Cmd) (k : Chars)
    → Stop k
    → parsebacks (suc (suc n)) c (38 ∷ 32 ∷ k) ≡ parsed (backcmd c) k
unfolding parsebacks skip lex
parsebacks-amp n c _ line_end = refl
parsebacks-amp n c _ paren = refl

skip-sign : (r : Redir) (k : Chars) → IsRedir r → skip (sign r.fd ∷ k) ≡ sign r.fd ∷ k
unfolding skip
skip-sign _ k (input x) = refl
skip-sign _ k (output x) = refl

-- What follows a command in parentheses and is no redirection.
bar-Calm : (s : Chars) → Calm (124 ∷ s)
unfolding skip
bar-Calm s = record { skipped = refl; no_redir = refl; no_open = refl }

semi-Calm : (s : Chars) → Calm (59 ∷ s)
unfolding skip
semi-Calm s = record { skipped = refl; no_redir = refl; no_open = refl }

amp-Calm : (s : Chars) → Calm (38 ∷ s)
unfolding skip
amp-Calm s = record { skipped = refl; no_redir = refl; no_open = refl }

-- One round more than the characters of the line is enough to read the command back.
parseline-print :
    (n : ℕ) (c : Cmd) (k : Chars)
    → IsCmd c
    → Stop k
    → length (print c k) < n
    → parseline n (print c k) ≡ parsed c k
unfolding skip
parseline-print zero c k x stop l = absurd (omega arith)
parseline-print (suc n) _ k (is_exec {ws = ws} xs few) stop l =
    parseline-exec n (execcmd ws) (print_words ws k) k
      (parseexec-print_words (λ t. parseline n t) n ws k xs few stop l) stop
parseline-print (suc zero) _ k (is_redir x y) stop l = absurd (omega (arith, l))
parseline-print (suc (suc n)) _ k (is_redir {c = c} {r = r} x y) stop l =
    let after = sign r.fd ∷ 32 ∷ print_word r.file k in
    let inner = parseline-print (suc n) c (41 ∷ 32 ∷ after) x paren (omega (arith, l)) in
    parseline-exec (suc n) (redircmd c r) (atom c after) k
      (parseblock-atom (λ t. parseline (suc n) t) (suc (suc n)) c after k (r ∷ []) x inner
        (skip-sign r (32 ∷ print_word r.file k) y) (parseredirs-IsRedir n r k y stop))
      stop
parseline-print (suc zero) _ k (is_pipe x y) stop l = absurd (omega (arith, l))
parseline-print (suc (suc n)) _ k (is_pipe {c = c} {d = d} x y) stop l =
    let after = 124 ∷ 32 ∷ atom d k in
    let longer = length-print c (41 ∷ 32 ∷ after) in
    let left = parseline-print (suc n) c (41 ∷ 32 ∷ after) x paren (omega (arith, l)) in
    let right = parseline-print (suc n) d (41 ∷ 32 ∷ k) y paren (omega (arith, l, longer)) in
    let line : Chars → Parsed Cmd = λ t. parseline (suc n) t in
    parseline-Stop (suc n) (pipecmd c d) (pipecmd c d) (atom c after) k k
      (parsepipe-bar line (suc n) c d (atom c after) (atom d k) k
        (parseexec-atom line (suc n) c after x left (bar-Calm (32 ∷ atom d k))) refl
        (parsepipe-Stop line n d (atom d k) k (parseexec-atom line n d k y right (Stop-Calm k stop))
          stop))
      (parsebacks-Stop (suc n) (pipecmd c d) k stop) stop
parseline-print (suc zero) _ k (is_list x y) stop l = absurd (omega (arith, l))
parseline-print (suc (suc n)) _ k (is_list {c = c} {d = d} x y) stop l =
    let after = 59 ∷ 32 ∷ atom d k in
    let longer = length-print c (41 ∷ 32 ∷ after) in
    let left = parseline-print (suc n) c (41 ∷ 32 ∷ after) x paren (omega (arith, l)) in
    let right = parseline-print n d (41 ∷ 32 ∷ k) y paren (omega (arith, l, longer)) in
    parseline-semi (suc n) c d (atom c after) (atom d k) k
      (parseexec-atom (λ t. parseline (suc n) t) (suc n) c after x left (semi-Calm (32 ∷ atom d k)))
      refl
      (parseline-exec n d (atom d k) k
        (parseexec-atom (λ t. parseline n t) n d k y right (Stop-Calm k stop)) stop)
parseline-print (suc zero) _ k (is_back x) stop l = absurd (omega (arith, l))
parseline-print (suc (suc n)) _ k (is_back {c = c} x) stop l =
    let after = 38 ∷ 32 ∷ k in
    let inner = parseline-print (suc n) c (41 ∷ 32 ∷ after) x paren (omega (arith, l)) in
    let line : Chars → Parsed Cmd = λ t. parseline (suc n) t in
    parseline-Stop (suc n) c (backcmd c) (atom c after) after k
      (parsepipe-alone line (suc n) c (atom c after) after
        (parseexec-atom line (suc n) c after x inner (amp-Calm (32 ∷ k))) refl refl)
      (parsebacks-amp n c k stop) stop

-- The parser reads back every command whose words and files are made of characters that are neither
-- whitespace nor symbols, with fewer than ten words to a command, from the line of that command.
pub parsecmd-print : (c : Cmd) → IsCmd c → parsecmd (print c []) ≡ parsed c []
unfolding parsecmd skip
parsecmd-print c x =
    rw (parseline-print (suc (length (print c []))) c [] x line_end (omega arith)) refl
