-- ===== src/Shell/Tests.antt =====
-- Tests of the parser of xv6/sh.c, and its theorems on small lines.
use laboratorio_lukitas.Common.{ℕ, false, ◌≡◌, refl, arith, [], ◌∷◌}
use laboratorio_lukitas.Shell.{
  strchr, whitespace, symbols, Chars, Redir, Cmd, execcmd, redircmd, pipecmd, listcmd, backcmd,
  parsed, panic, missing_file, missing_paren, leftovers, parsecmd, skip, lex, scan_word,
  parseredirs, parseargs, parseblock, parseexec, parsepipe, parsebacks, parseline,
}
use laboratorio_lukitas.Shell.Printer.{
  Plain, last, more, no_words, words, output, IsCmd, is_exec, is_redir, is_pipe, print,
}
use laboratorio_lukitas.Shell.Returns.{Returns, parsecmd-Returns}
use laboratorio_lukitas.Shell.RoundTrip.{parsecmd-print}

-- "ls", "wc", and the file "f".
abbrev ls : Chars
ls = 108 ∷ 115 ∷ []

abbrev wc : Chars
wc = 119 ∷ 99 ∷ []

abbrev to_f : Redir
to_f = record { file = 102 ∷ []; mode = 513; fd = 1 }

-- "ls|wc >f", with the redirection on "wc".
parse_pipe :
    parsecmd (108 ∷ 115 ∷ 124 ∷ 119 ∷ 99 ∷ 32 ∷ 62 ∷ 102 ∷ [])
    ≡ parsed (pipecmd (execcmd (ls ∷ [])) (redircmd (execcmd (wc ∷ [])) to_f)) []
unfolding parsecmd skip lex scan_word parseredirs parseargs parseblock parseexec parsepipe
    parsebacks parseline
parse_pipe = refl

-- "ls &;wc"
parse_list :
    parsecmd (108 ∷ 115 ∷ 32 ∷ 38 ∷ 59 ∷ 119 ∷ 99 ∷ [])
    ≡ parsed (listcmd (backcmd (execcmd (ls ∷ []))) (execcmd (wc ∷ []))) []
unfolding parsecmd skip lex scan_word parseredirs parseargs parseblock parseexec parsepipe
    parsebacks parseline
parse_list = refl

-- "ls >", "(ls" and "ls)"
parse_no_file : parsecmd (108 ∷ 115 ∷ 32 ∷ 62 ∷ []) ≡ panic missing_file
unfolding parsecmd skip lex scan_word parseredirs parseargs parseblock parseexec parsepipe
    parsebacks parseline
parse_no_file = refl

parse_no_paren : parsecmd (40 ∷ 108 ∷ 115 ∷ []) ≡ panic missing_paren
unfolding parsecmd skip lex scan_word parseredirs parseargs parseblock parseexec parsepipe
    parsebacks parseline
parse_no_paren = refl

parse_leftovers : parsecmd (108 ∷ 115 ∷ 41 ∷ []) ≡ panic leftovers
unfolding parsecmd skip lex scan_word parseredirs parseargs parseblock parseexec parsepipe
    parsebacks parseline
parse_leftovers = refl

-- (ls) | ((wc) > f)
abbrev pipeline : Cmd
pipeline = pipecmd (execcmd (ls ∷ [])) (redircmd (execcmd (wc ∷ [])) to_f)

plain : {c : ℕ} → strchr whitespace c ≡ false → strchr symbols c ≡ false → Plain c
plain b s = record { blank = b; inside = s }

pipeline-IsCmd : IsCmd pipeline
pipeline-IsCmd =
    is_pipe
      (is_exec (words (more (plain refl refl) (last (plain refl refl))) no_words) (omega arith))
      (is_redir
        (is_exec (words (more (plain refl refl) (last (plain refl refl))) no_words) (omega arith))
        (output (last (plain refl refl))))

parsecmd-print_example : parsecmd (print pipeline []) ≡ parsed pipeline []
parsecmd-print_example = parsecmd-print pipeline pipeline-IsCmd

parsecmd-Returns_example : Returns 0 (parsecmd (40 ∷ 108 ∷ 115 ∷ 124 ∷ []))
parsecmd-Returns_example = parsecmd-Returns (40 ∷ 108 ∷ 115 ∷ 124 ∷ [])
