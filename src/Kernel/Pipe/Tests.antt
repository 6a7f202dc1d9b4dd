-- ===== src/Kernel/Pipe/Tests.antt =====
-- Tests of the model of xv6/pipe.c, and its theorems at concrete states.
use laboratorio_lukitas.Common.{◌≡◌, refl, false, true, [], ◌∷◌, arith}
use laboratorio_lukitas.Kernel.Pipe.{
  pipeclose, Pipe, put_byte, next_byte, skip_byte, is_full, is_empty, pipe_init, pipewrite,
  copy_out, piperead,
}
use laboratorio_lukitas.Kernel.Pipe.Window.{contents, IsValid}
use laboratorio_lukitas.Kernel.Pipe.Refine.{WriteSpec, ReadSpec, pipewrite_lem, piperead_lem}
use laboratorio_lukitas.Kernel.Pipe.Stream.{
  opening, writer, reader, run, turn, total, pipe_delivers,
}

-- The counters are about to wrap, and one byte is in the pipe.
abbrev wrapping : Pipe
wrapping = record {
  ring = λ i. i;
  nread = 4294967295;
  nwrite = 0;
  readopen = true;
  writeopen = true;
}

wrapping-IsValid : IsValid wrapping
wrapping-IsValid = omega arith

contents-wrapping : contents wrapping ≡ 511 ∷ []
contents-wrapping = refl

hello :
    (run (opening (λ _. 0) (104 ∷ 105 ∷ [])) (reader 1 ∷ writer ∷ reader 1 ∷ [])).received
    ≡ 104 ∷ []
unfolding run turn pipe_init pipewrite put_byte is_full piperead copy_out is_empty next_byte
    skip_byte
hello = refl

pipewrite_lem_example :
    WriteSpec false wrapping (7 ∷ 8 ∷ []) (pipewrite false wrapping (7 ∷ 8 ∷ []))
pipewrite_lem_example = pipewrite_lem false (7 ∷ 8 ∷ []) wrapping wrapping-IsValid

piperead_lem_example : ReadSpec false wrapping 4 (piperead false wrapping 4)
piperead_lem_example = piperead_lem false wrapping 4 wrapping-IsValid

pipe_delivers_example :
    total (run (opening (λ _. 0) (104 ∷ 105 ∷ [])) (writer ∷ reader 1 ∷ [])) ≡ 104 ∷ 105 ∷ []
pipe_delivers_example = pipe_delivers (λ _. 0) (104 ∷ 105 ∷ []) (writer ∷ reader 1 ∷ [])

-- The page of a pipe is freed when both its ends are closed.
closed_twice : (pipeclose (pipeclose wrapping true).0 false).1 ≡ true
unfolding pipeclose
closed_twice = refl
