-- ===== src/Kernel/Fs/Disk/Words.antt =====
-- Words of 32 bits in the bytes of a block.
use laboratorio_lukitas.Common.{ℕ, ◌+◌, ◌*◌, ◌<◌, ◌≡◌, ◌≢◌, arith}
use laboratorio_lukitas.Kernel.Fs.Disk.{Bytes, get_word, put_word}

-- Bytes outside the word stay.
pub put_word_other :
    (d : Bytes) (i w o : ℕ)
    → o ≢ 4 * i
    → o ≢ 4 * i + 1
    → o ≢ 4 * i + 2
    → o ≢ 4 * i + 3
    → put_word d i w o ≡ d o
unfolding put_word
put_word_other d i w o a b c e = ground arith

pub get_word-put_word_self :
    (d : Bytes) (i w : ℕ) → w < 4294967296 → get_word (put_word d i w) i ≡ w
unfolding get_word put_word
get_word-put_word_self d i w small = ground arith

pub get_word-put_word_ne :
    (d : Bytes) (i j w : ℕ) → i ≢ j → get_word (put_word d i w) j ≡ get_word d j
unfolding get_word
get_word-put_word_ne d i j w ne = omega (
  arith,
  put_word_other d i w (4 * j) (omega arith) (omega arith) (omega arith) (omega arith),
  put_word_other d i w (4 * j + 1) (omega arith) (omega arith) (omega arith) (omega arith),
  put_word_other d i w (4 * j + 2) (omega arith) (omega arith) (omega arith) (omega arith),
  put_word_other d i w (4 * j + 3) (omega arith) (omega arith) (omega arith) (omega arith),
)

pub get_word-zero : (d : Bytes) (k : ℕ) → ((o : ℕ) → d o ≡ 0) → get_word d k ≡ 0
unfolding get_word
get_word-zero d k zeros =
    omega (arith, zeros (4 * k), zeros (4 * k + 1), zeros (4 * k + 2), zeros (4 * k + 3))
