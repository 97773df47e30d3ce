-- ===== src/Generator/Blocks.antt =====
-- The blocks of the generated file, and how often the pattern stands in them.
use hello_e_bpf.Prelude.{
  ℕ, zero, suc, ◌+◌, ◌*◌, ◌≡◌, refl, ap, ◌∙◌, ◌++◌, append_assoc, arith, replicate, length,
  length-append, length-replicate,
}
use hello_e_bpf.Memory.{Bytes}
use hello_e_bpf.Baseline.Occurrences.{occurrences, is_prefix}
use hello_e_bpf.Generator.{padding_len, alpha, block, times}

-- No pattern begins in the padding.
pub occurrences-padding :
    (n : ℕ) (rest : Bytes) → occurrences (replicate n b'x' ++ rest) ≡ occurrences rest
unfolding occurrences is_prefix
occurrences-padding zero rest = refl
occurrences-padding (suc n) rest = omega (arith, occurrences-padding n rest)

occurrences-alpha : (rest : Bytes) → occurrences (alpha ++ rest) ≡ suc (occurrences rest)
unfolding occurrences is_prefix
occurrences-alpha rest = omega arith

-- Each block holds the pattern once.
pub occurrences-times :
    (n : ℕ) (rest : Bytes) → occurrences (times block n ++ rest) ≡ n + occurrences rest
unfolding times block
occurrences-times zero rest = omega arith
occurrences-times (suc n) rest =
    ap occurrences (append_assoc block (times block n) rest)
    ∙ ap occurrences (append_assoc (replicate padding_len b'x') alpha (times block n ++ rest))
    ∙ occurrences-padding padding_len (alpha ++ (times block n ++ rest))
    ∙ occurrences-alpha (times block n ++ rest)
    ∙ omega (arith, occurrences-times n rest)

pub length-block : length block ≡ 4096
unfolding block
length-block =
    length-append (replicate padding_len b'x') alpha
    ∙ omega (arith, length-replicate {A = ℕ} padding_len b'x')

pub length-times : (n : ℕ) → length (times block n) ≡ n * 4096
unfolding times
length-times zero = refl
length-times (suc n) =
    length-append block (times block n) ∙ omega (arith, length-block, length-times n)

pub times-append : (m n : ℕ) → times block m ++ times block n ≡ times block (m + n)
unfolding times
times-append zero n = ap (times block) {x = n} {y = 0 + n} (omega arith)
times-append (suc m) n =
    append_assoc block (times block m) (times block n)
    ∙ ap (λ rest. block ++ rest) (times-append m n)
    ∙ ap (times block) {x = suc (m + n)} {y = suc m + n} (omega arith)
