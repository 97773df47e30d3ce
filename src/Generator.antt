-- ===== src/Generator.antt =====
-- scripts/generate_data.py, the file that benchmarks/baseline.c is run on. The size in bytes is an
-- argument: the script takes it in megabytes, as a float, and truncates the product to an integer.
use hello_e_bpf.Prelude.{
  ℕ, zero, suc, ◌+◌, ◌-◌, ◌*◌, ◌/◌, ◌%◌, List, [], ◌∷◌, ◌++◌, ltb, if◌then◌else◌, replicate, ℤ, pos,
  negsuc,
}
use hello_e_bpf.Memory.{Bytes}
use hello_e_bpf.Outcome.{Outcome, done, out_of_fuel}
pub mod Blocks
pub mod Files
pub mod Benchmark
mod Tests

abbrev pub padding_len : ℕ
padding_len = 4096 - 5

-- b"Alpha"
abbrev pub alpha : Bytes
alpha = b'A' ∷ b'l' ∷ b'p' ∷ b'h' ∷ b'a' ∷ []

unfoldable pub block : Bytes
block = replicate padding_len b'x' ++ alpha

-- bytes * n
unfoldable pub times : Bytes → ℕ → Bytes
times bytes zero = []
times bytes (suc n) = bytes ++ times bytes n

-- The file, and the variables of the loop.
pub record Written : Type 0 where
  pub file : Bytes
  pub written : ℕ
  pub count : ℕ

abbrev pub blocks_per_chunk : ℕ
blocks_per_chunk = 256

-- f.write(block * n), with the counts
abbrev pub write_blocks : ℕ → Written → Written
write_blocks n s = record {
  file = s.file ++ times block n;
  written = s.written + n * 4096;
  count = s.count + n;
}

-- f.write(b"x" * n)
abbrev pub write_padding : ℕ → Written → Written
write_padding n s = record s { file = s.file ++ replicate n b'x'; written = s.written + n }

-- Near the end: the blocks that remain, and what remains behind them.
unfoldable pub write_rest : (remaining_bytes : ℕ) → Written → Written
unfolding times
write_rest remaining_bytes s =
    let blocks_to_write = remaining_bytes / 4096 in
    let remainder_padding = remaining_bytes % 4096 in
    let s' = if ltb 0 blocks_to_write then write_blocks blocks_to_write s else s in
    if ltb 0 remainder_padding then write_padding remainder_padding s' else s'

-- The while loop, for `fuel` rounds.
unfoldable pub write_chunks : ℕ → (target_bytes : ℕ) → Written → Outcome Written
unfolding write_rest
write_chunks zero target_bytes s = out_of_fuel
write_chunks (suc fuel) target_bytes s =
    let remaining_bytes = target_bytes - s.written in
    let rest = write_chunks fuel target_bytes (write_blocks blocks_per_chunk s) in
    if ltb s.written target_bytes
    then (if ltb remaining_bytes (blocks_per_chunk * 4096)
        then done (write_rest remaining_bytes s)
        else rest)
    else done s

abbrev pub nothing_written : Written
nothing_written = record { file = []; written = 0; count = 0 }

-- generate: a negative size is as little as none.
unfoldable pub generate : ℕ → (target_bytes : ℤ) → Outcome Written
unfolding write_chunks
generate fuel (pos target_bytes) = write_chunks fuel target_bytes nothing_written
generate fuel (negsuc _) = write_chunks fuel 0 nothing_written
