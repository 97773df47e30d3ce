-- ===== src/Baseline/Chunk.antt =====
-- benchmarks/baseline.c, the constants and the body of the read loop: lines 12 to 14, and 41 to 65.
use hello_e_bpf.Prelude.{
  ℕ, zero, suc, ◌+◌, ◌-◌, ◌*◌, ◌%◌, ◌^◌, true, false, [], ◌∷◌, ltb, leb, if◌then◌else◌, length,
}
use hello_e_bpf.Memory.{Bytes, zeroed, store_bytes, memcmp_is_zero, memmove}
use hello_e_bpf.Outcome.{Outcome, done, out_of_fuel, checked, assert, ◌>>=◌, ◌>>◌}

abbrev pub chunk_size_bytes : ℕ
chunk_size_bytes = 64 * 1024

-- "Alpha"
abbrev pub pattern_bytes : Bytes
pattern_bytes = b'A' ∷ b'l' ∷ b'p' ∷ b'h' ∷ b'a' ∷ []

abbrev pub pattern_len_bytes : ℕ
pattern_len_bytes = 5

abbrev pub overlap_len_bytes : ℕ
overlap_len_bytes = pattern_len_bytes - 1

-- A sum of `size_t`; a difference of `size_t`.
abbrev pub add_size : ℕ → ℕ → ℕ
add_size a b = (a + b) % 2 ^ 64

abbrev pub sub_size : ℕ → ℕ → ℕ
sub_size a b = (a + 2 ^ 64 - b) % 2 ^ 64

-- The inner loop: `ptr` and `limit` are offsets into `buffer`.
unfoldable pub scan_loop : ℕ → Bytes → (ptr limit total_count : ℕ) → Outcome ℕ
scan_loop zero buffer ptr limit total_count = out_of_fuel
scan_loop (suc fuel) buffer ptr limit total_count = elim (ltb ptr limit) [
  | false ↦ done total_count
  | true ↦ do
    same ← checked (memcmp_is_zero buffer ptr pattern_bytes)
    elim same [
      | true ↦ scan_loop fuel buffer (ptr + pattern_len_bytes) limit ((total_count + 1) % 2 ^ 64)
      | false ↦ scan_loop fuel buffer (ptr + 1) limit total_count
    ]
]

-- The variables that live across rounds of the read loop.
pub record Progress : Type 0 where
  pub buffer : Bytes
  pub offset_bytes : ℕ
  pub total_count : ℕ

abbrev pub start : Progress
start = record { buffer = zeroed chunk_size_bytes; offset_bytes = 0; total_count = 0 }

-- From `buffer`, which holds `total_len_bytes`: count, and keep the overlap in front.
unfoldable pub count_and_keep : Progress → (total_len_bytes : ℕ) → Outcome Progress
unfolding scan_loop
count_and_keep p total_len_bytes = do
  let limit = total_len_bytes - pattern_len_bytes + 1
  total_count ← scan_loop (limit + 1) p.buffer 0 limit p.total_count
  let bytes_to_keep =
      if ltb total_len_bytes overlap_len_bytes then total_len_bytes else overlap_len_bytes
  buffer ← checked (memmove p.buffer 0 (total_len_bytes - bytes_to_keep) bytes_to_keep)
  done (record { buffer = buffer; offset_bytes = bytes_to_keep; total_count = total_count })

-- The loop's body after a read() that has stored `bytes`, not none of them, behind the overlap. The
-- source computes `limit` before the test of `total_len_bytes`; it is read only where the test fails.
unfoldable pub chunk_step : Progress → Bytes → Outcome Progress
unfolding count_and_keep
chunk_step p bytes = do
  buffer ← checked (store_bytes p.buffer p.offset_bytes bytes)
  let total_len_bytes = add_size (length bytes) p.offset_bytes
  assert (leb total_len_bytes chunk_size_bytes)
  if ltb total_len_bytes pattern_len_bytes
      then done (record p { buffer = buffer; offset_bytes = total_len_bytes })
      else count_and_keep (record p { buffer = buffer }) total_len_bytes
