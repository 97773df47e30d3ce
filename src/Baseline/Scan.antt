-- ===== src/Baseline/Scan.antt =====
-- The inner loop of benchmarks/baseline.c against the specification of the count.
use hello_e_bpf.Prelude.{
  ℕ, zero, suc, ◌+◌, ◌-◌, ◌%◌, ◌^◌, ◌≤◌, ◌<◌, ◌≡◌, ap, ◌∙◌, true, false, some, inl, inr, arith, ltb,
  Bool-cases, length, take, drop, length-take, length-drop, take-drop-take, drop-drop,
}
use hello_e_bpf.Memory.{Bytes, memcmp_is_zero}
use hello_e_bpf.Memory.Laws.{load_fits}
use hello_e_bpf.Outcome.{done}
use hello_e_bpf.Baseline.Chunk.{pattern_bytes, scan_loop}
use hello_e_bpf.Baseline.Occurrences.{
  is_prefix, occurrences, occurrences_short, occurrences_skip, occurrences_advance,
  same_bytes-is_prefix,
}

module _ (buffer : Bytes) (total : ℕ) (fits : total ≤ length buffer) where
  -- What is left to scan from `ptr`.
  abbrev rest : ℕ → Bytes
  rest ptr = drop ptr (take total buffer)

  length-rest : (ptr : ℕ) → length (rest ptr) ≡ total - ptr
  length-rest ptr = omega (arith, length-drop ptr (take total buffer), length-take total buffer)

  memcmp-rest :
      (ptr : ℕ)
      → ptr + 5 ≤ total
      → memcmp_is_zero buffer ptr pattern_bytes ≡ some (is_prefix pattern_bytes (rest ptr))
  unfolding memcmp_is_zero
  memcmp-rest ptr h =
      rw
        (
          load_fits buffer ptr 5 (omega arith),
          memcmp_is_zero,
          ← take-drop-take 5 ptr total buffer h,
        )
        (ap some (same_bytes-is_prefix pattern_bytes (rest ptr) (omega (arith, length-rest ptr))))

  occurrences-rest_hit :
      (ptr : ℕ)
      → is_prefix pattern_bytes (rest ptr) ≡ true
      → occurrences (rest ptr) ≡ 1 + occurrences (rest (ptr + 5))
  occurrences-rest_hit ptr hit =
      occurrences_skip (rest ptr) hit
      ∙ ap (λ bytes. 1 + occurrences bytes) (drop-drop 5 ptr (take total buffer))

  occurrences-rest_miss :
      (ptr : ℕ)
      → is_prefix pattern_bytes (rest ptr) ≡ false
      → occurrences (rest ptr) ≡ occurrences (rest (ptr + 1))
  occurrences-rest_miss ptr miss =
      occurrences_advance (rest ptr) miss ∙ ap occurrences (drop-drop 1 ptr (take total buffer))

  -- With a round for each place left, the loop ends and has added the occurrences in what was left.
  scan_loop-rest :
      (fuel ptr count : ℕ)
      → 5 ≤ total
      → total - 5 + 1 - ptr < fuel
      → count < 2 ^ 64
      → scan_loop fuel buffer ptr (total - 5 + 1) count
        ≡ done ((count + occurrences (rest ptr)) % 2 ^ 64)
  unfolding scan_loop
  scan_loop-rest zero ptr count five fuel small = absurd (omega arith)
  scan_loop-rest (suc f) ptr count five fuel small = elim (Bool-cases (ltb ptr (total - 5 + 1))) [
    | inr stop ↦
        let at_end : total < ptr + 5 = ground arith in
        rw (stop, scan_loop)
          (ap done (omega (arith, occurrences_short (rest ptr) (omega (arith, length-rest ptr)))))
    | inl more ↦
        let room : ptr + 5 ≤ total = ground arith in
        rw (more, scan_loop, memcmp-rest ptr room)
          (elim (Bool-cases (is_prefix pattern_bytes (rest ptr))) [
            | inl hit ↦
                rw (hit, scan_loop)
                  (scan_loop-rest f (ptr + 5) ((count + 1) % 2 ^ 64) five (omega arith)
                      (omega arith)
                    ∙ ap done (omega (arith, occurrences-rest_hit ptr hit)))
            | inr miss ↦
                rw (miss, scan_loop)
                  (scan_loop-rest f (ptr + 1) count five (omega arith) small
                    ∙ ap done (omega (arith, occurrences-rest_miss ptr miss)))
          ])
  ]

-- Given `limit + 1` rounds the scan of a filled buffer ends, reads nothing outside the buffer, and
-- adds the number of places at which the pattern stands in it, modulo 2^64.
pub scan_loop-occurrences :
    (buffer : Bytes) (total count : ℕ)
    → 5 ≤ total
    → total ≤ length buffer
    → count < 2 ^ 64
    → scan_loop (total - 5 + 1 + 1) buffer 0 (total - 5 + 1) count
      ≡ done ((count + occurrences (take total buffer)) % 2 ^ 64)
scan_loop-occurrences buffer total count five fits small =
    scan_loop-rest buffer total fits _ 0 count five (omega arith) small
