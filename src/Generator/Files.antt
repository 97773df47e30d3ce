-- ===== src/Generator/Files.antt =====
-- The file that the script writes: its size, and how often the pattern stands in it.
use hello_e_bpf.Prelude.{
  ℕ, zero, suc, ◌+◌, ◌-◌, ◌*◌, ◌/◌, ◌%◌, ◌≤◌, ◌<◌, ◌≡◌, refl, sym, ap, ◌∙◌, inl, inr, Bool-cases,
  [], ◌++◌, append-nil, arith, replicate, length, length-append, length-replicate, ltb,
  if◌then◌else◌, pos,
}
use hello_e_bpf.Outcome.{done}
use hello_e_bpf.Baseline.Occurrences.{occurrences}
use hello_e_bpf.Generator.{
  block, times, Written, blocks_per_chunk, write_blocks, write_padding, write_rest, write_chunks,
  nothing_written, generate,
}
use hello_e_bpf.Generator.Blocks.{
  occurrences-padding, occurrences-times, length-times, times-append,
}

-- Only whole blocks have been written.
pub record IsWhole (s : Written) : Type 0 where
  pub blocks : s.file ≡ times block s.count
  pub size : s.written ≡ s.count * 4096

-- The file has `target` bytes: whole blocks, and padding behind them.
pub record IsFinished (target : ℕ) (s : Written) : Type 0 where
  pub file : s.file ≡ times block (target / 4096) ++ replicate (target % 4096) b'x'
  pub written : s.written ≡ target
  pub count : s.count ≡ target / 4096

write_blocks-IsWhole : (n : ℕ) (s : Written) → IsWhole s → IsWhole (write_blocks n s)
write_blocks-IsWhole n s h = record {
  blocks = ap (λ f. f ++ times block n) h.blocks ∙ times-append s.count n;
  size = omega (arith, h.size);
}

-- Where `target` bytes are whole blocks, or fewer than a block more than these.
IsWhole-IsFinished :
    (target : ℕ) (s : Written) → IsWhole s → s.written ≡ target → IsFinished target s
IsWhole-IsFinished target s h all =
    let k : target / 4096 ≡ s.count = omega (arith, h.size) in
    let r : target % 4096 ≡ 0 = omega (arith, h.size) in
    record { file = rw (k, r) (h.blocks ∙ sym (append-nil _)); written = all; count = sym k }

padded-IsFinished :
    (target n : ℕ) (s : Written)
    → IsWhole s
    → n < 4096
    → s.written + n ≡ target
    → IsFinished target (write_padding n s)
padded-IsFinished target n s h small all =
    let k : target / 4096 ≡ s.count = omega (arith, h.size) in
    let r : target % 4096 ≡ n = omega (arith, h.size) in
    record {
      file = rw (k, r) (ap (λ f. f ++ replicate n b'x') h.blocks);
      written = all;
      count = sym k;
    }

abbrev some_blocks : ℕ → Written → Written
some_blocks n s = if ltb 0 n then write_blocks n s else s

some_blocks-IsWhole :
    (n : ℕ) (s : Written)
    → IsWhole s
    → IsWhole (some_blocks n s) × ((some_blocks n s).written ≡ s.written + n * 4096)
some_blocks-IsWhole n s h = elim (Bool-cases (ltb 0 n)) [
  | inl more ↦ rw (more) (write_blocks-IsWhole n s h, refl)
  | inr none_left ↦ rw (none_left) (h, ground arith)
]

write_rest-IsFinished :
    (target remaining : ℕ) (s : Written)
    → IsWhole s
    → s.written + remaining ≡ target
    → IsFinished target (write_rest remaining s)
unfolding write_rest
write_rest-IsFinished target remaining s h all =
    let s' = some_blocks (remaining / 4096) s in
    let (whole, size) = some_blocks-IsWhole (remaining / 4096) s h in
    elim (Bool-cases (ltb 0 (remaining % 4096))) [
      | inl more ↦
          rw (more) (
            padded-IsFinished target (remaining % 4096) s' whole (omega arith)
              (omega (arith, size)))
      | inr none_left ↦ rw (none_left) (IsWhole-IsFinished target s' whole (ground (arith, size)))
    ]

write_chunks-IsFinished :
    (fuel target : ℕ) (s : Written)
    → IsWhole s
    → s.written ≤ target
    → target < s.written + fuel * (256 * 4096)
    → (r : Written) × (write_chunks fuel target s ≡ done r) × IsFinished target r
unfolding write_chunks
write_chunks-IsFinished zero target s h le enough = absurd (omega arith)
write_chunks-IsFinished (suc fuel) target s h le enough = elim (Bool-cases (ltb s.written target)) [
  | inr all ↦ rw (all) (s, refl, IsWhole-IsFinished target s h (ground arith))
  | inl more ↦ elim (Bool-cases (ltb (target - s.written) (blocks_per_chunk * 4096))) [
    | inl near ↦
        rw (more, near)
          (_, refl, write_rest-IsFinished target (target - s.written) s h (ground arith))
    | inr far ↦
        let s' = write_blocks blocks_per_chunk s in
        rw (more, far)
          (write_chunks-IsFinished fuel target s' (write_blocks-IsWhole blocks_per_chunk s h)
            (ground arith) (omega arith))
  ]
]

nothing-IsWhole : IsWhole nothing_written
unfolding times
nothing-IsWhole = record { blocks = refl; size = refl }

occurrences_only_padding : (n : ℕ) → occurrences (replicate n b'x') ≡ 0
unfolding occurrences
occurrences_only_padding n = ap occurrences (sym (append-nil _)) ∙ occurrences-padding n []

-- The script ends, given a round for each 256 blocks and one more, and the file has the size that was
-- asked for. The number that it prints is the number of places at which the pattern stands in the file.
pub generate_lem :
    (fuel target : ℕ)
    → target < fuel * (256 * 4096)
    → (r : Written) × (generate fuel (pos target) ≡ done r)
      × (r.written ≡ target)
      × (length r.file ≡ target)
      × (r.count ≡ target / 4096)
      × (occurrences r.file ≡ r.count)
unfolding generate
generate_lem fuel target enough =
    let (r, ends, h) =
      write_chunks-IsFinished fuel target nothing_written nothing-IsWhole (omega arith)
        (omega arith) in
    (
      r,
      ends,
      h.written,
      ap length h.file
          ∙ length-append (times block (target / 4096)) _
          ∙ omega
              (arith, length-times (target / 4096), length-replicate {A = ℕ} (target % 4096) b'x'),
      h.count,
      ap occurrences h.file
          ∙ occurrences-times (target / 4096) _
          ∙ omega (arith, occurrences_only_padding (target % 4096), h.count),
    )
