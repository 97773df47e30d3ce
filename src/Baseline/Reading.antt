-- ===== src/Baseline/Reading.antt =====
-- The read loop of benchmarks/baseline.c: safe whatever read() returns, and right about a file.
use hello_e_bpf.Prelude.{
  ℕ, zero, suc, ◌+◌, ◌%◌, ◌^◌, ◌<◌, ◌≡◌, ap, inl, inr, [], ◌∷◌, ◌++◌, append_assoc, append-nil,
  arith, length, length-append, ℤ,
}
use hello_e_bpf.Memory.{Bytes}
use hello_e_bpf.Outcome.{Outcome, done}
use hello_e_bpf.Outcome.Safe.{IsSafe}
use hello_e_bpf.Posix.{ReadResult, failed, got, Posix}
use hello_e_bpf.Posix.Laws.{ReadFits, ReadFails, IsFile, ReadResult-cases}
use hello_e_bpf.Baseline.Chunk.{chunk_size_bytes, sub_size, Progress, chunk_step}
use hello_e_bpf.Baseline.Program.{LoopEnd, end_of_file, read_failed, Process, read_loop}
use hello_e_bpf.Baseline.Occurrences.{occurrences}
use hello_e_bpf.Baseline.Resume.{Counted, chunk_step-Counted}

-- The size of each request: never 0, since the overlap is short.
request :
    {seen : Bytes} {p : Progress}
    → Counted seen p
    → sub_size chunk_size_bytes p.offset_bytes + p.offset_bytes ≡ chunk_size_bytes
request c = omega (arith, c.offset)

module _ (os : Posix) (fd : ℤ) where
  open os use {World}

  -- One round of the loop, by what read() returns.
  module _ (fuel : ℕ) (p : Progress) (s : Process os) where
    abbrev returned : ReadResult × World
    returned = os.read fd (sub_size chunk_size_bytes p.offset_bytes) s.world

    read_loop-failed :
        returned.0 ≡ failed
        → read_loop os (suc fuel) fd p s
          ≡ done ((read_failed, p.total_count), record s { world = returned.1 })
    unfolding read_loop
    read_loop-failed e = rw (e, read_loop)

    read_loop-nil :
        returned.0 ≡ got []
        → read_loop os (suc fuel) fd p s
          ≡ done ((end_of_file, p.total_count), record s { world = returned.1 })
    unfolding read_loop
    read_loop-nil e = rw (e, read_loop)

    read_loop-cons :
        {b : ℕ} {bytes : Bytes} {p' : Progress}
        → returned.0 ≡ got (b ∷ bytes)
        → chunk_step p (b ∷ bytes) ≡ done p'
        → read_loop os (suc fuel) fd p s ≡ read_loop os fuel fd p' (record s { world = returned.1 })
    unfolding read_loop
    read_loop-cons e step = rw (e, read_loop, step)

  -- Whatever the loop is given: no access outside the buffer, no failed assertion.
  pub read_loop-IsSafe :
      ReadFits os fd
      → (fuel : ℕ) {seen : Bytes} {p : Progress} (s : Process os) → Counted seen p
      → IsSafe (read_loop os fuel fd p s)
  read_loop-IsSafe fits zero s c = unfold read_loop in tt
  read_loop-IsSafe fits (suc fuel) {p} s c = elim (ReadResult-cases (returned fuel p s).0) [
    | inl e ↦ rw (read_loop-failed fuel p s e) tt
    | inr (inl e) ↦ rw (read_loop-nil fuel p s e) tt
    | inr (inr (b, bytes, e)) ↦
        let size = fits _ _ _ e in
        let (p', step, c') = chunk_step-Counted c (b ∷ bytes) (omega (arith, request c, size)) in
        rw (read_loop-cons fuel p s e step) (read_loop-IsSafe fits fuel _ c')
  ]

  -- What the loop's end means, of a file that held `content`.
  abbrev pub Ending : Bytes → LoopEnd → ℕ → Type 0
  Ending content end_of_file count = count ≡ occurrences content % 2 ^ 64
  Ending content read_failed count = ReadFails os fd

  abbrev pub Ends : Bytes → Process os → Outcome ((LoopEnd × ℕ) × Process os) → Type 0
  Ends content s outcome =
      (end : LoopEnd) × (count : ℕ) × (w : World) × (outcome
        ≡ done ((end, count), record s { world = w }))
      × Ending content end count

  module _ {unread : World → Bytes} (file : IsFile os fd unread) where
    -- With more rounds than bytes the loop ends; at the end of the file the count is right, and it
    -- ends early only after a read() that failed.
    pub read_loop-Ends :
        (fuel : ℕ) {seen : Bytes} {p : Progress} (s : Process os)
        → Counted seen p
        → length (unread s.world) < fuel
        → Ends (seen ++ unread s.world) s (read_loop os fuel fd p s)
    read_loop-Ends zero s c enough = absurd (omega arith)
    read_loop-Ends (suc fuel) {seen} {p} s c enough =
        elim (ReadResult-cases (returned fuel p s).0) [
          | inl e ↦ (
            read_failed,
            p.total_count,
            (returned fuel p s).1,
            read_loop-failed fuel p s e,
            (_, _, e),
          )
          | inr (inl e) ↦
              let all : unread s.world ≡ [] =
                file.ends _ _ (omega (arith, request c, c.offset)) e in
              (
                end_of_file,
                p.total_count,
                (returned fuel p s).1,
                read_loop-nil fuel p s e,
                rw (all, append-nil) c.count,
              )
          | inr (inr (b, bytes, e)) ↦
              let w = (returned fuel p s).1 in
              let size = file.fits _ _ _ e in
              let split = file.next _ _ _ e in
              let (p', step, c') =
                chunk_step-Counted c (b ∷ bytes) (omega (arith, request c, size)) in
              rw (read_loop-cons fuel p s e step, split, ← append_assoc seen (b ∷ bytes) (unread w))
                (read_loop-Ends fuel (record s { world = w }) c'
                  (omega (arith, ap length split, length-append (b ∷ bytes) (unread w))))
        ]
