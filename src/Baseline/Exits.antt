-- ===== src/Baseline/Exits.antt =====
-- The exits of `main` of benchmarks/baseline.c, whatever the system calls do: what is printed
-- and closed, and which status follows.
use hello_e_bpf.Prelude.{
  ℕ, zero, suc, ◌≡◌, ◌≢◌, refl, ap, ◌∙◌, get_elem?, true, inl, inr, false, List, [], ◌∷◌, ◌++◌,
  append_assoc, ◌==◌, ℤ, pos, is_neg, is_zero, Bool-cases, length, arith,
}
use hello_e_bpf.Memory.{Bytes}
use hello_e_bpf.Outcome.{done}
use hello_e_bpf.Outcome.Post.{Post, Post-all, Post-done, Post-equal, and_then-Post}
use hello_e_bpf.Outcome.Command.{lift}
use hello_e_bpf.Posix.Laws.{ReadResult-cases}
use hello_e_bpf.Posix.{Timespec, Posix}
use hello_e_bpf.Baseline.Chunk.{Progress, start, chunk_step, sub_size, chunk_size_bytes}
use hello_e_bpf.Baseline.Program.{
  Event, usage, perror_open, perror_read, count_line, time_line, closed, LoopEnd, end_of_file,
  read_failed, Process, read_loop, finish, count_file, main, time_taken_s,
}

same_start {ℓ} : {A : Type ℓ} → {xs ys : List A} → xs ≡ ys → (zs : List A) → xs ++ zs ≡ ys ++ zs
same_start same zs = ap (λ l. l ++ zs) same

module _ (os : Posix) where
  open os use {Double}

  -- What `main` does, given its arguments and the state it starts from: an exit status, with what is
  -- printed and closed on the way to it.
  module _ (fuel : ℕ) (argv : List Bytes) (s : Process os) where
    -- The state in which the clock is read first, and the one in which the loop starts.
    abbrev pub after_open : Bytes → Process os
    after_open filename = record s { world = (os.open_rdonly filename s.world).1 }

    abbrev pub before_loop : Bytes → Process os
    before_loop filename = record s { world = (os.clock_gettime (after_open filename).world).1 }

    abbrev pub descriptor : Bytes → ℤ
    descriptor filename = (os.open_rdonly filename s.world).0

    -- The read loop ends so, with this count, in the state `q`.
    abbrev pub Loops : Bytes → LoopEnd → (count : ℕ) → (q : Process os) → Type 0
    Loops filename end count q =
        read_loop os fuel (descriptor filename) start (before_loop filename)
        ≡ done ((end, count), q)

    pub data Exit : ℤ → List (Event Double) → Type 0 where
      misused : length argv ≢ 2 → Exit (pos 1) (usage (get_elem? argv 0) ∷ [])
      unopened :
          (program filename : Bytes)
          → argv ≡ program ∷ filename ∷ []
          → is_neg (descriptor filename) ≡ true
          → Exit (pos 1) (perror_open ∷ [])
      unread :
          (program filename : Bytes) (count : ℕ) (q : Process os)
          → argv ≡ program ∷ filename ∷ []
          → is_neg (descriptor filename) ≡ false
          → Loops filename read_failed count q
          → Exit (pos 1) (perror_read ∷ closed (descriptor filename) ∷ [])
      counted :
          (program filename : Bytes) (count : ℕ) (q : Process os)
          → argv ≡ program ∷ filename ∷ []
          → is_neg (descriptor filename) ≡ false
          → Loops filename end_of_file count q
          → Exit (pos 0) (
              count_line count
              ∷ time_line (
                  time_taken_s os
                    (os.clock_gettime (after_open filename).world).0.time
                    (os.clock_gettime q.world).0.time)
              ∷ closed (descriptor filename)
              ∷ [])

    abbrev pub Exits : ℤ × Process os → Type 0
    Exits (code, s') = (added : List (Event Double)) × (s'.log ≡ s.log ++ added) × Exit code added

  abbrev LogIs : {A : Type 0} → List (Event Double) → A × Process os → Type 0
  LogIs log (_, s) = s.log ≡ log

  -- The read loop prints nothing and closes nothing.
  read_loop-LogIs :
      (fuel : ℕ) (fd : ℤ) (p : Progress) (s : Process os) (log : List (Event Double))
      → s.log ≡ log
      → Post (LogIs log) (read_loop os fuel fd p s)
  unfolding read_loop
  read_loop-LogIs zero fd p s log h = tt
  read_loop-LogIs (suc fuel) fd p s log h =
      let n = sub_size chunk_size_bytes p.offset_bytes in
      let s' : Process os = record s { world = (os.read fd n s.world).1 } in
      elim (ReadResult-cases (os.read fd n s.world).0) [
        | inl e ↦ rw (e, read_loop) h
        | inr (inl e) ↦ rw (e, read_loop) h
        | inr (inr (b, bytes, e)) ↦
            rw (e, read_loop)
              (and_then-Post (LogIs log) (LogIs log) (lift (chunk_step p (b ∷ bytes)) s') _
                (and_then-Post (λ _. Unit) (LogIs log) (chunk_step p (b ∷ bytes)) _
                  (Post-all _ _ λ _. tt) λ _ _. h)
                λ (p', q). read_loop-LogIs fuel fd p' q log)
      ]

  module _ (fuel : ℕ) (s : Process os) (program filename : Bytes)
      (opened : is_neg (os.open_rdonly filename s.world).0 ≡ false) where
    abbrev two : List Bytes
    two = program ∷ filename ∷ []

    abbrev fd : ℤ
    fd = (os.open_rdonly filename s.world).0

    abbrev begin : Timespec
    begin = (os.clock_gettime (os.open_rdonly filename s.world).1).0.time

    finish-Exits :
        (end : LoopEnd) (count : ℕ) (q : Process os)
        → q.log ≡ s.log
        → Loops fuel two s filename end count q
        → Post (Exits fuel two s) (finish os fd begin end count q)
    unfolding finish
    finish-Exits read_failed count q same loops = (
      _,
      append_assoc q.log (perror_read ∷ []) _ ∙ same_start same (perror_read ∷ closed fd ∷ []),
      unread program filename count q refl opened loops,
    )
    finish-Exits end_of_file count q same loops =
        elim (Bool-cases (is_zero (os.clock_gettime q.world).0.clock_res)) [
          | inl ok ↦
              rw (ok, finish)
                (
                  _,
                  append_assoc (q.log ++ count_line count ∷ []) _ (closed fd ∷ [])
                      ∙ append_assoc q.log (count_line count ∷ []) _
                      ∙ same_start same _,
                  counted program filename count q refl opened loops,
                )
          | inr bad ↦ rw (bad, finish) tt
        ]

    count_file-Exits :
        Post
          (Exits fuel two s)
          (count_file os fuel fd (record s { world = (os.open_rdonly filename s.world).1 }))
    unfolding count_file
    count_file-Exits =
        let w = (os.open_rdonly filename s.world).1 in
        let s' : Process os = record s { world = (os.clock_gettime w).1 } in
        elim (Bool-cases (is_zero (os.clock_gettime w).0.clock_res)) [
          | inr bad ↦ rw (bad, count_file) tt
          | inl ok ↦
              rw (ok, count_file)
                (and_then-Post (λ r. LogIs s.log r × (read_loop os fuel fd start s' ≡ done r))
                  (Exits fuel two s) (read_loop os fuel fd start s') _
                  (Post-equal (LogIs s.log) _ (read_loop-LogIs fuel fd start s' s.log refl))
                  λ ((end, count), q) (same, loops). finish-Exits end count q same loops)
        ]

  main-Post :
      (fuel : ℕ) (argv : List Bytes) (s : Process os)
      → Post (Exits fuel argv s) (main os fuel argv s)
  unfolding main
  main-Post fuel [] s = (_, refl, misused (λ e. absurd (omega (arith, e))))
  main-Post fuel (program ∷ []) s = (_, refl, misused (λ e. absurd (omega (arith, e))))
  main-Post fuel (program ∷ filename ∷ []) s =
      elim (Bool-cases (is_neg (os.open_rdonly filename s.world).0)) [
        | inl refused ↦ rw (refused, main) (_, refl, unopened program filename refl refused)
        | inr opened ↦ rw (opened, main) (count_file-Exits fuel s program filename opened)
      ]
  main-Post fuel (program ∷ filename ∷ more ∷ rest) s =
      let many : (suc (suc (suc (length rest))) == 2) ≡ false = ground arith in
      rw (many, main) (_, refl, misused (λ e. absurd (omega (arith, e))))

  -- Whatever the system calls return, if `main` returns, it has done one of these things, and printed and
  -- closed nothing else: without exactly one argument it prints the usage and returns 1; where the file
  -- cannot be opened it prints a message and returns 1; where a read() ends the loop with a failure it
  -- prints a message, closes the descriptor that open() has given, and returns 1; and where the loop ends
  -- at the end of the file it prints the loop's count, the time between the readings of the clock before
  -- and after the loop, closes this descriptor, and returns 0.
  pub main-Exits :
      (fuel : ℕ) (argv : List Bytes) (s s' : Process os) (code : ℤ)
      → main os fuel argv s ≡ done (code, s')
      → Exits fuel argv s (code, s')
  main-Exits fuel argv s s' code e = Post-done (Exits fuel argv s) _ (main-Post fuel argv s) e
