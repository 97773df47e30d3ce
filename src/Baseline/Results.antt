-- ===== src/Baseline/Results.antt =====
-- `main` of benchmarks/baseline.c as a whole: what it prints, returns and closes.
use hello_e_bpf.Prelude.{
  ℕ, suc, ◌%◌, ◌^◌, ◌<◌, ◌≡◌, ap, subst, ◌∙◌, ◌⊎◌, inl, inr, false, List, [], ◌∷◌, ◌++◌,
  append_assoc, arith, ◌==◌, Bool-cases, length, ℤ, pos, is_neg,
}
use hello_e_bpf.Memory.{Bytes}
use hello_e_bpf.Outcome.{done}
use hello_e_bpf.Outcome.Safe.{IsSafe, and_then-IsSafe}
use hello_e_bpf.Posix.{Timespec, Posix}
use hello_e_bpf.Posix.Laws.{ReadFits, ReadFails, ClockWorks, IsFile}
use hello_e_bpf.Baseline.Chunk.{start}
use hello_e_bpf.Baseline.Program.{
  Event, perror_read, count_line, time_line, closed, LoopEnd, end_of_file, read_failed, Process,
  read_loop, time_taken_s, finish, count_file, main,
}
use hello_e_bpf.Baseline.Occurrences.{occurrences, occurrences-le}
use hello_e_bpf.Baseline.Resume.{start-Counted}
use hello_e_bpf.Baseline.Reading.{Ends, read_loop-IsSafe, read_loop-Ends}

module _ (os : Posix) where
  open os use {World, Double}

  module _ (clock : ClockWorks os) where
    -- The process as the read loop finds it and as it goes on.
    abbrev ticked : Process os → Process os
    ticked s = record s { world = (os.clock_gettime s.world).1 }

    finish-IsSafe :
        (fd : ℤ) (begin : Timespec) (end : LoopEnd) (count : ℕ) (s : Process os)
        → IsSafe (finish os fd begin end count s)
    unfolding finish
    finish-IsSafe fd begin read_failed count s = tt
    finish-IsSafe fd begin end_of_file count s = rw (clock s.world) tt

    count_file-IsSafe :
        (fuel : ℕ) (fd : ℤ) (s : Process os) → ReadFits os fd → IsSafe (count_file os fuel fd s)
    unfolding count_file
    count_file-IsSafe fuel fd s fits =
        rw (clock s.world, count_file)
          (and_then-IsSafe (read_loop os fuel fd start (ticked s)) _
            (read_loop-IsSafe os fd fits fuel (ticked s) start-Counted)
            λ ((end, count), s'). finish-IsSafe fd _ end count s')

    -- Whatever the arguments, the files and the results of the system calls, for any number of
    -- rounds: `main` reads and writes nothing outside its buffer and fails no assertion, provided
    -- that read() stores no more than it was asked for and that the clock can be read.
    pub main-IsSafe :
        ((fd : ℤ) → ReadFits os fd)
        → (fuel : ℕ) (argv : List Bytes) (s : Process os) → IsSafe (main os fuel argv s)
    unfolding main
    main-IsSafe fits fuel [] s = tt
    main-IsSafe fits fuel (program ∷ []) s = tt
    main-IsSafe fits fuel (program ∷ filename ∷ []) s =
        elim (Bool-cases (is_neg (os.open_rdonly filename s.world).0)) [
          | inl refused ↦ rw (refused, main) tt
          | inr opened ↦ rw (opened, main) (count_file-IsSafe fuel _ _ (fits _))
        ]
    main-IsSafe fits fuel (program ∷ filename ∷ more ∷ rest) s =
        let many : (suc (suc (suc (length rest))) == 2) ≡ false = ground arith in rw (many, main) tt

    -- What `main` adds to the log once it has a descriptor: a report, or an error.
    abbrev pub report : ℕ → Double → ℤ → List (Event Double)
    report count time fd = count_line count ∷ time_line time ∷ closed fd ∷ []

    module _ (fuel : ℕ) (fd : ℤ) (count : ℕ) (s : Process os) (w : World) where
      count_file-failed :
          read_loop os fuel fd start (ticked s)
            ≡ done ((read_failed, count), record s { world = w })
          → count_file os fuel fd s
            ≡ done (
              pos 1,
              record { world = os.close fd w; log = s.log ++ (perror_read ∷ closed fd ∷ []) },
            )
      unfolding count_file finish
      count_file-failed e =
          rw (clock s.world, count_file, e, append_assoc s.log (perror_read ∷ []) (closed fd ∷ []))

      abbrev elapsed : Double
      elapsed = time_taken_s os (os.clock_gettime s.world).0.time (os.clock_gettime w).0.time

      count_file-end :
          read_loop os fuel fd start (ticked s)
            ≡ done ((end_of_file, count), record s { world = w })
          → count_file os fuel fd s
            ≡ done (
              pos 0,
              record {
                world = os.close fd (os.clock_gettime w).1;
                log = s.log ++ report count elapsed fd;
              },
            )
      unfolding count_file finish
      count_file-end e = rw (
        clock s.world,
        count_file,
        e,
        clock w,
        append_assoc s.log (count_line count ∷ []) _,
        append_assoc s.log _ (closed fd ∷ []),
      )

    module _ {fd : ℕ} {unread : World → Bytes} (file : IsFile os (pos fd) unread) (fuel : ℕ)
        (program filename : Bytes) (s : Process os)
        (opens : (os.open_rdonly filename s.world).0 ≡ pos fd) where
      -- What the file holds when it has been opened.
      abbrev content : Bytes
      content = unread (os.open_rdonly filename s.world).1

      abbrev opened : Process os
      opened = record s { world = (os.open_rdonly filename s.world).1 }

      main-count_file :
          main os fuel (program ∷ filename ∷ []) s ≡ count_file os fuel (pos fd) opened
      unfolding main
      main-count_file = rw (opens, main)

      content_kept : unread (ticked opened).world ≡ content
      content_kept = file.clock_keeps opened.world

      loop-Ends :
          length content < fuel
          → Ends os
              (pos fd)
              content
              (ticked opened)
              (read_loop os fuel (pos fd) start (ticked opened))
      loop-Ends enough = rw content_kept at (
          read_loop-Ends os (pos fd) file fuel (ticked opened) start-Counted
            (omega (arith, ap length content_kept)))

      -- `main` has returned 0 and printed the count `n`, and then closed the file.
      abbrev pub Counts : ℕ → Type 0
      Counts n =
          (time : Double) × (w : World) × (main os fuel (program ∷ filename ∷ []) s
            ≡ done (pos 0, record { world = w; log = s.log ++ report n time (pos fd) }))

      -- `main` has returned 1 and reported an error of read(), and then closed the file.
      abbrev pub GivesUp : Type 0
      GivesUp =
          (w : World) × (main os fuel (program ∷ filename ∷ []) s
            ≡ done
                (pos 1, record { world = w; log = s.log ++ (perror_read ∷ closed (pos fd) ∷ []) }))

      Ends-cases :
          Ends os
            (pos fd)
            content
            (ticked opened)
            (read_loop os fuel (pos fd) start (ticked opened))
          → Counts (occurrences content % 2 ^ 64) ⊎ (GivesUp × ReadFails os (pos fd))
      Ends-cases (end_of_file, count, w, e, right) = inl (
          subst Counts right
            (_, _, main-count_file ∙ count_file-end fuel (pos fd) count opened w e))
      Ends-cases (read_failed, count, w, e, fails) =
          inr ((_, main-count_file ∙ count_file-failed fuel (pos fd) count opened w e), fails)

      -- Given more rounds than the file has bytes, `main` ends in one of two ways. Either it returns
      -- 0 and has printed the number of places at which the pattern stands in the file, modulo
      -- 2^64, or a read() has failed, and it returns 1 and has said so without any count. In both
      -- it has closed the file once, as its last act.
      pub main_ends :
          length content < fuel
          → Counts (occurrences content % 2 ^ 64) ⊎ (GivesUp × ReadFails os (pos fd))
      main_ends enough = Ends-cases (loop-Ends enough)

      -- Given more rounds than the file has bytes, if no read() fails, and the file's length is one
      -- that a file offset can hold, `main` returns 0, prints exactly the number of places at which
      -- the pattern stands in the file, and closes it once, as its last act.
      pub main-occurrences :
          ¬ ReadFails os (pos fd)
          → length content < 2 ^ 63
          → length content < fuel
          → Counts (occurrences content)
      main-occurrences never small enough = elim (main_ends enough) [
        | inl counts ↦ subst Counts (omega (arith, occurrences-le content)) counts
        | inr (_, fails) ↦ absurd (never fails)
      ]
