-- ===== src/Baseline/Program.antt =====
-- benchmarks/baseline.c, `main`: the checks of its arguments and of the system calls, the read loop
-- and the report. The time is computed by the operations of the parameter `os`.
use hello_e_bpf.Prelude.{
  ℕ, zero, suc, not, Option, List, [], ◌∷◌, ◌++◌, ◌==◌, if◌then◌else◌, length, get_elem?, ℤ, pos,
  is_neg, is_zero, ◌-ℤ◌,
}
use hello_e_bpf.Memory.{Bytes}
use hello_e_bpf.Outcome.{out_of_fuel, checked, assert}
use hello_e_bpf.Outcome.Command.{Command, pure, lift, ◌>>=◌, ◌>>◌}
use hello_e_bpf.Posix.{failed, got, Timespec, Posix}
use hello_e_bpf.Baseline.Chunk.{chunk_size_bytes, sub_size, Progress, start, chunk_step}

-- What the program prints, and the descriptors that it closes.
pub data Event (Double : Type 0) : Type 0 where
  usage : Option Bytes → Event Double
  perror_open : Event Double
  perror_read : Event Double
  count_line : ℕ → Event Double
  time_line : Double → Event Double
  closed : ℤ → Event Double

-- The value of `bytes_read` that ends the loop: 0, or -1.
pub data LoopEnd : Type 0 where
  end_of_file : LoopEnd
  read_failed : LoopEnd

module _ (os : Posix) where
  open os use {World, Double}

  -- The system outside, and what the program has done to it that can be seen, oldest first.
  pub record Process : Type 0 where
    pub world : World
    pub log : List (Event Double)

  abbrev pub emit : Event Double → Command Process (Unit {0})
  emit e p = pure tt (record p { log = p.log ++ e ∷ [] })

  -- A system call.
  abbrev pub call : {A : Type 0} → (World → A × World) → Command Process A
  call f p = let (a, w) = f p.world in pure a (record p { world = w })

  -- close(fd)
  abbrev pub close : ℤ → Command Process (Unit {0})
  close fd p = pure tt (record { world = os.close fd p.world; log = p.log ++ closed fd ∷ [] })

  -- The read loop, given `fuel` rounds: the `bytes_read` that ends it, and `total_count`.
  unfoldable pub read_loop : ℕ → (fd : ℤ) → Progress → Command Process (LoopEnd × ℕ)
  read_loop zero fd p = lift out_of_fuel
  read_loop (suc fuel) fd p = do
    result ← call (os.read fd (sub_size chunk_size_bytes p.offset_bytes))
    elim result [
      | failed ↦ pure (read_failed, p.total_count)
      | got [] ↦ pure (end_of_file, p.total_count)
      | got (b ∷ bytes) ↦ do p' ← lift (chunk_step p (b ∷ bytes)); read_loop fuel fd p'
    ]

  pub time_taken_s : (begin end : Timespec) → Double
  time_taken_s begin end =
      os.add_double (os.to_double (end.tv_sec -ℤ begin.tv_sec))
        (os.div_double (os.to_double (end.tv_nsec -ℤ begin.tv_nsec)) os.one_e9)

  -- What follows the loop.
  unfoldable pub finish :
      (fd : ℤ) → (start : Timespec) → LoopEnd → (total_count : ℕ) → Command Process ℤ
  finish fd begin read_failed total_count = do emit perror_read; close fd; pure (pos 1)
  finish fd begin end_of_file total_count = do
    end ← call os.clock_gettime
    lift (assert (is_zero end.clock_res))
    emit (count_line total_count)
    emit (time_line (time_taken_s begin end.time))
    close fd
    pure (pos 0)

  unfoldable pub count_file : ℕ → (fd : ℤ) → Command Process ℤ
  unfolding read_loop finish
  count_file fuel fd = do
    begin ← call os.clock_gettime
    lift (assert (is_zero begin.clock_res))
    (end, total_count) ← read_loop fuel fd start
    finish fd begin.time end total_count

  -- `argc` is the length of `argv`.
  unfoldable pub main : ℕ → (argv : List Bytes) → Command Process ℤ
  unfolding count_file
  main fuel argv =
      if not (length argv == 2) then (do emit (usage (get_elem? argv 0)); pure (pos 1)) else do
        filename ← lift (checked (get_elem? argv 1))
        fd ← call (os.open_rdonly filename)
        if is_neg fd then (do emit perror_open; pure (pos 1)) else count_file fuel fd
