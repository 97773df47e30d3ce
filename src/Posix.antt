-- ===== src/Posix.antt =====
-- The system calls and the floating-point arithmetic that benchmarks/baseline.c uses. They are not
-- part of the repository: a `Posix` is a parameter of the model.
pub mod Laws
pub mod Small
use hello_e_bpf.Prelude.{ℕ, ℤ}
use hello_e_bpf.Memory.{Bytes}

-- What read() returns: -1, or the count of bytes that it has stored, here with the bytes.
pub data ReadResult : Type 0 where
  failed : ReadResult
  got : Bytes → ReadResult

-- struct timespec
pub record Timespec : Type 0 where
  pub tv_sec : ℤ
  pub tv_nsec : ℤ

-- The value of clock_gettime(CLOCK_MONOTONIC, &t), and what `t` holds after it.
pub record ClockReading : Type 0 where
  pub clock_res : ℤ
  pub time : Timespec

pub record Posix : Type 1 where
  pub World : Type 0
  pub Double : Type 0
  pub open_rdonly : Bytes → World → ℤ × World  -- open(filename, O_RDONLY)
  pub read : ℤ → ℕ → World → ReadResult × World
  pub close : ℤ → World → World
  pub clock_gettime : World → ClockReading × World
  pub to_double : ℤ → Double
  pub add_double : Double → Double → Double
  pub div_double : Double → Double → Double
  pub one_e9 : Double
