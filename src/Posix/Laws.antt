-- ===== src/Posix/Laws.antt =====
-- What benchmarks/baseline.c relies on of the system calls, as POSIX documents them.
use hello_e_bpf.Prelude.{ℕ, ◌≤◌, ◌<◌, ◌≡◌, refl, ◌⊎◌, inl, inr, [], ◌∷◌, ◌++◌, length, ℤ, pos}
use hello_e_bpf.Memory.{Bytes}
use hello_e_bpf.Posix.{ReadResult, failed, got, Posix}

module _ (os : Posix) where
  open os use {World}

  -- read(fd, buf, n) stores at most `n` bytes.
  abbrev pub ReadFits : ℤ → Type 0
  ReadFits fd =
      (n : ℕ) (w : World) (bytes : Bytes) → (os.read fd n w).0 ≡ got bytes → length bytes ≤ n

  -- The clock can be read.
  abbrev pub ClockWorks : Type 0
  ClockWorks = (w : World) → (os.clock_gettime w).0.clock_res ≡ pos 0

  -- A read() of `fd` can fail.
  abbrev pub ReadFails : ℤ → Type 0
  ReadFails fd = (n : ℕ) × (w : World) × ((os.read fd n w).0 ≡ failed)

  -- `fd` is a file that nobody else changes. `unread w` is what is left of it behind the file
  -- offset: a read() takes bytes from its front, and none only at the end.
  pub record IsFile (fd : ℤ) (unread : World → Bytes) : Type 0 where
    pub fits : ReadFits fd
    pub next :
        (n : ℕ) (w : World) (bytes : Bytes)
        → (os.read fd n w).0 ≡ got bytes
        → unread w ≡ bytes ++ unread (os.read fd n w).1
    pub ends : (n : ℕ) (w : World) → 0 < n → (os.read fd n w).0 ≡ got [] → unread w ≡ []
    pub clock_keeps : (w : World) → unread (os.clock_gettime w).1 ≡ unread w

-- What the code tells apart.
pub ReadResult-cases :
    (r : ReadResult)
    → (r ≡ failed) ⊎ (r ≡ got []) ⊎ ((b : ℕ) × (bytes : Bytes) × (r ≡ got (b ∷ bytes)))
ReadResult-cases failed = inl refl
ReadResult-cases (got []) = inr (inl refl)
ReadResult-cases (got (b ∷ bytes)) = inr (inr (b, bytes, refl))
