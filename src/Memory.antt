-- ===== src/Memory.antt =====
-- C's accesses to the static `buffer` of benchmarks/baseline.c, a list of bytes. Each access is
-- checked against the array's length: `none` is an access outside the array.
pub mod Laws
use hello_e_bpf.Prelude.{
  ℕ, zero, suc, ◌+◌, Bool, true, false, Option, none, some, List, [], ◌∷◌, ◌++◌, leb, ◌==◌,
  if◌then◌else◌, length, take, drop,
}

abbrev pub Bytes : Type 0
Bytes = List ℕ

-- A static array of `n` bytes: it starts as zeros.
pub zeroed : ℕ → Bytes
zeroed zero = []
zeroed (suc n) = 0 ∷ zeroed n

-- The `n` bytes at `off`.
unfoldable pub load_bytes : Bytes → ℕ → ℕ → Option Bytes
load_bytes buffer off n =
    if leb (off + n) (length buffer) then some (take n (drop off buffer)) else none

-- `bytes` written at `off`.
unfoldable pub store_bytes : Bytes → ℕ → Bytes → Option Bytes
store_bytes buffer off bytes =
    if leb (off + length bytes) (length buffer)
    then some (take off buffer ++ bytes ++ drop (off + length bytes) buffer)
    else none

unfoldable pub same_bytes : Bytes → Bytes → Bool
same_bytes [] [] = true
same_bytes (x ∷ xs) (y ∷ ys) = if x == y then same_bytes xs ys else false
same_bytes _ _ = false

-- memcmp(buffer + off, bytes, length of bytes) == 0
unfoldable pub memcmp_is_zero : Bytes → ℕ → Bytes → Option Bool
memcmp_is_zero buffer off bytes = elim (load_bytes buffer off (length bytes)) [
  | none ↦ none
  | some found ↦ some (same_bytes found bytes)
]

-- memmove(buffer + to, buffer + from, n)
unfoldable pub memmove : Bytes → ℕ → ℕ → ℕ → Option Bytes
memmove buffer to from n = elim (load_bytes buffer from n) [
  | none ↦ none
  | some bytes ↦ store_bytes buffer to bytes
]
