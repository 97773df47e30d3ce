-- ===== src/Bytecode/Words.antt =====
-- The arithmetic of the machine: registers are words of 64 bits.
use Prim.Native.Nat.{bit_and}
use hello_e_bpf.Prelude.{
  ℕ, zero, suc, ◌+◌, ◌-◌, ◌*◌, ◌/◌, ◌%◌, ◌^◌, Bool, not, ltb, ◌==◌, if◌then◌else◌, ℤ, pos, negsuc,
}
use hello_e_bpf.Bytecode.Instruction.{
  Alu, mov, add, sub, and, lsh, rsh, arsh, Test, eq, ne, gt, ge, sgt,
}

-- The sum of an address and an offset, and that of a slot and an offset.
abbrev pub displace : ℕ → ℤ → ℕ
displace a (pos n) = (a + n) % 2 ^ 64
displace a (negsuc n) = (a + 2 ^ 64 - (n + 1)) % 2 ^ 64

-- A word read as a signed number, moved up by 2^63: the order of the results is the signed order.
abbrev pub biased : ℕ → ℕ
biased a = (a + 2 ^ 63) % 2 ^ 64

unfoldable pub compute : Alu → ℕ → ℕ → ℕ
compute mov a b = b
compute add a b = (a + b) % 2 ^ 64
compute sub a b = (a + 2 ^ 64 - b) % 2 ^ 64
compute and a b = bit_and a b
compute lsh a b = (a * 2 ^ (b % 64)) % 2 ^ 64
compute rsh a b = a / 2 ^ (b % 64)
compute arsh a b =
    if ltb a (2 ^ 63) then a / 2 ^ (b % 64) else 2 ^ 64 - 1 - (2 ^ 64 - 1 - a) / 2 ^ (b % 64)

unfoldable pub holds : Test → ℕ → ℕ → Bool
holds eq a b = a == b
holds ne a b = not (a == b)
holds gt a b = ltb b a
holds ge a b = not (ltb a b)
holds sgt a b = ltb (biased b) (biased a)

-- The lowest `size` bytes of a number, in the other order.
unfoldable pub swapped : (size : ℕ) → ℕ → ℕ
swapped zero a = 0
swapped (suc size) a = a % 256 * 256 ^ size + swapped size (a / 256)
