-- ===== src/Outcome.antt =====
-- How a piece of C code ends, and commands that also pass a state on.
pub mod Command
pub mod Safe
pub mod Post
use mathlib.Core.Option.{Option, none, some}
use hello_e_bpf.Prelude.{Bool, true, false}

-- `fault` is an access outside an array, `aborted` a failed `assert`. `out_of_fuel` belongs to the
-- model alone: a loop that has been given too few rounds.
pub data Outcome {ℓ} (A : Type ℓ) : Type ℓ where
  done : A → Outcome A
  fault : Outcome A
  aborted : Outcome A
  out_of_fuel : Outcome A

abbrev pub and_then {ℓ κ} : {A : Type ℓ} {B : Type κ} → Outcome A → (A → Outcome B) → Outcome B
and_then (done a) k = k a
and_then fault k = fault
and_then aborted k = aborted
and_then out_of_fuel k = out_of_fuel

-- An access to an array.
abbrev pub checked {ℓ} : {A : Type ℓ} → Option A → Outcome A
checked none = fault
checked (some a) = done a

-- assert(b)
abbrev pub assert : Bool → Outcome (Unit {0})
assert true = done tt
assert false = aborted

module _ {ℓ κ} {A : Type ℓ} {B : Type κ} where
  infixl 5 ◌>>=◌ ◌>>◌
  abbrev pub ◌>>=◌ : Outcome A → (A → Outcome B) → Outcome B
  m >>= k = and_then m k

  abbrev pub ◌>>◌ : Outcome A → Outcome B → Outcome B
  m >> n = and_then m λ _. n
