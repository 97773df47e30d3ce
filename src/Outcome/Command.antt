-- ===== src/Outcome/Command.antt =====
-- Commands: code that reads and writes a state of type `S` on the way to its outcome.
use hello_e_bpf.Outcome.{Outcome, done, and_then}

abbrev pub Command : Type 0 → Type 0 → Type 0
Command S A = S → Outcome (A × S)

module _ {S A : Type 0} where
  abbrev pub pure : A → Command S A
  pure a s = done (a, s)

  -- Code that does not touch the state.
  abbrev pub lift : Outcome A → Command S A
  lift m s = and_then m λ a. done (a, s)

module _ {S A B : Type 0} where
  infixl 5 ◌>>=◌ ◌>>◌
  abbrev pub ◌>>=◌ : Command S A → (A → Command S B) → Command S B
  ◌>>=◌ m k s = and_then (m s) λ (a, s'). k a s'

  abbrev pub ◌>>◌ : Command S A → Command S B → Command S B
  ◌>>◌ m n s = and_then (m s) λ (_, s'). n s'
