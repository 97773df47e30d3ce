-- ===== src/Outcome/Safe.antt =====
-- Outcomes with no access outside an array and no failed assertion.
use hello_e_bpf.Outcome.{Outcome, done, fault, aborted, out_of_fuel, and_then}

abbrev pub IsSafe {ℓ} : {A : Type ℓ} → Outcome A → Type 0
IsSafe (done _) = Unit
IsSafe out_of_fuel = Unit
IsSafe fault = ⊥
IsSafe aborted = ⊥

pub and_then-IsSafe {ℓ κ} :
    {A : Type ℓ} {B : Type κ} (m : Outcome A) (k : A → Outcome B)
    → IsSafe m
    → ((a : A) → IsSafe (k a))
    → IsSafe (and_then m k)
and_then-IsSafe (done a) k h next = next a
and_then-IsSafe out_of_fuel k h next = tt
and_then-IsSafe fault k h next = elim h [ ]
and_then-IsSafe aborted k h next = elim h [ ]
