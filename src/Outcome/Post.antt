-- ===== src/Outcome/Post.antt =====
-- Partial correctness: what holds of a value, if code returns one.
use hello_e_bpf.Prelude.{◌≡◌, refl, subst}
use hello_e_bpf.Outcome.{Outcome, done, fault, aborted, out_of_fuel, and_then}

abbrev pub Post {ℓ} : {A : Type ℓ} → (A → Type 0) → Outcome A → Type 0
Post P (done a) = P a
Post P fault = Unit
Post P aborted = Unit
Post P out_of_fuel = Unit

module _ {ℓ} {A : Type ℓ} where
  pub Post-all : (P : A → Type 0) (m : Outcome A) → ((a : A) → P a) → Post P m
  Post-all P (done a) all = all a
  Post-all P fault all = tt
  Post-all P aborted all = tt
  Post-all P out_of_fuel all = tt

  pub Post-done : (P : A → Type 0) (m : Outcome A) {a : A} → Post P m → m ≡ done a → P a
  Post-done P m post e = subst (Post P) e post

pub and_then-Post {ℓ κ} :
    {A : Type ℓ} {B : Type κ} (P : A → Type 0) (Q : B → Type 0) (m : Outcome A) (k : A → Outcome B)
    → Post P m
    → ((a : A) → P a → Post Q (k a))
    → Post Q (and_then m k)
and_then-Post P Q (done a) k h next = next a h
and_then-Post P Q fault k h next = tt
and_then-Post P Q aborted k h next = tt
and_then-Post P Q out_of_fuel k h next = tt

-- With the equation that says where the value comes from.
pub Post-equal :
    {A : Type 0} (P : A → Type 0) (m : Outcome A) → Post P m → Post (λ a. P a × (m ≡ done a)) m
Post-equal P (done a) h = (h, refl)
Post-equal P fault h = tt
Post-equal P aborted h = tt
Post-equal P out_of_fuel h = tt
