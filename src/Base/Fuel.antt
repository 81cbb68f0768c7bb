-- ===== src/Base/Fuel.antt =====
-- The outcome of a loop that runs on fuel.
use mathlib.Core.Path.{◌≡◌}

pub data Run {ℓ} (A : Type ℓ) : Type ℓ where
  done : A → Run A
  out_of_fuel : Run A

-- The loop ends within its fuel, with a result that satisfies `P`.
abbrev pub Returns : {A : Type 0} → Run A → (A → Type 0) → Type 0
Returns {A} r P = (a : A) × (r ≡ done a) × P a

-- A run that goes on with the result of another.
abbrev pub then_run {ℓ κ} : {A : Type ℓ} {B : Type κ} → Run A → (A → Run B) → Run B
then_run out_of_fuel f = out_of_fuel
then_run (done x) f = f x
