-- ===== src/Base/Errors.antt =====
-- What a Python call does: it returns a value, or raises one of the exceptions of the program.
use mathlib.Core.Path.{◌≡◌, refl}

-- The exception classes that the modelled code raises.
pub data Error : Type 0 where
  value_error type_error key_error runtime_error : Error
  process_already_exists process_not_found : Error
  definition_already_registered definition_not_found : Error
  runner_already_registered runner_not_found : Error
  scheduler_empty permission_denied checkpoint_not_found file_not_found : Error
  goal_not_found plan_not_found task_not_found goal_not_registered : Error

pub data Outcome {ℓ} (A : Type ℓ) : Type ℓ where
  returned : A → Outcome A
  raised : Error → Outcome A

infixl 5 ◌>>=◌
abbrev pub ◌>>=◌ {ℓ κ} : {A : Type ℓ} {B : Type κ} → Outcome A → (A → Outcome B) → Outcome B
returned a >>= f = f a
raised e >>= f = raised e

pub >>=-eq-returned {ℓ κ} :
    {A : Type ℓ} {B : Type κ} (m : Outcome A) (f : A → Outcome B) {b : B}
    → (m >>= f) ≡ returned b
    → (a : A) × (m ≡ returned a) × (f a ≡ returned b)
>>=-eq-returned (returned a) f h = (a, refl, h)
>>=-eq-returned (raised e) f h = cc

pub returned-injective {ℓ} : {A : Type ℓ} (a b : A) → returned a ≡ returned b → a ≡ b
returned-injective a b h = cc
