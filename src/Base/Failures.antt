-- ===== src/Base/Failures.antt =====
-- What a Go function that returns `(value, error)` yields: a value, an error, or a panic.
use mathlib.Core.Bool.{Bool, true, false}
use mathlib.Core.Path.{◌≡◌, refl, ap, ◌∙◌}

-- The errors that the code distinguishes by identity or by origin; the wrapped messages are left out.
pub data Error : Type 0 where
  not_found end_of_iterator storage_failure type_mismatch unsupported_type : Error
  bad_size bad_byte missing_delimiter unknown_identifier bad_object : Error
  invalid_argument undefined_result parse_failure : Error
  -- of the model only: a loop on fuel ran out of it
  out_of_fuel : Error
  invalid_operands bad_pattern already_defined variable_failure storage_corruption end_of_stream :
      Error

pub data Outcome {ℓ} (A : Type ℓ) : Type ℓ where
  ok : A → Outcome A
  err : Error → Outcome A
  panic : Outcome A

abbrev pub is_panic {ℓ} : {A : Type ℓ} → Outcome A → Bool
is_panic panic = true
is_panic (ok a) = false
is_panic (err e) = false

infixl 5 ◌>>◌
infixl 5 ◌>>=◌
-- A call, and what the caller does where it returns without an error.
abbrev pub ◌>>=◌ {ℓ κ} : {B : Type κ} {A : Type ℓ} → Outcome A → (A → Outcome B) → Outcome B
panic >>= next = panic
err e >>= next = err e
ok a >>= next = next a

abbrev pub ◌>>◌ {ℓ κ} : {B : Type κ} {A : Type ℓ} → Outcome A → Outcome B → Outcome B
call >> next = call >>= λ _. next

-- Both calls of a successful chain were successful.
pub >>=-eq-ok {ℓ κ} :
    {B : Type κ} {A : Type ℓ} (call : Outcome A) (next : A → Outcome B) {result : B}
    → (call >>= next) ≡ ok result
    → (a : A) × (call ≡ ok a) × (next a ≡ ok result)
>>=-eq-ok panic next h = cc
>>=-eq-ok (err e) next h = cc
>>=-eq-ok (ok a) next h = (a, refl, h)

pub ok-injective {ℓ} : {A : Type ℓ} {a b : A} → ok a ≡ ok b → a ≡ b
ok-injective same = cc

-- A successful call, and what follows it.
pub after_ok {ℓ κ} :
    {B : Type κ} {A : Type ℓ} {call : Outcome A} (next : A → Outcome B) {a : A} {result : Outcome B}
    → call ≡ ok a
    → next a ≡ result
    → (call >>= next) ≡ result
after_ok next e h = ap (λ r. r >>= next) e ∙ h
