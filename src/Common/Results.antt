-- ===== src/Common/Results.antt =====
-- A C++ function that may throw returns a `Result`. An error stands for the exception that is
-- thrown, one constructor for each `throw` of the source; its message is not kept.
use mathlib.Core.Path.{◌≡◌, refl}
use mathlib.Core.Logic.{◌⊎◌, inl, inr}

pub data Error : Type 0 where
  invalid_id invalid_status field_too_long incomplete_marker : Error
  arm_has_data missing_history_prefix unknown_marker : Error
  armed_before_end start_mismatch end_mismatch : Error
  write_too_large unreadable_marker : Error
  no_conversion conversion_out_of_range : Error
  cannot_open prepare_failed bind_failed step_failed execute_failed : Error
  start_without_id end_without_id already_finalized : Error
  no_temporary_directory path_not_inspected publish_failed : Error
  missing_schema_version unsupported_schema missing_run missing_command no_attribution : Error

pub data Result {ℓ} (A : Type ℓ) : Type ℓ where
  err : Error → Result A
  ok : A → Result A

-- An exception leaves the rest undone.
infixl 5 ◌>>=◌
abbrev pub ◌>>=◌ {ℓ} : {A B : Type ℓ} → Result A → (A → Result B) → Result B
err thrown >>= next = err thrown
ok value >>= next = next value

-- What returns has returned at each of its steps.
pub >>=-eq-ok {ℓ} :
    {A B : Type ℓ} {result : B} (first : Result A) (next : A → Result B)
    → (first >>= next) ≡ ok result
    → (value : A) × (first ≡ ok value) × (next value ≡ ok result)
>>=-eq-ok (err thrown) next returns = cc
>>=-eq-ok (ok value) next returns = (value, refl, returns)

pub Result-cases {ℓ} :
    {A : Type ℓ} (r : Result A) → ((e : Error) × (r ≡ err e)) ⊎ ((a : A) × (r ≡ ok a))
Result-cases (err e) = inl (e, refl)
Result-cases (ok a) = inr (a, refl)
