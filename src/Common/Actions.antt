-- ===== src/Common/Actions.antt =====
-- Methods that change an object and may throw. What was done before a `throw` stays done, so the state
-- comes back beside the error.
use mathlib.Core.Path.{◌≡◌, refl}
use whyrun.Common.Results.{Error, Result, err, ok}

abbrev pub Action {ℓ} : Type ℓ → Type ℓ → Type ℓ
Action S A = S → Result A × S

module _ {ℓ} {S A : Type ℓ} where
  abbrev pub pure : A → Action S A
  pure a s = (ok a, s)

  abbrev pub throw : Error → Action S A
  throw e s = (err e, s)

  -- A step that leaves the object alone.
  abbrev pub lift : Result A → Action S A
  lift r s = (r, s)

module _ {ℓ} {S A B : Type ℓ} where
  abbrev pub go_on : Result A → (A → Action S B) → Action S B
  go_on (err e) next s = (err e, s)
  go_on (ok a) next s = next a s

  infixl 5 ◌>>=◌
  infixr 5 ◌>>◌
  abbrev pub ◌>>=◌ : Action S A → (A → Action S B) → Action S B
  ◌>>=◌ m next s = let (r, s') = m s in go_on r next s'

  abbrev pub ◌>>◌ : Action S A → Action S B → Action S B
  m >> next = m >>= λ _. next

module _ {ℓ} {S A B : Type ℓ} (next : A → Action S B) {t : S} {b : B} where
  taken_apart :
      (first : Result A × S)
      → go_on first.0 next first.1 ≡ (ok b, t)
      → (a : A) × (u : S) × (first ≡ (ok a, u)) × (next a u ≡ (ok b, t))
  taken_apart (err e, s) returns = cc
  taken_apart (ok a, s) returns = (a, s, refl, returns)

-- What returns has returned at each of its steps.
pub >>=-eq-ok {ℓ} :
    {S A B : Type ℓ} (m : Action S A) (next : A → Action S B) {s t : S} {b : B}
    → (m >>= next) s ≡ (ok b, t)
    → (a : A) × (u : S) × (m s ≡ (ok a, u)) × (next a u ≡ (ok b, t))
>>=-eq-ok m next {s} returns = taken_apart next (m s) returns
