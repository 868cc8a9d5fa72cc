-- ===== src/Common/Map.antt =====
-- `std::unordered_map` and `std::unordered_set` where the program only looks keys up: a function.
use whyrun.Common.{
  ℕ, ◌≡◌, ◌↔◌, Bool, true, Option, none, some, ◌==◌, ==_iff, if◌then◌else◌, Bytes, equal, equal_iff,
}
use whyrun.Common.Int.{ℤ, int_eq, int_eq_iff}

pub record Key {ℓ} (K : Type ℓ) : Type ℓ where
  pub same : K → K → Bool
  pub same_iff : (a b : K) → (same a b ≡ true) ↔ (a ≡ b)

instance abbrev pub nat_key : Key ℕ
nat_key = record { same = ◌==◌; same_iff = ==_iff }

instance abbrev pub int_key : Key ℤ
int_key = record { same = int_eq; same_iff = int_eq_iff }

instance abbrev pub bytes_key : Key Bytes
bytes_key = record { same = equal; same_iff = equal_iff }

abbrev pub Map {ℓ κ} : Type ℓ → Type κ → Type (ℓ ⊔ κ)
Map K V = K → Option V

module _ {ℓ κ} {K : Type ℓ} {V : Type κ} where
  abbrev pub empty : Map K V
  empty k = none

module _ {ℓ κ} {K : Type ℓ} {V : Type κ} ⦃e : Key K⦄ where
  -- `insert_or_assign`, and an assignment through `operator[]`
  abbrev pub assign : K → V → Map K V → Map K V
  assign k v m j = if e.same k j then some v else m j

  abbrev pub erase : K → Map K V → Map K V
  erase k m j = if e.same k j then none else m j
