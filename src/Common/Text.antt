-- ===== src/Common/Text.antt =====
-- Strings of bytes. A `std::string` holds any bytes, the byte 0 included.
use Prim.Native.Char.{code}
use Prim.Native.Nat.{ℕ}
use Prim.Native.String.{String}
use mathlib.Core.Bool.{Bool, true, false, ◌&&◌}
use mathlib.Core.List.{List, [], ◌∷◌, ◌++◌}
use mathlib.Core.Logic.{◌↔◌, ◌≢◌}
use mathlib.Core.Path.{◌≡◌, ap}
use native.Mathlib.Omega.{arith}
use whyrun.Common.Lists.{All}
use whyrun.Common.Tests.{◌==◌, if◌then◌else◌}

abbrev pub Bytes : Type 0
Bytes = List ℕ

-- The bytes of an ASCII literal.
abbrev pub codes : String → Bytes
codes String.[] = []
codes (String.◌∷◌ c s) = code c ∷ codes s

-- `operator==` of `std::string`.
unfoldable pub equal : Bytes → Bytes → Bool
equal [] [] = true
equal (x ∷ xs) (y ∷ ys) = x == y && equal xs ys
equal _ _ = false

pub equal_iff : (left right : Bytes) → (equal left right ≡ true) ↔ (left ≡ right)
unfolding equal
equal_iff [] [] = ground arith
equal_iff [] (d ∷ right) = ground arith
equal_iff (c ∷ left) [] = ground arith
equal_iff (c ∷ left) (d ∷ right) = ground (arith, equal_iff left right)

-- `empty`
abbrev pub is_empty : Bytes → Bool
is_empty [] = true
is_empty (c ∷ s) = false

-- `back() == b`, of a string that may be empty
unfoldable pub ends_in : ℕ → Bytes → Bool
ends_in b [] = false
ends_in b (c ∷ []) = c == b
ends_in b (c ∷ d ∷ s) = ends_in b (d ∷ s)

-- `if (!s.empty() && s.back() == b) s.pop_back()`
unfoldable pub pop_back_if : ℕ → Bytes → Bytes
pop_back_if b [] = []
pop_back_if b (c ∷ []) = if c == b then [] else c ∷ []
pop_back_if b (c ∷ d ∷ s) = c ∷ pop_back_if b (d ∷ s)

pub pop_back_if-append : (b : ℕ) (s : Bytes) → pop_back_if b (s ++ b ∷ []) ≡ s
unfolding pop_back_if
pop_back_if-append b [] = ground arith
pop_back_if-append b (c ∷ []) = ground arith
pop_back_if-append b (c ∷ d ∷ s) = ap (◌∷◌ c) (pop_back_if-append b (d ∷ s))

-- `s` holds no byte `b`.
abbrev pub Lacks : ℕ → Bytes → Type 0
Lacks b = All (λ c. c ≢ b)
