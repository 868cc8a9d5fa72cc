-- ===== src/Common/Number.antt =====
-- `std::to_string` and `std::from_chars` on integers.
pub mod Laws
use whyrun.Common.{
  ℕ, zero, suc, ◌+◌, ◌-◌, ◌*◌, ◌/◌, ◌%◌, ◌&&◌, ◌||◌, ◌^◌, Bool, Result, err, ok, no_conversion,
  conversion_out_of_range, false, [], ◌∷◌, leb, ltb, ◌==◌, if◌then◌else◌, Bytes,
}
use whyrun.Common.Int.{ℤ, pos, negsuc, neg}

-- The digits of `n` in front of `out`. Each round divides by ten, so fuel above `n` is enough.
unfoldable pub digits : ℕ → ℕ → Bytes → Bytes
digits zero n out = out
digits (suc f) n out =
    let rest = digits f (n / 10) ((b'0' + n % 10) ∷ out) in if n == 0 then out else rest

-- `std::to_string` of an unsigned number
unfoldable pub to_string : ℕ → Bytes
unfolding digits
to_string n = if n == 0 then b'0' ∷ [] else digits (suc n) n []

-- `std::to_string` of a signed number
unfoldable pub int_to_string : ℤ → Bytes
unfolding to_string
int_to_string (pos n) = to_string n
int_to_string (negsuc n) = b'-' ∷ to_string (suc n)

-- A hexadecimal digit, as streams print it.
unfoldable pub hex_digit : ℕ → ℕ
hex_digit d = if ltb d 10 then b'0' + d else b'a' + (d - 10)

unfoldable pub hex_digits : ℕ → ℕ → Bytes → Bytes
unfolding hex_digit
hex_digits zero n out = out
hex_digits (suc f) n out =
    let rest = hex_digits f (n / 16) (hex_digit (n % 16) ∷ out) in if n == 0 then out else rest

-- `std::hex`, with no width
unfoldable pub to_hex : ℕ → Bytes
unfolding hex_digits
to_hex n = if n == 0 then b'0' ∷ [] else hex_digits (suc n) n []

abbrev pub is_digit : ℕ → Bool
is_digit c = leb b'0' c && leb c b'9'

-- How `std::from_chars` ends.
pub data Errc : Type 0 where
  success invalid_argument result_out_of_range : Errc

-- The value, how the call ended, and the text from `ptr` on. A failed call leaves the value as the
-- caller initialised it, which is 0 throughout the program.
pub record Parsed : Type 0 where
  pub value : ℤ
  pub ec : Errc
  pub rest : Bytes

-- The longest run of digits: the number that they spell behind `n`, and what follows them.
unfoldable pub scan : Bytes → ℕ → ℕ × Bytes
scan [] n = (n, [])
scan (c ∷ s) n = if is_digit c then scan s (n * 10 + (c - b'0')) else (n, c ∷ s)

abbrev pub starts_with_digit : Bytes → Bool
starts_with_digit [] = false
starts_with_digit (c ∷ s) = is_digit c

abbrev ranged : (ℕ → ℤ) → ℕ → ℕ × Bytes → Parsed
ranged sign limit (n, rest) =
    if leb n limit
    then record { value = sign n; ec = success; rest = rest }
    else record { value = pos 0; ec = result_out_of_range; rest = rest }

abbrev no_number : Bytes → Parsed
no_number text = record { value = pos 0; ec = invalid_argument; rest = text }

-- Into an unsigned type whose greatest value is `limit`: no sign is accepted.
unfoldable pub from_chars_unsigned : ℕ → Bytes → Parsed
unfolding scan
from_chars_unsigned limit text =
    if starts_with_digit text then ranged pos limit (scan text 0) else no_number text

-- Into a signed type whose values go from -(limit + 1) to limit: a minus sign is accepted.
unfoldable pub from_chars_signed : ℕ → Bytes → Parsed
unfolding scan
from_chars_signed limit [] = no_number []
from_chars_signed limit (c ∷ s) =
    if c == b'-'
    then (if starts_with_digit s then ranged neg (suc limit) (scan s 0) else no_number (c ∷ s))
    else if is_digit c
    then ranged pos limit (scan (c ∷ s) 0)
    else no_number (c ∷ s)

-- `std::isspace`, in the C locale
abbrev pub is_space : ℕ → Bool
is_space c = c == 32 || leb 9 c && leb c 13

unfoldable pub skip_spaces : Bytes → Bytes
skip_spaces [] = []
skip_spaces (c ∷ s) = if is_space c then skip_spaces s else c ∷ s

abbrev within : (ℕ → ℤ) → ℕ → ℕ × Bytes → Result ℤ
within sign limit (n, rest) = if leb n limit then ok (sign n) else err conversion_out_of_range

abbrev converted : (ℕ → ℤ) → ℕ → Bytes → Result ℤ
converted sign limit s =
    if starts_with_digit s then within sign limit (scan s 0) else err no_conversion

unfoldable pub signed_number : Bytes → Result ℤ
unfolding scan
signed_number [] = err no_conversion
signed_number (c ∷ s) =
    if c == b'-'
    then converted neg (2 ^ 63) s
    else if c == b'+'
    then converted pos (2 ^ 63 - 1) s
    else converted pos (2 ^ 63 - 1) (c ∷ s)

-- `std::stoll`
unfoldable pub stoll : Bytes → Result ℤ
unfolding skip_spaces signed_number
stoll text = signed_number (skip_spaces text)
