-- ===== src/Common/Number/Laws.antt =====
-- What `to_string` writes, `from_chars` reads back.
use native.Mathlib.Nat.{pow-suc}
use whyrun.Common.{
  ℕ, zero, suc, ◌+◌, ◌/◌, ◌%◌, ◌^◌, ◌≤◌, ◌<◌, ◌≡◌, true, [], ◌∷◌, arith, Bytes, All, length,
}
use whyrun.Common.Int.{pos}
use whyrun.Common.Number.{
  digits, to_string, is_digit, scan, success, from_chars_unsigned, starts_with_digit,
}

scan-digits : (f n : ℕ) (out : Bytes) → n < f → scan (digits f n out) 0 ≡ scan out n
unfolding digits scan
scan-digits zero n out h = absurd (omega arith)
scan-digits (suc f) n out h = ground (arith, scan-digits f (n / 10) ((b'0' + n % 10) ∷ out))

-- Reading a printed number gives the number and leaves nothing.
pub scan-to_string : (n : ℕ) → scan (to_string n) 0 ≡ (n, [])
unfolding to_string scan
scan-to_string n = ground (arith, scan-digits (suc n) n [])

abbrev pub IsDigit : ℕ → Type 0
IsDigit c = is_digit c ≡ true

All-digits : (f n : ℕ) (out : Bytes) → All IsDigit out → All IsDigit (digits f n out)
unfolding digits
All-digits zero n out h = h
All-digits (suc f) n out h = ground (arith, All-digits f (n / 10) ((b'0' + n % 10) ∷ out))

pub All-to_string : (n : ℕ) → All IsDigit (to_string n)
unfolding to_string
All-to_string n = ground (arith, All-digits (suc n) n [] tt)

digits-starts :
    (f n c : ℕ) (out : Bytes) → IsDigit c → starts_with_digit (digits f n (c ∷ out)) ≡ true
unfolding digits
digits-starts zero n c out h = h
digits-starts (suc f) n c out h = ground (arith, digits-starts f (n / 10) (b'0' + n % 10) (c ∷ out))

pub to_string-starts : (n : ℕ) → starts_with_digit (to_string n) ≡ true
unfolding to_string digits
to_string-starts n = ground (arith, digits-starts n (n / 10) (b'0' + n % 10) [])

length-digits : (k f n : ℕ) (out : Bytes) → n < 10 ^ k → length (digits f n out) ≤ k + length out
unfolding digits
length-digits k zero n out h = omega arith
length-digits zero (suc f) n out h = ground arith
length-digits (suc k) (suc f) n out h =
    ground (arith, pow-suc 10 k, length-digits k f (n / 10) ((b'0' + n % 10) ∷ out))

-- A 64-bit number has at most twenty digits.
pub length-to_string : (n : ℕ) → n < 2 ^ 64 → length (to_string n) ≤ 20
unfolding to_string
length-to_string n h = ground (arith, length-digits 20 (suc n) n [])

pub from_chars_unsigned-to_string :
    (limit n : ℕ)
    → n ≤ limit
    → from_chars_unsigned limit (to_string n) ≡ record { value = pos n; ec = success; rest = [] }
unfolding from_chars_unsigned
from_chars_unsigned-to_string limit n h = ground (arith, to_string-starts n, scan-to_string n)
