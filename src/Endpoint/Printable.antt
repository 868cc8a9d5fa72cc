-- ===== src/Endpoint/Printable.antt =====
-- What is recorded of the name of a local socket can be printed.
use whyrun.Common.Number.{hex_digit}
use whyrun.Common.{
  ℕ, ◌<◌, ◌≡◌, Bool, true, false, [], ◌∷◌, ◌++◌, Bytes, codes, ◌==◌, All, All-append, arith,
  if◌then◌else◌, inl, inr, Bool-cases,
}
use whyrun.Endpoint.{is_print, render_byte, render_bytes, until_zero, render_unix_name}

-- Only printable ASCII characters.
abbrev pub IsPrintable : Bytes → Type 0
IsPrintable = All (λ c. is_print c ≡ true)

-- Each item is a byte.
abbrev pub IsBytes : Bytes → Type 0
IsBytes = All (λ c. c < 256)

render_byte-IsPrintable : (c : ℕ) → c < 256 → IsPrintable (render_byte c)
unfolding render_byte hex_digit
render_byte-IsPrintable c h = ground arith

render_bytes-IsPrintable : (s : Bytes) → IsBytes s → IsPrintable (render_bytes s)
unfolding render_bytes
render_bytes-IsPrintable [] h = tt
render_bytes-IsPrintable (c ∷ s) (here, h) =
    All-append (λ c. is_print c ≡ true) (render_byte c) (render_bytes s)
      (render_byte-IsPrintable c here) (render_bytes-IsPrintable s h)

until_zero-IsBytes : (s : Bytes) → IsBytes s → IsBytes (until_zero s)
unfolding until_zero
until_zero-IsBytes [] h = tt
until_zero-IsBytes (c ∷ s) (here, h) = elim (Bool-cases (c == 0)) [
  | inl stop ↦ rw stop tt
  | inr more ↦ rw more (here, until_zero-IsBytes s h)
]

either-IsPrintable :
    (b : Bool) (s t : Bytes) → IsPrintable s → IsPrintable t → IsPrintable (if b then s else t)
either-IsPrintable true s t hs ht = hs
either-IsPrintable false s t hs ht = ht

-- Whatever bytes a process puts into the address of a local socket, the name that is recorded for it
-- consists of printable ASCII characters.
pub render_unix_name-IsPrintable :
    (path : Bytes) → IsBytes path → IsPrintable (render_unix_name path)
unfolding render_unix_name
render_unix_name-IsPrintable [] h = ground arith
render_unix_name-IsPrintable (c ∷ s) (here, h) =
    either-IsPrintable (c == 0) (codes "unix:@" ++ render_bytes s)
      (codes "unix:" ++ render_bytes (until_zero (c ∷ s)))
      (All-append (λ c. is_print c ≡ true) (codes "unix:@") (render_bytes s) (ground arith)
        (render_bytes-IsPrintable s h))
      (All-append (λ c. is_print c ≡ true) (codes "unix:") (render_bytes (until_zero (c ∷ s)))
        (ground arith)
        (render_bytes-IsPrintable (until_zero (c ∷ s)) (until_zero-IsBytes (c ∷ s) (here, h))))
