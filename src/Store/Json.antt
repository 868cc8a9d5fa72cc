-- ===== src/Store/Json.antt =====
-- `json_escape` of src/sqlite_store.cpp, and that a JSON reader gets the text back.
use whyrun.Common.Number.{hex_digit}
use whyrun.Common.{
  ℕ, ◌+◌, ◌-◌, ◌*◌, ◌/◌, ◌%◌, ◌≡◌, refl, ◌∙◌, ◌&&◌, [], ◌∷◌, ◌++◌, append-nil, append_assoc, Option,
  none, some, Bytes, ◌==◌, leb, ltb, if◌then◌else◌, arith, inl, inr, Bool-cases,
}
use whyrun.Store.{backslash}

abbrev pub double_quote : ℕ
double_quote = 34

abbrev escape_with : ℕ → Bytes
escape_with c = backslash ∷ c ∷ []

-- `\u` and four hexadecimal digits, of a character below 0x20.
abbrev unicode_escape : ℕ → Bytes
unicode_escape c = backslash ∷ b'u' ∷ b'0' ∷ b'0' ∷ hex_digit (c / 16) ∷ hex_digit (c % 16) ∷ []

unfoldable pub json_char : ℕ → Bytes
json_char c =
    if c == double_quote
    then escape_with double_quote
    else if c == backslash
    then escape_with backslash
    else if c == 8
    then escape_with b'b'
    else if c == 12
    then escape_with b'f'
    else if c == 10
    then escape_with b'n'
    else if c == 13
    then escape_with b'r'
    else if c == 9
    then escape_with b't'
    else if ltb c 32
    then unicode_escape c
    else c ∷ []

unfoldable pub json_escape : Bytes → Bytes
unfolding json_char
json_escape [] = []
json_escape (c ∷ s) = json_char c ++ json_escape s

-- The reader of a JSON string, behind its opening quote (RFC 8259, section 7).
pub data Mode : Type 0 where
  text escape : Mode
  -- the digits that are missing, and the number so far
  unicode : ℕ → ℕ → Mode

pub data Step : Type 0 where
  go : Mode → Bytes → Step
  closed malformed : Step

abbrev hex_value : ℕ → Option ℕ
hex_value c =
    if leb b'0' c && leb c b'9'
    then some (c - b'0')
    else if leb b'a' c && leb c b'f'
    then some (10 + (c - b'a'))
    else if leb b'A' c && leb c b'F'
    then some (10 + (c - b'A'))
    else none

abbrev unescaped : ℕ → Option ℕ
unescaped c =
    if c == b'b'
    then some 8
    else if c == b'f'
    then some 12
    else if c == b'n'
    then some 10
    else if c == b'r'
    then some 13
    else if c == b't'
    then some 9
    else if c == double_quote
    then some double_quote
    else if c == backslash
    then some backslash
    else if c == b'/'
    then some b'/'
    else none

abbrev appended : Bytes → Option ℕ → Step
appended acc none = malformed
appended acc (some c) = go text (acc ++ c ∷ [])

abbrev digit_read : ℕ → ℕ → Bytes → Option ℕ → Step
digit_read missing value acc none = malformed
digit_read missing value acc (some d) =
    if missing == 1
    then go text (acc ++ (value * 16 + d) ∷ [])
    else go (unicode (missing - 1) (value * 16 + d)) acc

unfoldable pub read_byte : Mode → Bytes → ℕ → Step
read_byte text acc c =
    if c == double_quote
    then closed
    else if c == backslash
    then go escape acc
    else if ltb c 32
    then malformed
    else go text (acc ++ c ∷ [])
read_byte escape acc c = if c == b'u' then go (unicode 4 0) acc else appended acc (unescaped c)
read_byte (unicode missing value) acc c = digit_read missing value acc (hex_value c)

-- The text of the string and what follows its closing quote.
unfoldable pub read_text : Mode → Bytes → Bytes → Option (Bytes × Bytes)
unfolding read_byte
read_text mode acc [] = none
read_text mode acc (c ∷ s) = elim (read_byte mode acc c) [
  | go next more ↦ read_text next more s
  | closed ↦ some (acc, s)
  | malformed ↦ none
]

read_text-json_char :
    (c : ℕ) (acc rest : Bytes)
    → read_text text acc (json_char c ++ rest) ≡ read_text text (acc ++ c ∷ []) rest
unfolding read_text json_char hex_digit
read_text-json_char c acc rest = elim (Bool-cases (ltb c 32)) [
  | inl control ↦ ground arith
  | inr plain ↦ ground arith
]

pub read_text-json_escape :
    (s acc rest : Bytes)
    → read_text text acc (json_escape s ++ double_quote ∷ rest) ≡ some (acc ++ s, rest)
unfolding json_escape
read_text-json_escape [] acc rest = unfold read_text in rw append-nil refl
read_text-json_escape (c ∷ s) acc rest =
    rw (append_assoc (json_char c) (json_escape s) (double_quote ∷ rest)) (
      read_text-json_char c acc (json_escape s ++ double_quote ∷ rest)
      ∙ read_text-json_escape s (acc ++ c ∷ []) rest
      ∙ rw (append_assoc acc (c ∷ []) s) refl)
