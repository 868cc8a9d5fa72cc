-- ===== src/Store/Quoting.antt =====
-- A shell reads the text of a command as the arguments that it was made of.
use whyrun.Common.{
  Bool, false, ℕ, ◌==◌, ◌≡◌, refl, ap, ◌∙◌, ◌&&◌, not, true, List, [], ◌∷◌, ◌++◌, append-nil,
  append_assoc, some, Bytes, is_empty, arith, inl, inr, Bool-cases,
}
use whyrun.Store.{
  is_plain, space, backslash, quote, all_plain, quoted_text, shell_quote, format_rest,
  format_command,
}
use whyrun.Store.ShellReader.{
  is_special, Mode, between, in_word, in_quotes, Reader, advance, read, read_words,
}

abbrev reader : Mode → Bytes → List Bytes → Reader
reader mode word words = record { mode = mode; word = word; words = words }

and_true : (a b : Bool) → (a && b) ≡ true → (a ≡ true) × (b ≡ true)
and_true true b h = (refl, h)
and_true false b h = cc

-- A byte that is left unquoted has no meaning outside quotes.
record IsOrdinary (c : ℕ) : Type 0 where
  no_space : (c == space) ≡ false
  no_quote : (c == quote) ≡ false
  no_backslash : (c == backslash) ≡ false
  no_special : is_special c ≡ false

is_plain-IsOrdinary : (c : ℕ) → is_plain c ≡ true → IsOrdinary c
is_plain-IsOrdinary c h = record {
  no_space = ground arith;
  no_quote = ground arith;
  no_backslash = ground arith;
  no_special = unfold is_special in ground arith;
}

module _ (c : ℕ) (o : IsOrdinary c) (word : Bytes) (words : List Bytes) where
  advance-ordinary : advance (reader in_word word words) c ≡ reader in_word (word ++ c ∷ []) words
  unfolding advance
  advance-ordinary = rw (o.no_space, o.no_quote, o.no_backslash, o.no_special) refl

  advance-first : advance (reader between word words) c ≡ reader in_word (word ++ c ∷ []) words
  unfolding advance
  advance-first = rw (o.no_space, o.no_quote, o.no_backslash, o.no_special) refl

read-plain :
    (s rest word : Bytes) (words : List Bytes)
    → all_plain s ≡ true
    → read (reader in_word word words) (s ++ rest) ≡ read (reader in_word (word ++ s) words) rest
unfolding read all_plain
read-plain [] rest word words h = rw append-nil refl
read-plain (c ∷ s) rest word words h =
    let (plain, others) = and_true (is_plain c) (all_plain s) h in
    let o = is_plain-IsOrdinary c plain in
    ap (λ r. read r (s ++ rest)) (advance-ordinary c o word words)
    ∙ read-plain s rest (word ++ c ∷ []) words others
    ∙ rw (append_assoc word (c ∷ []) s) refl

read-quoted :
    (s rest word : Bytes) (words : List Bytes)
    → read (reader in_quotes word words) (quoted_text s ++ rest)
      ≡ read (reader in_quotes (word ++ s) words) rest
unfolding read advance quoted_text
read-quoted [] rest word words = rw append-nil refl
read-quoted (c ∷ s) rest word words =
    ground (arith, read-quoted s rest (word ++ c ∷ []) words, append_assoc word (c ∷ []) s)

-- A plain word that is not empty, from its first byte on.
read-plain_word :
    (s rest : Bytes) (words : List Bytes)
    → (not (is_empty s) && all_plain s) ≡ true
    → read (reader between [] words) (s ++ rest) ≡ read (reader in_word s words) rest
unfolding read all_plain
read-plain_word [] rest words h = absurd (ground arith)
read-plain_word (c ∷ s) rest words h =
    let (plain, others) = and_true (is_plain c) (all_plain s) h in
    let o = is_plain-IsOrdinary c plain in
    ap (λ r. read r (s ++ rest)) (advance-first c o [] words)
    ∙ read-plain s rest (c ∷ []) words others

read-quote :
    (s rest : Bytes) (words : List Bytes)
    → read (reader between [] words) ((quote ∷ (quoted_text s ++ quote ∷ [])) ++ rest)
      ≡ read (reader in_word s words) rest
unfolding read advance
read-quote s rest words =
    rw (append_assoc (quoted_text s) (quote ∷ []) rest, read-quoted s (quote ∷ rest) [] words) refl

read-shell_quote :
    (s rest : Bytes) (words : List Bytes)
    → read (reader between [] words) (shell_quote s ++ rest) ≡ read (reader in_word s words) rest
unfolding shell_quote
read-shell_quote s rest words = elim (Bool-cases (not (is_empty s) && all_plain s)) [
  | inl plain ↦ rw plain (read-plain_word s rest words plain)
  | inr other ↦ rw other (read-quote s rest words)
]

read-format_rest :
    (arguments : List Bytes) (word : Bytes) (words : List Bytes)
    → read (reader in_word word words) (format_rest arguments) ≡ some (words ++ word ∷ arguments)
unfolding read advance format_rest
read-format_rest [] word words = refl
read-format_rest (a ∷ arguments) word words =
    read-shell_quote a (format_rest arguments) (words ++ word ∷ [])
    ∙ read-format_rest arguments a (words ++ word ∷ [])
    ∙ ap some (append_assoc words (word ∷ []) (a ∷ arguments))

-- A shell that cuts the text that is kept for a command into words gets the arguments of the command
-- back, one word for each, whatever bytes they hold, blanks, quotes, line ends and empty arguments
-- included: no byte stands outside quotes that has a meaning there.
pub read_words-format_command :
    (command : List Bytes) → read_words (format_command command) ≡ some command
unfolding read_words format_command
read_words-format_command [] = unfold read in refl
read_words-format_command (a ∷ arguments) =
    read-shell_quote a (format_rest arguments) [] ∙ read-format_rest arguments a []
