-- ===== src/Store/ShellReader.antt =====
-- How a POSIX shell cuts a line into words where the line has no more than literal text in it: blanks
-- between the words, single quotes, and backslashes. A line with another character that has a meaning
-- outside single quotes has no reading. Reserved words and aliases are not looked at. Nothing in this
-- file stands in src/; the quoting is judged by it.
use whyrun.Common.{
  ℕ, List, [], ◌∷◌, ◌++◌, Option, none, some, Bytes, ◌==◌, ◌&&◌, ◌||◌, leb, Bool, if◌then◌else◌,
}
use whyrun.Store.{quote, backslash, space}

pub data Mode : Type 0 where
  between in_word in_quotes behind_backslash beyond : Mode

pub record Reader : Type 0 where
  pub mode : Mode
  pub word : Bytes
  pub words : List Bytes

abbrev take_byte : Reader → ℕ → Reader
take_byte r c = record r { mode = in_word; word = r.word ++ c ∷ [] }

-- The controls, tab and line end among them, ! " # $ % & ( ) * ; < = > ? [ ] ^ ` and every byte from { on.
unfoldable pub is_special : ℕ → Bool
is_special c =
    leb c 31
    || (leb 33 c && leb c 38)
    || (leb 40 c && leb c 42)
    || (leb 59 c && leb c 63)
    || c == b'['
    || (leb 93 c && leb c 94)
    || c == 96
    || leb 123 c

-- A byte outside quotes that ends no word.
abbrev bare : Reader → ℕ → Reader
bare r c =
    if c == quote
    then record r { mode = in_quotes }
    else if c == backslash
    then record r { mode = behind_backslash }
    else if is_special c
    then record r { mode = beyond }
    else take_byte r c

abbrev advance_in : Mode → Reader → ℕ → Reader
advance_in between r c = if c == space then r else bare r c
advance_in in_word r c =
    if c == space
    then record { mode = between; word = []; words = r.words ++ r.word ∷ [] }
    else bare r c
advance_in in_quotes r c =
    if c == quote then record r { mode = in_word } else record r { word = r.word ++ c ∷ [] }
advance_in behind_backslash r c = if c == 10 then record r { mode = beyond } else take_byte r c
advance_in beyond r c = r

unfoldable pub advance : Reader → ℕ → Reader
advance r c = advance_in r.mode r c

abbrev finished : Mode → Reader → Option (List Bytes)
finished between r = some r.words
finished in_word r = some (r.words ++ r.word ∷ [])
finished _ r = none

unfoldable pub read : Reader → Bytes → Option (List Bytes)
unfolding advance
read r [] = finished r.mode r
read r (c ∷ s) = read (advance r c) s

-- The words of a line, or `none` if a quote is left open or the line has more in it than words.
unfoldable pub read_words : Bytes → Option (List Bytes)
unfolding read
read_words line = read (record { mode = between; word = []; words = [] }) line
