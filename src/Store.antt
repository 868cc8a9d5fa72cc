-- ===== src/Store.antt =====
-- The texts that src/sqlite_store.cpp writes into a capsule.
pub mod Tables
pub mod Sqlite
pub mod Writer
pub mod Paths
pub mod Activity
pub mod ShellReader
pub mod Quoting
pub mod Json
pub mod Metadata
use whyrun.Common.{
  ℕ, ◌&&◌, ◌||◌, not, Bool, true, false, List, [], ◌∷◌, ◌++◌, Bytes, codes, ◌==◌, leb, is_empty,
  if◌then◌else◌,
}

abbrev pub is_alnum : ℕ → Bool
is_alnum c = leb b'0' c && leb c b'9' || leb b'A' c && leb c b'Z' || leb b'a' c && leb c b'z'

-- A character that is never quoted.
abbrev pub is_plain : ℕ → Bool
is_plain c = is_alnum c || c == b'/' || c == b'_' || c == b'-' || c == b'.' || c == b':'

unfoldable pub all_plain : Bytes → Bool
all_plain [] = true
all_plain (c ∷ s) = is_plain c && all_plain s

abbrev pub quote : ℕ
quote = 39

abbrev pub backslash : ℕ
backslash = 92

abbrev pub space : ℕ
space = 32

unfoldable pub quoted_text : Bytes → Bytes
quoted_text [] = []
quoted_text (c ∷ s) =
    let rest = quoted_text s in
    if c == quote then quote ∷ backslash ∷ quote ∷ quote ∷ rest else c ∷ rest

unfoldable pub shell_quote : Bytes → Bytes
unfolding quoted_text all_plain
shell_quote argument =
    if not (is_empty argument) && all_plain argument
    then argument
    else quote ∷ (quoted_text argument ++ quote ∷ [])

unfoldable pub format_rest : List Bytes → Bytes
unfolding shell_quote
format_rest [] = []
format_rest (argument ∷ rest) = space ∷ (shell_quote argument ++ format_rest rest)

unfoldable pub format_command : List Bytes → Bytes
unfolding shell_quote format_rest
format_command [] = []
format_command (argument ∷ rest) = shell_quote argument ++ format_rest rest
