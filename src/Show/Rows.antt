-- ===== src/Show/Rows.antt =====
-- What the loops over a query's rows print.
use whyrun.Common.{
  ◌≡◌, refl, ◌||◌, Bool, true, false, List, [], ◌∷◌, ◌++◌, append-nil, some, Bytes, ok,
  if◌then◌else◌,
}
use whyrun.Reader.{Reading, Cursor, done, row, each_row}
use whyrun.Show.{line_step, list_rows, newline}

-- The answers of a query that does not fail.
abbrev pub answers : {Row : Type 0} → List Row → Cursor Row
answers [] = done
answers (r ∷ rows) = row r (answers rows)

abbrev pub concat_map : {Row : Type 0} → (Row → Bytes) → List Row → Bytes
concat_map line [] = []
concat_map line (r ∷ rows) = line r ++ concat_map line rows

abbrev pub some_row : {Row : Type 0} → List Row → Bool
some_row [] = false
some_row (r ∷ rows) = true

or_true : (b : Bool) → (b || true) ≡ true
or_true true = refl
or_true false = refl

module _ (lib : Reading) (line : lib.Row → Bytes) where
  each_row-answers :
      (rows : List lib.Row) (any : Bool)
      → each_row lib (line_step lib line) (answers rows) any
        ≡ (concat_map line rows, ok (some_row rows || any))
  unfolding each_row
  each_row-answers [] any = refl
  each_row-answers (r ∷ rows) any = rw (each_row-answers rows true) (simp (append-nil, or_true))

  -- A line for each row in order, or the text for none, and an empty line.
  pub list_rows-answers :
      (database : lib.Database) (sql empty : Bytes) (rows : List lib.Row)
      → lib.query database sql ≡ some (answers rows)
      → list_rows lib database sql line empty
        ≡ ((if some_row rows then concat_map line rows else empty) ++ newline, ok tt)
  unfolding list_rows
  list_rows-answers database sql empty [] answered = rw answered refl
  list_rows-answers database sql empty (r ∷ rows) answered =
      rw (answered, each_row-answers rows true) (simp (append-nil, or_true))
