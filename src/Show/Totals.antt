-- ===== src/Show/Totals.antt =====
-- What `show` prints of the files is what the events of the capsule add up to.
use whyrun.Common.{
  ap, ◌↔◌, ◌<◌, ltb, equal, equal_iff, Bool-cases, Option-cases, inl, inr, ◌≡◌, refl, sym, ◌∙◌,
  Bool, true, false, List, [], ◌∷◌, ◌++◌, map, none, some, Bytes, codes, ok, All, if◌then◌else◌,
  arith,
}
use whyrun.Store.Paths.Fresh.{holds}
use whyrun.Common.Int.{negsuc, ℤ, pos}
use whyrun.Common.Map.{bytes_key}
use whyrun.Common.Number.{to_string}
use whyrun.Endpoint.{until_zero}
use whyrun.Reader.{Reading}
use whyrun.Show.Rows.{answers, concat_map, some_row, list_rows-answers}
use whyrun.Show.{file_query, file_line, list_rows, show_files, newline}
use whyrun.Store.Activity.Files.{FilesAgree, file_total, row_of}
use whyrun.Store.Activity.{calls, bytes}
use whyrun.Store.Tables.{EventRow, FileRow, Tables, find_row}

abbrev pub kind : Bool → Bytes
kind read = if read then codes "file_read" else codes "file_write"

-- The columns of `file_activity` beside the path, by the names that the schema gives them.
pub data Column : Type 0 where
  read_calls write_calls bytes_read bytes_written : Column

abbrev pub column_name : Column → Bytes
column_name read_calls = codes "read_calls"
column_name write_calls = codes "write_calls"
column_name bytes_read = codes "bytes_read"
column_name bytes_written = codes "bytes_written"

abbrev pub value : Column → FileRow → ℤ
value read_calls f = f.read_calls
value write_calls f = f.write_calls
value bytes_read f = f.bytes_read
value bytes_written f = f.bytes_written

abbrev named : List Column → Bytes
named [] = []
named (c ∷ columns) = codes ", " ++ (column_name c ++ named columns)

-- The query for the path and columns, of the rows where a column is above 0.
abbrev pub select_text : List Column → Column → Bytes
select_text columns filter =
    codes "SELECT path"
    ++ (named columns
        ++ (codes " FROM file_activity WHERE " ++ (column_name filter ++ codes ">0 ORDER BY path")))

-- What is to be shown of a mode: the calls and the bytes, where there are calls.
abbrev pub calls_of : Bool → Column
calls_of read = if read then read_calls else write_calls

abbrev pub columns_of : Bool → List Column
columns_of true = read_calls ∷ bytes_read ∷ []
columns_of false = write_calls ∷ bytes_written ∷ []

abbrev pub above_zero : ℤ → Bool
above_zero (pos n) = ltb 0 n
above_zero (negsuc n) = false

abbrev pub path_of : FileRow → Bytes
path_of f = f.path

-- What SQLite gives for such a query: in what order ever, the rows of the table where the column of the
-- condition is above 0, each with the path and then the columns in the order in which they are named.
pub record Selects (lib : Reading) (database : lib.Database) (t : Tables) : Type 0 where
  pub row_for : List Column → FileRow → lib.Row
  pub chosen : Column → List FileRow
  pub stored :
      (filter : Column)
      → All
          (λ (f : FileRow).
            find_row (λ (r : FileRow). r.path) f.path t.file_activity ≡ some f
            × (above_zero (value filter f) ≡ true))
          (chosen filter)
  pub complete :
      (filter : Column) (f : FileRow)
      → find_row (λ (r : FileRow). r.path) f.path t.file_activity ≡ some f
      → above_zero (value filter f) ≡ true
      → holds f.path (map path_of (chosen filter)) ≡ true
  pub answered :
      (read : Bool)
      → lib.query database (select_text (columns_of read) (calls_of read))
        ≡ some (answers (map (row_for (columns_of read)) (chosen (calls_of read))))
  pub path_text :
      (columns : List Column) (f : FileRow) → lib.column_text (row_for columns f) 0 ≡ some f.path
  pub first_number :
      (c : Column) (columns : List Column) (f : FileRow)
      → lib.column_int64 (row_for (c ∷ columns) f) 1 ≡ value c f
  pub second_number :
      (b c : Column) (columns : List Column) (f : FileRow)
      → lib.column_int64 (row_for (b ∷ c ∷ columns) f) 2 ≡ value c f

-- The line of a path: how often the events read or write it, and how many bytes.
abbrev pub path_line : Bool → List EventRow → Bytes → Bytes
path_line read events path =
    codes "    "
    ++ until_zero path
    ++ codes " ("
    ++ to_string (calls (kind read) path events)
    ++ codes " calls, "
    ++ to_string (bytes (kind read) path events)
    ++ codes " bytes)"
    ++ newline

abbrev pub mode_text : Bytes → Bool → List EventRow → List Bytes → Bytes
mode_text mode read events paths =
    codes "  "
    ++ mode
    ++ newline
    ++ ((if some_row paths
          then concat_map (path_line read events) paths
          else codes "    none" ++ newline)
        ++ newline)

file_query-text :
    (read : Bool) → file_query read none ≡ select_text (columns_of read) (calls_of read)
unfolding file_query
file_query-text true = refl
file_query-text false = refl

abbrev bytes_column : Bool → Column
bytes_column read = if read then bytes_read else bytes_written

file_total-columns :
    (f : FileRow) (events : List EventRow)
    → file_total f.path events ≡ some f
    → (read : Bool)
    → (value (calls_of read) f ≡ pos (calls (kind read) f.path events))
      × (value (bytes_column read) f ≡ pos (bytes (kind read) f.path events))
unfolding file_total row_of
file_total-columns f events total true = ground arith
file_total-columns f events total false = ground arith

-- A path without a row has no calls.
file_total-none :
    (path : Bytes) (events : List EventRow)
    → file_total path events ≡ none
    → (read : Bool) → calls (kind read) path events ≡ 0
unfolding file_total row_of
file_total-none path events total true = ground arith
file_total-none path events total false = ground arith

file_total-path :
    (path : Bytes) (events : List EventRow) (f : FileRow)
    → file_total path events ≡ some f
    → f.path ≡ path
unfolding file_total row_of
file_total-path path events f total = ground arith

module _ (lib : Reading) (database : lib.Database) (t : Tables) (agree : FilesAgree t)
    (selects : Selects lib database t) where
  -- What the query for a mode is about.
  abbrev IsStored : Column → FileRow → Type 0
  IsStored filter f =
      (find_row (λ (r : FileRow). r.path) f.path t.file_activity ≡ some f)
      × (above_zero (value filter f) ≡ true)

  row_numbers :
      (read : Bool) (f : FileRow)
      → (lib.column_int64 (selects.row_for (columns_of read) f) 1 ≡ value (calls_of read) f)
        × (lib.column_int64 (selects.row_for (columns_of read) f) 2 ≡ value (bytes_column read) f)
  row_numbers true f = (
    selects.first_number read_calls (bytes_read ∷ []) f,
    selects.second_number read_calls bytes_read [] f,
  )
  row_numbers false f = (
    selects.first_number write_calls (bytes_written ∷ []) f,
    selects.second_number write_calls bytes_written [] f,
  )

  file_line-path :
      (read : Bool) (f : FileRow)
      → find_row (λ (r : FileRow). r.path) f.path t.file_activity ≡ some f
      → file_line lib (selects.row_for (columns_of read) f) ≡ path_line read t.events f.path
  unfolding file_line
  file_line-path read f stored =
      let (calls_here, bytes_here) =
        file_total-columns f t.events (sym (agree f.path) ∙ stored) read in
      let (first, second) = row_numbers read f in
      rw (selects.path_text (columns_of read) f, first, calls_here, second, bytes_here) refl

  lines-paths :
      (read : Bool) (fs : List FileRow)
      → All (IsStored (calls_of read)) fs
      → (concat_map (file_line lib) (map (selects.row_for (columns_of read)) fs)
          ≡ concat_map (path_line read t.events) (map path_of fs))
        × (some_row (map (selects.row_for (columns_of read)) fs) ≡ some_row (map path_of fs))
  lines-paths read [] h = (refl, refl)
  lines-paths read (f ∷ fs) ((stored, _), h) =
      (rw (file_line-path read f stored, (lines-paths read fs h).0) refl, refl)

  list_rows-paths :
      (read : Bool) (empty : Bytes)
      → list_rows lib database (file_query read none) (file_line lib) empty ≡ (
        (if some_row (map path_of (selects.chosen (calls_of read)))
              then concat_map
                  (path_line read t.events)
                  (map path_of (selects.chosen (calls_of read)))
              else empty)
            ++ newline,
        ok tt,
      )
  list_rows-paths read empty =
      let (lines, there) =
        lines-paths read (selects.chosen (calls_of read)) (selects.stored (calls_of read)) in
      rw (file_query-text read) (
        list_rows-answers lib (file_line lib) database
          (select_text (columns_of read) (calls_of read)) empty
          (map (selects.row_for (columns_of read)) (selects.chosen (calls_of read)))
          (selects.answered read)
        ∙ rw (lines, there) refl)

  -- The paths that are chosen have calls,
  holds-calls :
      (read : Bool) (path : Bytes) (fs : List FileRow)
      → All (IsStored (calls_of read)) fs
      → holds path (map path_of fs) ≡ true
      → 0 < calls (kind read) path t.events
  unfolding holds
  holds-calls read path [] h here = cc
  holds-calls read path (f ∷ fs) ((stored, above), h) here = elim (Bool-cases (equal f.path path)) [
    | inl hit ↦
        let same : f.path ≡ path = (equal_iff f.path path).0 hit in
        let counts = (file_total-columns f t.events (sym (agree f.path) ∙ stored) read).0 in
        let some_calls : 0 < calls (kind read) f.path t.events =
          ground (arith, rw counts at above) in
        rw same at some_calls
    | inr miss ↦ holds-calls read path fs h (rw miss at here)
  ]

  -- and those with calls are chosen.
  calls-holds :
      (read : Bool) (path : Bytes)
      → 0 < calls (kind read) path t.events
      → holds path (map path_of (selects.chosen (calls_of read))) ≡ true
  calls-holds read path some_calls = elim (Option-cases (file_total path t.events)) [
    | inl missing ↦ absurd (omega (arith, file_total-none path t.events missing read))
    | inr (f, total) ↦
        let same = file_total-path path t.events f total in
        let stored : find_row (λ (r : FileRow). r.path) f.path t.file_activity ≡ some f =
          ap (λ k. find_row (λ (r : FileRow). r.path) k t.file_activity) same
          ∙ agree path
          ∙ total in
        let counts = (file_total-columns f t.events (sym (agree f.path) ∙ stored) read).0 in
        let above : above_zero (value (calls_of read) f) ≡ true =
          rw (counts, same) (ground arith) in
        rw same at (selects.complete (calls_of read) f stored above)
  ]

  -- Where the table of files agrees with the events of the capsule, and SQLite answers a query for columns
  -- of that table with the rows that meet its condition: for each mode, `show` prints a line for each of a
  -- list of paths, with how often the events read or write the path and the sum of their positive results,
  -- or `none` if the list is empty. The list holds a path exactly if the events read or write it.
  pub show_files-totals :
      (show_files lib database none ≡ (
        codes "Files"
            ++ newline
            ++ mode_text (codes "READ") true t.events (map path_of (selects.chosen read_calls))
            ++ mode_text (codes "WRITE") false t.events (map path_of (selects.chosen write_calls)),
        ok tt,
      ))
      × ((read : Bool) (path : Bytes)
          → (holds path (map path_of (selects.chosen (calls_of read))) ≡ true)
            ↔ (0 < calls (kind read) path t.events))
  unfolding show_files
  show_files-totals = (
    rw
        (
          list_rows-paths true (codes "    none" ++ newline),
          list_rows-paths false (codes "    none" ++ newline),
        )
        refl,
    λ read path. (
      holds-calls read path (selects.chosen (calls_of read)) (selects.stored (calls_of read)),
      calls-holds read path,
    ),
  )
