-- ===== src/Tests/Reading.antt =====
-- A capsule that is read.
use whyrun.Store.Paths.Fresh.{holds}
use whyrun.Common.{
  ◌↔◌, ◌<◌, ◌∙◌, ap, Bool-cases, inr, Option, All, ◌++◌, ◌≡◌, refl, Bool, true, false, List, [],
  ◌∷◌, none, some, Bytes, codes, ok, equal, get_or, map, cannot_open, inl, if◌then◌else◌, arith,
}
use whyrun.Common.Map.{bytes_key}
use whyrun.Store.Activity.{calls, bytes, total}
use whyrun.Store.Activity.Files.{
  with_file, with_file-FilesAgree, file_total, row_of, file_total-read, FilesAgree,
}
use whyrun.Common.Int.{◌+ℤ◌, ℤ, pos}
use whyrun.Store.Writer.{file_row}
use whyrun.Store.Tables.{EventRow, no_rows, put_row, merged_file, Tables, FileRow, find_row}
use whyrun.Diff.Load.{
  load_database, load_exit, load_mode, add_rows, load_summary, diff_capsules, empty_summary,
}
use whyrun.Reader.{next, each_row, validate_schema, open_capsule, Reading, done, schema_query, text}
use whyrun.Endpoint.{until_zero}
use whyrun.CommandLine.{ShowOptions}
use whyrun.Diff.Load.Itself.{unchanged_text, diff_capsules-itself, diff_capsules-fails}
use whyrun.Show.Capsule.Isolation.{show_database-same}
use whyrun.Show.Capsule.Refusals.{no_commands, show_capsule-Unsuitable}
use whyrun.Show.Capsule.{header_query, show_database, show_capsule}
use whyrun.Show.Capsule.Restricted.{of_command, query_text}
use whyrun.Show.Rows.{answers}
use whyrun.Show.Text.{unindent, unindent-print_command_text}
use whyrun.Show.Totals.{
  Selects, Column, read_calls, write_calls, bytes_read, bytes_written, value, select_text, calls_of,
  columns_of, above_zero, path_of, kind, mode_text, show_files-totals,
}
use whyrun.Show.{file_query, print_command_text, show_files, newline}

-- A row is a text and numbers.
abbrev Row : Type 0
Row = Bytes × List ℤ

abbrev version_row : Bytes → Row
version_row version = (version, [])

abbrev read_row : Row
read_row = (codes "a", pos 0 ∷ pos 1 ∷ pos 5 ∷ [])

-- The capsules "old" and "new", and no other.
data Capsule : Type 0 where
  old new : Capsule

abbrev answer : Capsule → Bytes → List Row
answer old sql = if equal sql schema_query then version_row (codes "1") ∷ [] else []
answer new sql =
    if equal sql schema_query
    then version_row (codes "3") ∷ []
    else if equal sql (file_query true none)
    then read_row ∷ []
    else if equal sql (codes "SELECT exit_code FROM runs LIMIT 1")
    then ([], pos 0 ∷ []) ∷ []
    else []

abbrev lib : Reading
lib = record {
  Database = Capsule;
  Row = Row;
  open_readonly = λ path.
      if equal path (codes "new.wrun")
      then some new
      else if equal path (codes "old.wrun")
      then some old
      else none;
  query = λ capsule sql. some (answers (answer capsule sql));
  column_int64 = λ (text, numbers) column. get_or numbers column (pos 0);
  column_text = λ (text, numbers) column. some text;
  column_is_null = λ r column. false;
}

abbrev milliseconds : ℤ → Bytes
milliseconds n = codes "0.000"

abbrev options : ShowOptions
options = record { events = false; command_id = some (pos 1) }

-- The first version of the schema has no commands.
show_capsule-Unsuitable_example : show_capsule lib milliseconds (codes "old.wrun") options ≡ ([], 1)
unfolding equal text file_query until_zero
show_capsule-Unsuitable_example =
    show_capsule-Unsuitable lib milliseconds options (codes "old.wrun")
      (no_commands old (version_row (codes "1")) done (pos 1) refl refl (inl refl) refl)

unindent-print_command_text_example :
    unindent 2 0 (print_command_text (codes "a\nb") (codes "  ")) ≡ codes "a\nb"
unindent-print_command_text_example = unindent-print_command_text (codes "a\nb") (codes "  ")

diff_capsules-itself_example :
    diff_capsules lib (codes "new.wrun") (codes "new.wrun") ≡ (unchanged_text empty_summary, 0)
unfolding load_summary load_database load_exit load_mode add_rows validate_schema equal text
    file_query until_zero next each_row
diff_capsules-itself_example = diff_capsules-itself lib (codes "new.wrun") empty_summary refl

diff_capsules-fails_example : diff_capsules lib (codes "no.wrun") (codes "new.wrun") ≡ ([], 1)
unfolding load_summary open_capsule equal
diff_capsules-fails_example =
    diff_capsules-fails lib (codes "no.wrun") (codes "new.wrun") cannot_open (inl refl)

abbrev read_event : EventRow
read_event = record {
  timestamp_ns = pos 7;
  pid = pos 100;
  tid = pos 100;
  type = codes "file_read";
  resource = codes "a";
  result = pos 5;
  errno_value = pos 0;
  metadata_json = codes "{}";
  command_id = some (pos 1);
}

some-injective : (f g : FileRow) → some f ≡ some g → f ≡ g
some-injective f g e = cc

none_is_some : (f : FileRow) → ◌≡◌ {A = Option FileRow} none (some f) → ⊥
none_is_some f e = cc

abbrev written : Tables
written =
    with_file (record no_rows { events = read_event ∷ [] }) (file_row (codes "a") true (pos 5))

nothing-FilesAgree : FilesAgree no_rows
unfolding file_total row_of calls bytes find_row
nothing-FilesAgree path = refl

written-FilesAgree : FilesAgree written
unfolding file_row total equal
written-FilesAgree =
    with_file-FilesAgree no_rows read_event (file_row (codes "a") true (pos 5)) nothing-FilesAgree
      (omega arith) refl (file_total-read read_event [] (codes "a") refl refl)

abbrev read_file : FileRow
read_file = record {
  path = codes "a";
  read_calls = pos 1;
  write_calls = pos 0;
  bytes_read = pos 5;
  bytes_written = pos 0;
}

abbrev chosen : Column → List FileRow
chosen read_calls = read_file ∷ []
chosen bytes_read = read_file ∷ []
chosen write_calls = []
chosen bytes_written = []

abbrev values : List Column → FileRow → List ℤ
values [] f = []
values (c ∷ columns) f = value c f ∷ values columns f

abbrev row_for : List Column → FileRow → Row
row_for columns f = (f.path, pos 0 ∷ values columns f)

stored :
    (filter : Column)
    → All
        (λ (f : FileRow).
          (find_row (λ (r : FileRow). r.path) f.path written.file_activity ≡ some f)
          × (above_zero (value filter f) ≡ true))
        (chosen filter)
unfolding find_row put_row merged_file file_row ◌+ℤ◌ equal
stored read_calls = ((refl, refl), tt)
stored bytes_read = ((refl, refl), tt)
stored write_calls = tt
stored bytes_written = tt

only_row :
    (f : FileRow)
    → find_row (λ (r : FileRow). r.path) f.path written.file_activity ≡ some f
    → read_file ≡ f
unfolding find_row put_row merged_file file_row ◌+ℤ◌
only_row f here = elim (Bool-cases (equal (codes "a") f.path)) [
  | inl hit ↦ some-injective read_file f (rw hit at here)
  | inr miss ↦ absurd (none_is_some f (rw miss at here))
]

complete :
    (filter : Column) (f : FileRow)
    → find_row (λ (r : FileRow). r.path) f.path written.file_activity ≡ some f
    → above_zero (value filter f) ≡ true
    → holds f.path (map path_of (chosen filter)) ≡ true
unfolding holds equal
complete read_calls f here above = rw (← only_row f here) refl
complete bytes_read f here above = rw (← only_row f here) refl
complete write_calls f here above =
    let e : above_zero (value write_calls read_file) ≡ true =
      ap (λ g. above_zero (value write_calls g)) (only_row f here) ∙ above in
    cc
complete bytes_written f here above =
    let e : above_zero (value bytes_written read_file) ≡ true =
      ap (λ g. above_zero (value bytes_written g)) (only_row f here) ∙ above in
    cc

answered :
    (read : Bool)
    → lib.query new (select_text (columns_of read) (calls_of read))
      ≡ some (answers (map (row_for (columns_of read)) (chosen (calls_of read))))
unfolding equal file_query
answered true = refl
answered false = refl

abbrev selects : Selects lib new written
selects = record {
  row_for = row_for;
  chosen = chosen;
  stored = stored;
  complete = complete;
  answered = answered;
  path_text = λ columns f. refl;
  first_number = λ c columns f. refl;
  second_number = λ b c columns f. refl;
}

show_files-totals_example :
    (show_files lib new none ≡ (
      codes "Files"
          ++ newline
          ++ mode_text (codes "READ") true written.events (codes "a" ∷ [])
          ++ mode_text (codes "WRITE") false written.events [],
      ok tt,
    ))
    × ((read : Bool) (path : Bytes)
        → (holds path (map path_of (chosen (calls_of read))) ≡ true)
          ↔ (0 < calls (kind read) path written.events))
show_files-totals_example = show_files-totals lib new written written-FilesAgree selects

-- Only the second capsule has the event of another command.
abbrev other_event : EventRow
other_event = record read_event { resource = codes "b"; command_id = some (pos 2) }

abbrev alone : List EventRow
alone = read_event ∷ []

abbrev beside_another : List EventRow
beside_another = other_event ∷ read_event ∷ []

abbrev event_row : EventRow → Row
event_row e = (e.resource, pos 0 ∷ pos 1 ∷ e.result ∷ [])

-- A capsule is its events. Each row is an event of the first command.
abbrev rows_of : List EventRow → Bytes → List Row
unfolding of_command
rows_of events sql =
    if equal sql schema_query
    then version_row (codes "3") ∷ []
    else if equal sql (header_query (pos 1))
    then (codes "cat a", pos 1 ∷ []) ∷ []
    else map event_row (of_command (pos 1) events)

abbrev events_lib : Reading
events_lib = record {
  Database = List EventRow;
  Row = Row;
  open_readonly = λ path. none;
  query = λ events sql. some (answers (rows_of events sql));
  column_int64 = λ (text, numbers) column. get_or numbers column (pos 0);
  column_text = λ (text, numbers) column. some text;
  column_is_null = λ r column. false;
}

answered_alike :
    (sql : Bytes) (d e : List EventRow)
    → of_command (pos 1) d ≡ of_command (pos 1) e
    → events_lib.query d sql ≡ events_lib.query e sql
unfolding of_command
answered_alike sql d e same = rw same

show_database-same_example :
    show_database events_lib milliseconds alone
      (record { events = true; command_id = some (pos 1) })
    ≡ show_database events_lib milliseconds beside_another
        (record { events = true; command_id = some (pos 1) })
unfolding of_command equal
show_database-same_example =
    show_database-same events_lib milliseconds (pos 1) (λ events. events)
      (λ q d e same. answered_alike (query_text (pos 1) q) d e same) alone beside_another refl refl
      refl true
