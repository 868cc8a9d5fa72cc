-- ===== src/Show/Capsule.antt =====
-- `show_capsule` of src/show.cpp, with the parts that a command, the run and the events take.
pub mod Restricted
pub mod Isolation
pub mod Refusals
use whyrun.CommandLine.{ShowOptions}
use whyrun.Common.Int.{ℤ, pos, int_eq, int_of_long, ◌-ℤ◌}
use whyrun.Common.Number.{int_to_string}
use whyrun.Common.Output.{Output, print, fail, give, ◌>>=◌, ◌>>◌}
use whyrun.Common.{
  ℕ, not, ◌&&◌, Bool, true, false, List, [], ◌∷◌, ◌++◌, Option, none, some, Bytes, codes, equal,
  is_empty, ltb, leb, has_value, if◌then◌else◌, Result, err, ok, missing_run, missing_command,
  no_attribution,
}
use whyrun.Reader.{Cursor, Reading, open_capsule, prepare, next, text, validate_schema, each_row}
use whyrun.Show.{
  CommandFilter, command_clause, print_command_text, errno_name, newline, show_files, show_network,
  show_local_ipc, show_errors, show_commands,
}

unfoldable pub header_query : ℤ → Bytes
unfolding int_to_string
header_query id =
    codes "SELECT sequence, command, cwd, start_ns, exit_code FROM commands WHERE id="
    ++ int_to_string id

unfoldable pub processes_query : CommandFilter → Bytes
unfolding command_clause
processes_query none = codes "SELECT COUNT(*) FROM processes"
processes_query (some id) =
    codes "SELECT COUNT(DISTINCT pid) FROM events WHERE type='process_exec'"
    ++ command_clause (some id)

unfoldable pub timeline_query : CommandFilter → Bytes
unfolding command_clause
timeline_query command_id =
    codes "SELECT timestamp_ns, pid, tid, type, resource, result, errno_value FROM events WHERE 1=1"
    ++ command_clause command_id
    ++ codes " ORDER BY timestamp_ns, CASE type WHEN 'command_start' THEN 0 ELSE 1 END, id"

abbrev errno_text : ℤ → Bytes
errno_text errno =
    if int_eq errno (pos 0) then [] else codes " (" ++ errno_name (int_of_long errno) ++ codes ")"

abbrev resource_text : Bytes → Bytes
resource_text resource = if not (is_empty resource) then codes " " ++ resource else []

unfoldable pub run_query : ℕ → Bytes
run_query schema_version =
    (if leb 2 schema_version
      then codes "SELECT mode, command, exit_code, term_signal, start_ns "
      else codes "SELECT 'command', command, exit_code, term_signal, start_ns ")
    ++ codes "FROM runs LIMIT 1"

abbrev signal_text : ℤ → Bytes
signal_text sig =
    if int_eq sig (pos 0) then [] else codes " (signal " ++ int_to_string sig ++ codes ")"

abbrev checked : ℕ → CommandFilter → Output Unit
checked schema_version command_id =
    if has_value command_id && ltb schema_version 3 then fail no_attribution else give tt

abbrev pub code_of : Result (Unit {0}) → ℕ
code_of (err e) = 1
code_of (ok _) = 0

-- `milliseconds` prints a number of nanoseconds as `std::fixed` and `std::setprecision(3)` print its
-- quotient by a million, in floating point.
module _ (lib : Reading) (milliseconds : ℤ → Bytes) where
  abbrev integer_text : lib.Row → ℕ → Bytes
  integer_text r column = int_to_string (lib.column_int64 r column)

  unfoldable pub header_text : lib.Row → Bytes
  unfolding text print_command_text int_to_string
  header_text r =
      codes "Command "
      ++ integer_text r 0
      ++ newline
      ++ codes "  "
      ++ print_command_text (text lib r 1) (codes "  ")
      ++ newline
      ++ newline
      ++ codes "Cwd"
      ++ newline
      ++ codes "  "
      ++ text lib r 2
      ++ newline
      ++ newline
      ++ codes "Exit"
      ++ newline
      ++ codes "  "
      ++ (if lib.column_is_null r 4 then codes "incomplete" else codes "code " ++ integer_text r 4)
      ++ newline
      ++ newline

  abbrev header_row : Option (lib.Row × Cursor lib.Row) → Output ℤ
  header_row none = fail missing_command
  header_row (some (r, rest)) = print (header_text r) >> give (lib.column_int64 r 3)

  -- The result is the time at which the command started.
  unfoldable pub show_command_header : lib.Database → ℤ → Output ℤ
  unfolding prepare next header_text header_query
  show_command_header database id =
      prepare lib database (header_query id) >>= λ c. next lib c >>= header_row

  -- Without a row to stand on, the column is what SQLite gives for none: 0.
  abbrev count_of : Option (lib.Row × Cursor lib.Row) → ℤ
  count_of none = pos 0
  count_of (some (r, rest)) = lib.column_int64 r 0

  unfoldable pub show_processes : lib.Database → CommandFilter → Output Unit
  unfolding prepare next int_to_string processes_query
  show_processes database command_id = prepare lib database (processes_query command_id) >>= λ c.
      next lib c >>= λ found. print (
        codes "Processes"
        ++ newline
        ++ codes "  "
        ++ int_to_string (count_of found)
        ++ newline
        ++ newline)

  unfoldable pub event_text : ℤ → lib.Row → Bytes
  unfolding text int_to_string errno_name ◌-ℤ◌
  event_text start_ns r =
      codes "  +"
      ++ milliseconds (lib.column_int64 r 0 -ℤ start_ns)
      ++ codes " ms pid="
      ++ integer_text r 1
      ++ codes " tid="
      ++ integer_text r 2
      ++ codes " "
      ++ text lib r 3
      ++ resource_text (text lib r 4)
      ++ codes " -> "
      ++ integer_text r 5
      ++ errno_text (lib.column_int64 r 6)
      ++ newline

  abbrev event_step : ℤ → lib.Row → Unit {0} → Output Unit
  event_step start_ns r _ = print (event_text start_ns r)

  unfoldable pub show_timeline : lib.Database → ℤ → CommandFilter → Output Unit
  unfolding prepare each_row event_text timeline_query
  show_timeline database start_ns command_id =
      print (codes "Events" ++ newline)
      >> (prepare lib database (timeline_query command_id) >>= λ c.
          each_row lib (event_step start_ns) c tt)

  unfoldable pub run_text : lib.Row → Bytes
  unfolding text int_to_string equal
  run_text r =
      (if equal (text lib r 0) (codes "session")
        then codes "Session" ++ newline ++ codes "  shell " ++ text lib r 1
        else codes "Command" ++ newline ++ codes "  " ++ text lib r 1)
      ++ newline
      ++ newline
      ++ codes "Exit"
      ++ newline
      ++ codes "  code "
      ++ integer_text r 2
      ++ signal_text (lib.column_int64 r 3)
      ++ newline
      ++ newline

  abbrev run_row : Option (lib.Row × Cursor lib.Row) → Output (ℤ × Bytes)
  run_row none = fail missing_run
  run_row (some (r, rest)) = print (run_text r) >> give (lib.column_int64 r 4, text lib r 0)

  -- The result is the time at which the run started, and its mode.
  unfoldable pub show_run_header : lib.Database → ℕ → Output (ℤ × Bytes)
  unfolding prepare next run_text run_query
  show_run_header database schema_version =
      prepare lib database (run_query schema_version) >>= λ c. next lib c >>= run_row

  abbrev commands_if_session : lib.Database → ℤ × Bytes → Output ℤ
  commands_if_session database (start_ns, mode) =
      (if equal mode (codes "session") then show_commands lib database else give tt)
      >> give start_ns

  -- The header, and the start of the timeline.
  unfoldable pub show_header : lib.Database → ℕ → CommandFilter → Output ℤ
  unfolding equal
  show_header database schema_version none =
      show_run_header database schema_version >>= commands_if_session database
  show_header database schema_version (some id) = show_command_header database id

  unfoldable pub show_sections : lib.Database → ShowOptions → ℤ → Output Unit
  show_sections database options start_ns =
      show_processes database options.command_id
      >> show_files lib database options.command_id
      >> show_network lib database options.command_id
      >> show_local_ipc lib database options.command_id
      >> show_errors lib database options.command_id
      >> (if options.events then show_timeline database start_ns options.command_id else give tt)

  -- What is done once the file is open.
  unfoldable pub show_database : lib.Database → ShowOptions → Output Unit
  show_database database options = validate_schema lib database >>= λ schema_version.
      checked schema_version options.command_id
      >> (show_header database schema_version options.command_id >>= show_sections database options)

  -- The `try` block
  unfoldable pub show_body : Bytes → ShowOptions → Output Unit
  show_body path options = open_capsule lib path >>= λ database. show_database database options

  -- What is printed, and the exit code.
  unfoldable pub show_capsule : Bytes → ShowOptions → Bytes × ℕ
  show_capsule path options = let (text, r) = show_body path options in (text, code_of r)
