-- ===== src/Tests/Capsules.antt =====
-- A capsule that is written, and the files of a recording.
use whyrun.Store.Paths.{
  separator, temporary_loop, default_loop, Status, present, absent, default_capsule_path,
  temporary_capsule_path,
}
use whyrun.CommandLine.Record.{
  record_guarded, write_temporary, write_file, stem, request_of, remove_file, publish_capsule,
  metadata_for, file_at, discard, Request, Files, fragment, copied, broken, World, write_capsule,
  record_body, run_record,
}
use whyrun.CommandLine.Record
use whyrun.Store.{shell_quote, quoted_text, format_rest, format_command, all_plain}
use whyrun.Store.Writer.{
  write_header, write_end, run_mode_name, open_database, metadata_value, end_row, start_row,
  file_row, finish, execute_statement, execute_script, execute_bound, emit_details, emit_all, emit,
  destroy, event_row, RunMetadata, command,
}
use whyrun.Store.Tables.{update_row, put_row, merged_file, find_row, effect, no_rows}
use whyrun.Store.Metadata.{sort_entries, metadata_json, entries_json}
use whyrun.Event.{event_type_name, Event, EventType, file_read, command_start, command_end}
use whyrun.Common.Number.{stoll, skip_spaces, signed_number, scan, digits, to_string}
use whyrun.Common.Int.{◌+ℤ◌, as_i64, ℤ, pos}
use whyrun.Common.{
  if◌then◌else◌, ℕ, ◌≡◌, ◌≢◌, ◌<◌, ◌^◌, refl, true, false, List, [], ◌∷◌, Option, none, some, Bytes,
  codes, ok, Lacks, arith, equal, equal_iff,
}
use whyrun.Store.Writer.Header.{rows_of}
use whyrun.Store.Activity.{total}
use whyrun.CommandLine.Record.Choice.{slash}
use whyrun.CommandLine.Record.Whole.{Recorded, record_body-Recorded}
use whyrun.Store.Paths.Fresh.{
  Chosen, default_capsule_path-Chosen, temporary_capsule_path-Chosen, holds,
}
use whyrun.Store.Sqlite.{Memory, memory, memory-IsLawful}

abbrev event_of : EventType → Bytes → ℤ → Option ℕ → Event
event_of type resource result command_id = record {
  timestamp_ns = 7;
  pid = 100;
  tid = 100;
  type = type;
  resource = resource;
  result = result;
  errno_value = pos 0;
  metadata = [];
  command_id = command_id;
}

abbrev events : List Event
events =
    event_of command_start (codes "cat a") (pos 0) (some 1)
    ∷ event_of file_read (codes "a") (pos 5) (some 1)
    ∷ event_of file_read (codes "a") (pos 0) (some 1)
    ∷ event_of command_end (codes "cat a") (pos 0) (some 1)
    ∷ []

abbrev request : Request
request = record {
  command = codes "cat" ∷ codes "a" ∷ [];
  root_command = none;
  command_channel_fd = none;
}

abbrev world : World memory
world = record {
  base = codes "run-1";
  temp_directory = some (codes "/tmp");
  current_path = some (codes "/home");
  pid = 12;
  now = 3;
  version = codes "0.2.0";
  inspectable = λ path. true;
  copies = copied;
  removes = λ path. true;
  bash_session = ok request;
  touched = λ files. files;
  collected = λ request.
      (events, ok (record { collector_ok = true; exit_code = pos 0; term_signal = 0; end_ns = 9 }));
}

abbrev run : RunMetadata
run = record {
  id = codes "run-1";
  mode = command;
  command = codes "cat" ∷ codes "a" ∷ [];
  cwd = codes "/home";
  start_ns = 3;
}

abbrev fresh : Memory
fresh = record { current = no_rows; saved = no_rows; is_open = false }

abbrev files : Files
files = (codes "run-1.wrun", fragment) ∷ []

-- The name is taken, and the next is free.
recorded_twice : (run_record world (some (codes "cat" ∷ codes "a" ∷ [])) files).0 ≡ pos 0
unfolding Record.inspect run_record discard file_at metadata_for publish_capsule record_guarded
    remove_file request_of stem write_file write_temporary record_body write_capsule as_i64 digits
    scan signed_number skip_spaces stoll to_string equal event_type_name entries_json metadata_json
    sort_entries default_loop temporary_loop default_capsule_path temporary_capsule_path effect
    find_row merged_file put_row update_row destroy emit emit_all emit_details event_row
    execute_bound execute_script execute_statement finish file_row start_row end_row metadata_value
    open_database run_mode_name write_end write_header all_plain format_command format_rest
    quoted_text shell_quote ◌+ℤ◌ separator
recorded_twice = refl

whole : world.copies ≢ broken
whole e = cc

named : world.temp_directory ≢ some []
named e = cc

in_base : Lacks slash world.base
in_base = ground arith

small : (request : Request) → total (rows_of (world.collected request).0 []) < 2 ^ 63
unfolding total rows_of event_row
small request = omega arith

record_body-Recorded_example :
    Recorded memory memory-IsLawful world whole
      (λ path. refl)
      in_base
      named
      small
      none
      files
      (λ final temporary is_final is_temporary now. refl)
      (record_body world none files)
record_body-Recorded_example =
    record_body-Recorded memory memory-IsLawful world whole (λ path. refl) in_base named small none
      files (λ final temporary is_final is_temporary now. refl)

abbrev inspect : Bytes → Status
inspect path = if equal path (codes "run-1.wrun") then present else absent

known : (path : Bytes) → inspect path ≡ present → holds path (codes "run-1.wrun" ∷ []) ≡ true
unfolding holds
known path here =
    ground (arith, equal_iff path (codes "run-1.wrun"), equal_iff (codes "run-1.wrun") path)

default_capsule_path-Chosen_example :
    Chosen inspect (default_capsule_path inspect 2 (codes "run-1"))
default_capsule_path-Chosen_example =
    default_capsule_path-Chosen inspect (codes "run-1.wrun" ∷ []) known (codes "run-1")
      (omega arith)

temporary_capsule_path-Chosen_example :
    Chosen inspect (temporary_capsule_path inspect 2 (some (codes "/tmp")) (codes "run-1") 12)
temporary_capsule_path-Chosen_example =
    temporary_capsule_path-Chosen inspect (codes "run-1.wrun" ∷ []) known (codes "/tmp")
      (codes "run-1") 12 (omega arith)

-- The first free number.
second_path : default_capsule_path inspect 2 (codes "run-1") ≡ some (ok (codes "run-1-1.wrun"))
unfolding default_capsule_path equal to_string
second_path = refl
