-- ===== src/Store/Writer.antt =====
-- `CapsuleWriter` of src/sqlite_store.cpp.
pub mod Steps
pub mod Rows
pub mod Agreement
pub mod Header
pub mod Atomic
use whyrun.Collector.Loop.{Collection}
use whyrun.Common.Actions.{Action, pure, throw, ◌>>◌}
use whyrun.Common.Int.{ℤ, pos, negsuc, pos_part, as_i64, int_eq}
use whyrun.Common.Number.{stoll}
use whyrun.Common.{
  ℕ, not, Bool, true, false, List, [], ◌∷◌, Option, none, some, Bytes, codes, equal, if◌then◌else◌,
  ◌==◌, Error, Result, err, ok, ◌>>=◌, cannot_open, prepare_failed, bind_failed, step_failed,
  execute_failed, start_without_id, end_without_id, already_finalized,
}
use whyrun.Event.{
  Event, EventType, Metadata, event_type_name, command_start, command_end, process_exec,
  process_fork, process_exit, file_open, file_read, file_write, network_connect, local_ipc_connect,
}
use whyrun.Store.Metadata.{metadata_json}
use whyrun.Store.Sqlite.{Sqlite, Script, pragmas, create_tables, begin_immediate, commit, rollback}
use whyrun.Store.Tables.{
  EventRow, FileRow, Sql, into_metadata, into_runs, set_runs, into_events, into_commands,
  set_commands, into_file_activity, into_network_activity, into_processes, ignore_processes,
  set_processes, Statement, insert_metadata, insert_run, update_runs, insert_event, insert_command,
  update_command, add_file_activity, add_network_activity, put_process, add_process, update_process,
}
use whyrun.Store.{format_command}

pub data RunMode : Type 0 where
  command session : RunMode

unfoldable pub run_mode_name : RunMode → Bytes
run_mode_name command = codes "command"
run_mode_name session = codes "session"

pub record RunMetadata : Type 0 where
  pub id : Bytes
  pub mode : RunMode
  pub command : List Bytes
  pub cwd : Bytes
  pub start_ns : ℕ

unfoldable pub metadata_value : Metadata → Bytes → Bytes → Bytes
unfolding equal
metadata_value [] key fallback = fallback
metadata_value ((k, v) ∷ m) key fallback = if equal k key then v else metadata_value m key fallback

abbrev pub number_of : Metadata → Bytes → Bytes → Result ℤ
number_of m key fallback = stoll (metadata_value m key fallback)

abbrev pub id_of : Option ℕ → Option ℤ
id_of none = none
id_of (some id) = some (as_i64 id)

-- The row that every event has.
unfoldable pub event_row : Event → EventRow
event_row event = record {
  timestamp_ns = as_i64 event.timestamp_ns;
  pid = pos event.pid;
  tid = pos event.tid;
  type = event_type_name event.type;
  resource = event.resource;
  result = event.result;
  errno_value = event.errno_value;
  metadata_json = metadata_json event.metadata;
  command_id = id_of event.command_id;
}

abbrev pub one_if : Bool → ℤ
one_if b = if b then pos 1 else pos 0

unfoldable pub file_row : Bytes → Bool → ℤ → FileRow
file_row path is_read result =
    let bytes = pos (pos_part result) in
    record {
      path = path;
      read_calls = one_if is_read;
      write_calls = one_if (not is_read);
      bytes_read = if is_read then bytes else pos 0;
      bytes_written = if is_read then pos 0 else bytes;
    }

-- The statement behind the row of the event: its text, and what is bound to it, in which a number may
-- not be read.
unfoldable pub start_row : Event → ℕ → Result Statement
start_row event id = number_of event.metadata (codes "sequence") (codes "0") >>= λ sequence. ok (
    insert_command (as_i64 id) sequence (pos event.pid) event.resource
      (metadata_value event.metadata (codes "cwd") []) (as_i64 event.timestamp_ns))

unfoldable pub end_row : Event → ℕ → Statement
end_row event id =
    update_command (as_i64 event.timestamp_ns) (metadata_value event.metadata (codes "cwd") [])
      event.result (as_i64 id)

unfoldable pub connect_row : Event → Statement
connect_row event =
    add_network_activity event.resource (one_if (int_eq event.errno_value (pos 0)))
      (one_if (not (int_eq event.errno_value (pos 0)))) event.errno_value

unfoldable pub exec_row : Event → Result Statement
exec_row event = number_of event.metadata (codes "ppid") (codes "0") >>= λ ppid.
    ok (put_process (pos event.pid) ppid event.resource (as_i64 event.timestamp_ns))

unfoldable pub fork_row : Event → Result Statement
fork_row event = number_of event.metadata (codes "child_pid") (codes "0") >>= λ child_pid. ok (
    add_process child_pid (pos event.pid)
      (metadata_value event.metadata (codes "executable") (codes "<unknown>"))
      (as_i64 event.timestamp_ns))

unfoldable pub exit_row : Event → Result Statement
exit_row event = number_of event.metadata (codes "exit_code") (codes "-1") >>= λ exit_code.
    number_of event.metadata (codes "term_signal") (codes "0") >>= λ term_signal.
    ok (update_process (as_i64 event.timestamp_ns) exit_code term_signal (pos event.pid))

-- The body of the constructor, `emit`, `finish` and the destructor.
module _ (db : Sqlite) where
  -- `Database::execute`
  unfoldable pub execute_script : Script → Action db.Connection Unit
  execute_script script c =
      let (succeeds, c') = db.exec script c in
      if succeeds then (ok tt, c') else (err execute_failed, c')

  unfoldable pub execute_bound : Statement → Action db.Connection Unit
  execute_bound statement c =
      if not (db.binds statement c)
      then (err bind_failed, c)
      else let (done, c') = db.step statement c in
        if done then (ok tt, c') else (err step_failed, c')

  abbrev pub bind_values : Result Statement → Action db.Connection Unit
  bind_values (err e) c = (err e, c)
  bind_values (ok statement) c = execute_bound statement c

  -- A `Statement`: it is prepared, its values are bound, and it is executed.
  unfoldable pub execute_statement : Sql → Result Statement → Action db.Connection Unit
  unfolding execute_bound
  execute_statement sql values c =
      if not (db.prepares sql c) then (err prepare_failed, c) else bind_values values c

  -- The constructor of `Database`
  unfoldable pub open_database : Bytes → Result db.Connection
  open_database path = elim (db.open_new path) [ none ↦ err cannot_open | some c ↦ ok c ]

  -- The rows that the constructor inserts.
  abbrev pub insert_schema : Action db.Connection Unit
  insert_schema =
      execute_statement into_metadata (ok (insert_metadata (codes "schema_version") (codes "3")))

  abbrev pub insert_version : Bytes → Action db.Connection Unit
  insert_version version =
      execute_statement into_metadata (ok (insert_metadata (codes "tool_version") version))

  abbrev pub insert_run_row : RunMetadata → Action db.Connection Unit
  insert_run_row run = execute_statement into_runs (
      ok (
        insert_run run.id (run_mode_name run.mode) (format_command run.command) run.cwd
          (as_i64 run.start_ns)))

  -- The body of the constructor. `kVersion` is in a file that the build writes.
  unfoldable pub write_header : Bytes → RunMetadata → Action db.Connection Unit
  write_header version run =
      execute_script pragmas
      >> execute_script create_tables
      >> execute_script begin_immediate
      >> insert_schema
      >> insert_version version
      >> insert_run_row run

  abbrev pub with_id :
      Option ℕ → Error → (ℕ → Action db.Connection Unit) → Action db.Connection Unit
  with_id none missing next = throw missing
  with_id (some id) missing next = next id

  -- What `emit` does behind the row of the event, by its type.
  unfoldable pub emit_details : EventType → Event → Action db.Connection Unit
  unfolding execute_statement
  emit_details command_start event =
      with_id event.command_id start_without_id
        (λ id. execute_statement into_commands (start_row event id))
  emit_details command_end event =
      with_id event.command_id end_without_id
        (λ id. execute_statement set_commands (ok (end_row event id)))
  emit_details file_read event =
      execute_statement into_file_activity
        (ok (add_file_activity (file_row event.resource true event.result)))
  emit_details file_write event =
      execute_statement into_file_activity
        (ok (add_file_activity (file_row event.resource false event.result)))
  emit_details network_connect event =
      execute_statement into_network_activity (ok (connect_row event))
  emit_details process_exec event = execute_statement into_processes (exec_row event)
  emit_details process_fork event = execute_statement ignore_processes (fork_row event)
  emit_details process_exit event = execute_statement set_processes (exit_row event)
  emit_details file_open event = pure tt
  emit_details local_ipc_connect event = pure tt

  unfoldable pub emit : Event → Action db.Connection Unit
  unfolding execute_statement emit_details
  emit event =
      execute_statement into_events (ok (insert_event (event_row event)))
      >> emit_details event.type event

  -- The collector hands the events over one by one, until one throws.
  unfoldable pub emit_all : List Event → Action db.Connection Unit
  unfolding emit
  emit_all [] = pure tt
  emit_all (event ∷ events) = emit event >> emit_all events

  pub record Writer : Type 0 where
    pub database : db.Connection
    pub finished : Bool

  abbrev pub closing : Result (Unit {0}) → db.Connection → Result (Unit {0}) × Writer
  closing (err e) c = (err e, record { database = c; finished = false })
  closing (ok _) c = (ok tt, record { database = c; finished = true })

  -- The steps of `finish`.
  unfoldable pub write_end : Collection → Action db.Connection Unit
  unfolding execute_script execute_statement
  write_end result =
      execute_statement set_runs
        (ok (update_runs (as_i64 result.end_ns) result.exit_code (pos result.term_signal)))
      >> execute_script commit

  unfoldable pub finish : Collection → Action Writer Unit
  unfolding write_end
  finish result w =
      if w.finished
      then (err already_finalized, w)
      else let (written, c) = write_end result w.database in closing written c

  -- The destructor. What `ROLLBACK` throws is caught, and then the connection is closed.
  unfoldable pub destroy : Writer → db.Connection
  unfolding execute_script
  destroy w = if not w.finished then (execute_script rollback w.database).1 else w.database
