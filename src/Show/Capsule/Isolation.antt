-- ===== src/Show/Capsule/Isolation.antt =====
-- With a command, `show` asks only for what belongs to the command.
use whyrun.Common.{
  List, ◌∷◌, if◌then◌else◌, fun_ext, ◌≡◌, refl, Bool, true, false, [], append_assoc, some, Bytes,
}
use whyrun.Store.Tables.{EventRow}
use whyrun.Event.{
  event_type_name, file_read, file_write, network_connect, local_ipc_connect, process_exec,
}
use whyrun.Show.Capsule.Restricted.{
  of_type, with_error, any, timestamp_ns, pid, tid, type, resource, result, errno_value, calls,
  bytes, successes, failures, Query, counted, in_time, grouped, with_newest, condition_text,
  query_text, of_command,
}
use whyrun.Common.Int.{ℤ}
use whyrun.Reader.{Reading, validate_schema, schema_query}
use whyrun.Show.Capsule.{
  header_query, show_command_header, processes_query, show_processes, timeline_query, show_timeline,
  show_header, show_sections, show_database,
}
use whyrun.Show.{
  file_query, show_files, network_query, show_network, ipc_query, show_local_ipc, errors_query,
  show_errors, list_rows,
}

-- The queries, as their parts say what they are about.
abbrev files_of : Bool → Query
files_of read =
    grouped (resource ∷ []) (calls ∷ bytes ∷ []) (of_type (if read then file_read else file_write))

abbrev connections : Query
connections = with_newest (calls ∷ successes ∷ failures ∷ []) errno_value (of_type network_connect)

abbrev local_connections : Query
local_connections =
    grouped (resource ∷ []) (calls ∷ successes ∷ failures ∷ []) (of_type local_ipc_connect)

abbrev failed_calls : Query
failed_calls = grouped (resource ∷ type ∷ errno_value ∷ []) (calls ∷ []) with_error

abbrev started_processes : Query
started_processes = counted pid (of_type process_exec)

abbrev all_events : Query
all_events = in_time (timestamp_ns ∷ pid ∷ tid ∷ type ∷ resource ∷ result ∷ errno_value ∷ []) any

module _ (id : ℤ) where
  file_query-text : (read : Bool) → file_query read (some id) ≡ query_text id (files_of read)
  unfolding file_query query_text condition_text event_type_name
  file_query-text true = refl
  file_query-text false = refl

  network_query-text : network_query (some id) ≡ query_text id connections
  unfolding network_query query_text condition_text event_type_name
  network_query-text = simp append_assoc

  ipc_query-text : ipc_query (some id) ≡ query_text id local_connections
  unfolding ipc_query query_text condition_text event_type_name
  ipc_query-text = refl

  errors_query-text : errors_query (some id) ≡ query_text id failed_calls
  unfolding errors_query query_text condition_text event_type_name
  errors_query-text = refl

  processes_query-text : processes_query (some id) ≡ query_text id started_processes
  unfolding processes_query query_text condition_text event_type_name
  processes_query-text = refl

  timeline_query-text : timeline_query (some id) ≡ query_text id all_events
  unfolding timeline_query query_text condition_text event_type_name
  timeline_query-text = refl

module _ (lib : Reading) (milliseconds : ℤ → Bytes) (id : ℤ)
    (events_of : lib.Database → List EventRow)
    (restricted : (q : Query) (d e : lib.Database)
      → of_command id (events_of d) ≡ of_command id (events_of e)
      → lib.query d (query_text id q) ≡ lib.query e (query_text id q))
    (d e : lib.Database) (same : of_command id (events_of d) ≡ of_command id (events_of e))
    (same_schema : lib.query d schema_query ≡ lib.query e schema_query)
    (same_header : lib.query d (header_query id) ≡ lib.query e (header_query id)) where
  query-same : (sql : Bytes) (q : Query) → sql ≡ query_text id q → lib.query d sql ≡ lib.query e sql
  query-same sql q is_sql = rw is_sql (restricted q d e same)

  file_query-same :
      (read : Bool)
      → lib.query d (file_query read (some id)) ≡ lib.query e (file_query read (some id))
  file_query-same true = query-same _ (files_of true) (file_query-text id true)
  file_query-same false = query-same _ (files_of false) (file_query-text id false)

  show_files-same : show_files lib d (some id) ≡ show_files lib e (some id)
  unfolding show_files list_rows
  show_files-same = rw (file_query-same true, file_query-same false)

  show_network-same : show_network lib d (some id) ≡ show_network lib e (some id)
  unfolding show_network list_rows
  show_network-same = rw (query-same (network_query (some id)) connections (network_query-text id))

  show_local_ipc-same : show_local_ipc lib d (some id) ≡ show_local_ipc lib e (some id)
  unfolding show_local_ipc list_rows
  show_local_ipc-same = rw (query-same (ipc_query (some id)) local_connections (ipc_query-text id))

  show_errors-same : show_errors lib d (some id) ≡ show_errors lib e (some id)
  unfolding show_errors list_rows
  show_errors-same = rw (query-same (errors_query (some id)) failed_calls (errors_query-text id))

  show_processes-same :
      show_processes lib milliseconds d (some id) ≡ show_processes lib milliseconds e (some id)
  unfolding show_processes
  show_processes-same =
      rw (query-same (processes_query (some id)) started_processes (processes_query-text id))

  show_timeline-same :
      (start_ns : ℤ)
      → show_timeline lib milliseconds d start_ns (some id)
        ≡ show_timeline lib milliseconds e start_ns (some id)
  unfolding show_timeline
  show_timeline-same start_ns =
      rw (query-same (timeline_query (some id)) all_events (timeline_query-text id))

  show_command_header-same :
      show_command_header lib milliseconds d id ≡ show_command_header lib milliseconds e id
  unfolding show_command_header
  show_command_header-same = rw same_header

  validate_schema-same : validate_schema lib d ≡ validate_schema lib e
  unfolding validate_schema
  validate_schema-same = rw same_schema

  show_sections-same :
      (events : Bool) (start_ns : ℤ)
      → show_sections lib milliseconds d (record { events = events; command_id = some id }) start_ns
        ≡ show_sections lib milliseconds e
            (record { events = events; command_id = some id })
            start_ns
  unfolding show_sections
  show_sections-same events start_ns = rw (
    show_processes-same,
    show_files-same,
    show_network-same,
    show_local_ipc-same,
    show_errors-same,
    show_timeline-same start_ns,
  )

  -- Let SQLite answer each `Query`, whose text has the condition for the command on everything that it
  -- reads from `events`, alike from two capsules with the same events of the command. Then
  -- `show --command` shows two capsules alike, with the same output, exit code and failures, if they have
  -- the same events of the command and answer alike for the schema's version and for the row of the
  -- command: nothing that other commands have done is shown.
  pub show_database-same :
      (events : Bool)
      → show_database lib milliseconds d (record { events = events; command_id = some id })
        ≡ show_database lib milliseconds e (record { events = events; command_id = some id })
  unfolding show_database show_header
  show_database-same events =
      rw (validate_schema-same, show_command_header-same, fun_ext (show_sections-same events))
