-- ===== src/Store/Writer/Header.antt =====
-- The tables behind the constructor of the writer, and behind the events that it is given.
use whyrun.Common.Actions.{>>=-eq-ok, ◌>>◌}
use whyrun.Common.Int.{ℤ, as_i64}
use whyrun.Common.{◌^◌, ◌≤◌, ◌<◌, ◌≡◌, ◌≢◌, refl, ap, ◌∙◌, List, [], ◌∷◌, Bytes, codes, ok, arith}
use whyrun.Event.{Event}
use whyrun.Store.Activity.{total, calls}
use whyrun.Store.Activity.Commands.{command_state}
use whyrun.Store.Activity.Files.{file_total, row_of}
use whyrun.Store.Activity.Network.{network_total}
use whyrun.Store.Sqlite.{
  Sqlite, IsLawful, Script, pragmas, create_tables, begin_immediate, commit, rollback,
}
use whyrun.Store.Tables.{
  Tables, no_rows, EventRow, RunRow, new_run, effect, changed, find_row, insert_metadata,
  insert_run, into_metadata, into_runs,
}
use whyrun.Store.Writer.Rows.{Agrees}
use whyrun.Store.Writer.Agreement.{Emitted, details-Emitted}
use whyrun.Store.Writer.Steps.{execute_script-ok, execute_statement-changed, emit-ok}
use whyrun.Store.Writer.{
  RunMode, command, session, RunMetadata, run_mode_name, insert_schema, insert_version,
  insert_run_row, execute_script, write_header, emit, emit_all, event_row,
}
use whyrun.Store.{format_command}

-- The run while it is recorded.
abbrev pub run_row : RunMetadata → RunRow
run_row run =
    new_run run.id (run_mode_name run.mode) (format_command run.command) run.cwd
      (as_i64 run.start_ns)

abbrev pub header_tables : Bytes → RunMetadata → Tables
header_tables version run = record no_rows {
  metadata = (codes "tool_version", version) ∷ (codes "schema_version", codes "3") ∷ [];
  runs = run_row run ∷ [];
}

pub header_tables-Agrees :
    (version : Bytes) (run : RunMetadata) → Agrees (header_tables version run)
unfolding find_row file_total row_of calls network_total command_state
header_tables-Agrees version run = record {
  files = λ path. refl;
  network = λ endpoint. refl;
  commands = λ id. refl;
}

schema-effect :
    effect (insert_metadata (codes "schema_version") (codes "3")) no_rows
    ≡ changed (record no_rows { metadata = (codes "schema_version", codes "3") ∷ [] })
unfolding effect
schema-effect = refl

version-effect :
    (version : Bytes)
    → effect
        (insert_metadata (codes "tool_version") version)
        (record no_rows { metadata = (codes "schema_version", codes "3") ∷ [] })
      ≡ changed (record no_rows {
        metadata = (codes "tool_version", version) ∷ (codes "schema_version", codes "3") ∷ [];
      })
unfolding effect
version-effect version = refl

insert_run-effect :
    (id cwd text : Bytes) (mode : RunMode) (start_ns : ℤ) (t : Tables)
    → t.runs ≡ []
    → effect (insert_run id (run_mode_name mode) text cwd start_ns) t
      ≡ changed (record t { runs = new_run id (run_mode_name mode) text cwd start_ns ∷ [] })
unfolding effect run_mode_name
insert_run-effect id cwd text command start_ns t no_runs = rw no_runs refl
insert_run-effect id cwd text session start_ns t no_runs = rw no_runs refl

module _ (db : Sqlite) (lawful : IsLawful db) where
  script_rows :
      (script : Script) (c : db.Connection) {d : db.Connection}
      → script ≢ commit
      → script ≢ rollback
      → execute_script db script c ≡ (ok tt, d)
      → db.tables d ≡ db.tables c
  script_rows script c not_commit not_rollback returns =
      let (succeeds, after) = execute_script-ok db script c returns in
      ap db.tables after ∙ (lawful.prepares_rows c script not_commit not_rollback).0

  pub write_header-tables :
      (version : Bytes) (run : RunMetadata) (c : db.Connection) {d : db.Connection}
      → db.tables c ≡ no_rows
      → write_header db version run c ≡ (ok tt, d)
      → db.tables d ≡ header_tables version run
  unfolding write_header
  write_header-tables version run c fresh returns =
      let (_, u1, last1, rest1) =
        >>=-eq-ok (execute_script db pragmas)
          (λ _.
            execute_script db create_tables
            >> execute_script db begin_immediate
            >> insert_schema db
            >> insert_version db version
            >> insert_run_row db run)
          {s = c} returns in
      let (_, u2, last2, rest2) =
        >>=-eq-ok (execute_script db create_tables)
          (λ _.
            execute_script db begin_immediate
            >> insert_schema db
            >> insert_version db version
            >> insert_run_row db run)
          {s = u1} rest1 in
      let (_, u3, last3, rest3) =
        >>=-eq-ok (execute_script db begin_immediate)
          (λ _. insert_schema db >> insert_version db version >> insert_run_row db run) {s = u2}
          rest2 in
      let is_fresh : db.tables u3 ≡ no_rows =
        script_rows begin_immediate u2 (λ e. cc) (λ e. cc) last3
        ∙ script_rows create_tables u1 (λ e. cc) (λ e. cc) last2
        ∙ script_rows pragmas c (λ e. cc) (λ e. cc) last1
        ∙ fresh in
      let (_, u4, last4, rest4) =
        >>=-eq-ok (insert_schema db) (λ _. insert_version db version >> insert_run_row db run)
          {s = u3} rest3 in
      let (_, u5, last5, last6) =
        >>=-eq-ok (insert_version db version) (λ _. insert_run_row db run) {s = u4} rest4 in
      let with_schema =
        execute_statement-changed db lawful into_metadata _ u3
          (record no_rows { metadata = (codes "schema_version", codes "3") ∷ [] }) last4
          (rw is_fresh (schema-effect)) in
      let with_version =
        execute_statement-changed db lawful into_metadata _ u4
          (record no_rows {
            metadata = (codes "tool_version", version) ∷ (codes "schema_version", codes "3") ∷ [];
          })
          last5 (rw with_schema (version-effect version)) in
      execute_statement-changed db lawful into_runs _ u5 (header_tables version run) last6 (
        rw with_version (
          insert_run-effect run.id run.cwd (format_command run.command) run.mode
            (as_i64 run.start_ns) _ refl))

-- The rows of the events, the newest first.
unfoldable pub rows_of : List Event → List EventRow → List EventRow
rows_of [] rows = rows
rows_of (event ∷ events) rows = rows_of events (event_row event ∷ rows)

total-rows_of :
    (events : List Event) (rows : List EventRow) → total rows ≤ total (rows_of events rows)
unfolding rows_of total
total-rows_of [] rows = omega arith
total-rows_of (event ∷ events) rows = omega (arith, total-rows_of events (event_row event ∷ rows))

-- What is left of the tables `t` by the events.
pub record Written (list : List Event) (t d : Tables) : Type 0 where
  pub events : d.events ≡ rows_of list t.events
  pub runs : d.runs ≡ t.runs
  pub metadata : d.metadata ≡ t.metadata
  pub agree : Agrees d

module _ (db : Sqlite) (lawful : IsLawful db) where
  emit-Emitted :
      (event : Event) (c : db.Connection) {d : db.Connection}
      → total (event_row event ∷ (db.tables c).events) < 2 ^ 63
      → Agrees (db.tables c)
      → emit db event c ≡ (ok tt, d)
      → Emitted event (db.tables c) (db.tables d)
  emit-Emitted event c small agree returns =
      let (u, added, rest) = emit-ok db lawful event c returns in
      details-Emitted db lawful event (db.tables c) agree small u added event.type refl rest

  pub emit_all-Agrees :
      (events : List Event) (c : db.Connection) {d : db.Connection}
      → total (rows_of events (db.tables c).events) < 2 ^ 63
      → Agrees (db.tables c)
      → emit_all db events c ≡ (ok tt, d)
      → Written events (db.tables c) (db.tables d)
  unfolding emit_all rows_of
  emit_all-Agrees [] c {d} small agree returns =
      let same : d ≡ c = cc in
      rw same (record { events = refl; runs = refl; metadata = refl; agree = agree })
  emit_all-Agrees (event ∷ events) c small agree returns =
      let (_, u, first, rest) =
        >>=-eq-ok (emit db event) (λ _. emit_all db events) {s = c} returns in
      let one =
        emit-Emitted event c
          (omega (arith, total-rows_of events (event_row event ∷ (db.tables c).events))) agree
          first in
      let more = emit_all-Agrees events u (rw one.events small) one.agree rest in
      record {
        events = more.events ∙ ap (rows_of events) one.events;
        runs = more.runs ∙ one.runs;
        metadata = more.metadata ∙ one.metadata;
        agree = more.agree;
      }
