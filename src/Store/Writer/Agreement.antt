-- ===== src/Store/Writer/Agreement.antt =====
-- The tables that `emit` of src/sqlite_store.cpp keeps up to date agree with the events that it has
-- written.
use whyrun.Store.Writer.Rows.{
  Agrees, OnlyProcesses, effect-end, exec_row-OnlyProcesses, exit_row-OnlyProcesses,
  fork_row-OnlyProcesses, insert_command-effect, processes-Agrees, true_is_false,
}
use whyrun.Common.{
  equal_iff, start_without_id, end_without_id, Bool, false, ℕ, ◌^◌, ◌<◌, ◌≡◌, refl, sym, ap, ◌∙◌,
  true, [], ◌∷◌, Option, none, some, codes, equal, Result, ok, >>=-eq-ok, inl, inr,
}
use whyrun.Store.Tables.{
  into_processes, ignore_processes, set_processes, insert_command, into_commands, set_commands,
  update_row, CommandRow, end_command, merged_file, add_file_activity, into_network_activity,
  into_file_activity, Sql, Tables, Statement,
}
use whyrun.Store.Writer.{
  with_id, start_row, end_row, metadata_value, execute_statement, connect_row, emit_details,
  event_row, exec_row, fork_row, exit_row, file_row, number_of,
}
use whyrun.Common.Map.{int_key}
use whyrun.Store.Activity.Files.{
  file_total, file_total-other, file_total-read, file_total-write, effect-file, with_file,
  with_file-FilesAgree,
}
use whyrun.Collector.Calls.{ok-injective}
use whyrun.Common.Int.{pos, as_i64}
use whyrun.Event.{
  Event, EventType, event_type_name, command_start, command_end, process_exec, process_fork,
  process_exit, file_open, file_read, file_write, network_connect, local_ipc_connect,
}
use whyrun.Store.Activity.Commands.{
  CommandsAgree, command_state-other, start-CommandsAgree, end-CommandsAgree,
}
use whyrun.Store.Activity.Network.{
  network_total-other, effect-network, with_connection, with_connection-NetworkAgrees,
}
use whyrun.Store.Activity.{total}
use whyrun.Store.Sqlite.{Sqlite, IsLawful}
use whyrun.Store.Writer.Steps.{execute_statement-ok, execute_statement-changed}

-- What `emit` leaves: one more event, and tables that agree.
pub record Emitted (event : Event) (t d : Tables) : Type 0 where
  pub events : d.events ≡ event_row event ∷ t.events
  pub runs : d.runs ≡ t.runs
  pub metadata : d.metadata ≡ t.metadata
  pub agree : Agrees d

module _ (db : Sqlite) (lawful : IsLawful db) (event : Event) (t : Tables) (agree : Agrees t)
    (small : total (event_row event ∷ t.events) < 2 ^ 63) (u : db.Connection)
    (added : db.tables u ≡ record t { events = event_row event ∷ t.events }) where
  processes-Emitted :
      (sql : Sql) (values : Result Statement)
      → ((s : Statement) → values ≡ ok s → OnlyProcesses s)
      → {d : db.Connection} → execute_statement db sql values u ≡ (ok tt, d)
      → equal (event_type_name event.type) (codes "file_read") ≡ false
      → equal (event_type_name event.type) (codes "file_write") ≡ false
      → equal (event_type_name event.type) (codes "network_connect") ≡ false
      → equal (event_type_name event.type) (codes "command_start") ≡ false
      → equal (event_type_name event.type) (codes "command_end") ≡ false
      → Emitted event t (db.tables d)
  unfolding event_row
  processes-Emitted sql values only returns not_read not_write not_connect not_start not_end =
      let (s, read, done, after) = execute_statement-ok db sql values u returns in
      let (processes, says) = only s read (record t { events = event_row event ∷ t.events }) in
      let result = ap db.tables after ∙ lawful.changes s u _ (rw added says) done in
      rw result (record {
        events = refl;
        runs = refl;
        metadata = refl;
        agree =
            processes-Agrees t (event_row event) agree processes not_read not_write not_connect
              not_start not_end;
      })

  nothing-Emitted :
      equal (event_type_name event.type) (codes "file_read") ≡ false
      → equal (event_type_name event.type) (codes "file_write") ≡ false
      → equal (event_type_name event.type) (codes "network_connect") ≡ false
      → equal (event_type_name event.type) (codes "command_start") ≡ false
      → equal (event_type_name event.type) (codes "command_end") ≡ false
      → Emitted event t (db.tables u)
  unfolding event_row
  nothing-Emitted not_read not_write not_connect not_start not_end = rw added (record {
    events = refl;
    runs = refl;
    metadata = refl;
    agree =
        processes-Agrees t (event_row event) agree t.processes not_read not_write not_connect
          not_start not_end;
  })

  file-Emitted :
      (is_read : Bool) {d : db.Connection}
      → execute_statement db into_file_activity
          (ok (add_file_activity (file_row event.resource is_read event.result)))
          u
        ≡ (ok tt, d)
      → file_total event.resource (event_row event ∷ t.events)
        ≡ some (
            merged_file
              (file_row event.resource is_read event.result)
              (file_total event.resource t.events))
      → equal (event_type_name event.type) (codes "network_connect") ≡ false
      → equal (event_type_name event.type) (codes "command_start") ≡ false
      → equal (event_type_name event.type) (codes "command_end") ≡ false
      → Emitted event t (db.tables d)
  unfolding event_row file_row
  file-Emitted is_read returns adds not_connect not_start not_end =
      let f = file_row event.resource is_read event.result in
      let result =
        execute_statement-changed db lawful into_file_activity (add_file_activity f) u
          (with_file (record t { events = event_row event ∷ t.events }) f) returns
          (rw added (effect-file t (event_row event) f agree.files small refl adds)) in
      rw result (record {
        events = refl;
        runs = refl;
        metadata = refl;
        agree = record {
          files = with_file-FilesAgree t (event_row event) f agree.files small refl adds;
          network = λ endpoint.
              agree.network endpoint
              ∙ sym (network_total-other endpoint (event_row event) t.events not_connect);
          commands = λ id.
              agree.commands id
              ∙ sym (command_state-other id (event_row event) t.events not_start not_end);
        };
      })

  network-Emitted :
      {d : db.Connection}
      → execute_statement db into_network_activity (ok (connect_row event)) u ≡ (ok tt, d)
      → event.type ≡ network_connect
      → Emitted event t (db.tables d)
  unfolding event_row connect_row event_type_name equal
  network-Emitted returns connects =
      let is_connect : equal (event_type_name event.type) (codes "network_connect") ≡ true =
        rw connects refl in
      let result =
        execute_statement-changed db lawful into_network_activity (connect_row event) u
          (with_connection t (event_row event) agree.network small is_connect) returns
          (rw added (effect-network t (event_row event) agree.network small is_connect)) in
      rw result (record {
        events = refl;
        runs = refl;
        metadata = refl;
        agree = record {
          files = λ path.
              agree.files path
              ∙ sym (
                  file_total-other path (event_row event) t.events (rw connects refl)
                    (rw connects refl));
          network =
              with_connection-NetworkAgrees t (event_row event) agree.network small is_connect;
          commands = λ id.
              agree.commands id
              ∙ sym (
                  command_state-other id (event_row event) t.events (rw connects refl)
                    (rw connects refl));
        };
      })

  started_as :
      (v : Tables) (row : CommandRow)
      → (v ≡ record t { events = event_row event ∷ t.events; commands = row ∷ t.commands })
        × CommandsAgree v
      → event.type ≡ command_start
      → Emitted event t v
  unfolding event_row event_type_name equal
  started_as v row (is_v, commands) starts = record {
    events = rw is_v refl;
    runs = rw is_v refl;
    metadata = rw is_v refl;
    agree = record {
      files = rw is_v (λ path.
          agree.files path
          ∙ sym
              (file_total-other path (event_row event) t.events (rw starts refl) (rw starts refl)));
      network = rw is_v (λ endpoint.
          agree.network endpoint
          ∙ sym (network_total-other endpoint (event_row event) t.events (rw starts refl)));
      commands = commands;
    };
  }

  start-Emitted :
      (values : Option ℕ) {d : db.Connection}
      → values ≡ event.command_id
      → with_id db values start_without_id
          (λ id. execute_statement db into_commands (start_row event id))
          u
        ≡ (ok tt, d)
      → event.type ≡ command_start
      → Emitted event t (db.tables d)
  unfolding event_row start_row event_type_name equal
  start-Emitted none same returns starts = cc
  start-Emitted (some id) same returns starts =
      let (s, read, done, after) =
        execute_statement-ok db into_commands (start_row event id) u returns in
      let (sequence, _, is_s) =
        >>=-eq-ok (number_of event.metadata (codes "sequence") (codes "0")) _ read in
      let of_id : (event_row event).command_id ≡ some (as_i64 id) = rw (← same) refl in
      let cwd = metadata_value event.metadata (codes "cwd") [] in
      let t' : Tables = record t { events = event_row event ∷ t.events } in
      let same_s : insert_command (as_i64 id) sequence (pos event.pid) event.resource cwd
            (as_i64 event.timestamp_ns)
          ≡ s =
        ok-injective is_s in
      elim (insert_command-effect (as_i64 id) sequence (pos event.pid) event.resource cwd
        (as_i64 event.timestamp_ns) t') [
          | inl refused ↦
              absurd
                (true_is_false (sym done ∙ lawful.conflicts s u (rw (added, ← same_s) refused)))
          | inr (v, says) ↦
              let result =
                ap db.tables after ∙ lawful.changes s u v (rw (added, ← same_s) says) done in
              rw result (
                started_as v _
                  (start-CommandsAgree t (event_row event) agree.commands (as_i64 id) of_id
                    (rw starts refl) sequence (pos event.pid) event.resource cwd
                    (as_i64 event.timestamp_ns) v says)
                  starts)
        ]

  end-Emitted :
      (values : Option ℕ) {d : db.Connection}
      → values ≡ event.command_id
      → with_id db values end_without_id
          (λ id. execute_statement db set_commands (ok (end_row event id)))
          u
        ≡ (ok tt, d)
      → event.type ≡ command_end
      → Emitted event t (db.tables d)
  unfolding event_row end_row event_type_name equal
  end-Emitted none same returns ends = cc
  end-Emitted (some id) same returns ends =
      let of_id : (event_row event).command_id ≡ some (as_i64 id) = rw (← same) refl in
      let result =
        execute_statement-changed db lawful set_commands (end_row event id) u
          (record t {
            events = event_row event ∷ t.events;
            commands =
                update_row (λ (r : CommandRow). r.id) (as_i64 id)
                  (end_command (as_i64 event.timestamp_ns)
                    (metadata_value event.metadata (codes "cwd") []) event.result)
                  t.commands;
          })
          returns
          (rw added (
            effect-end (as_i64 event.timestamp_ns) (metadata_value event.metadata (codes "cwd") [])
              event.result (as_i64 id) (record t { events = event_row event ∷ t.events }))) in
      rw result (record {
        events = refl;
        runs = refl;
        metadata = refl;
        agree = record {
          files = λ path.
              agree.files path
              ∙ sym
                  (file_total-other path (event_row event) t.events (rw ends refl) (rw ends refl));
          network = λ endpoint.
              agree.network endpoint
              ∙ sym (network_total-other endpoint (event_row event) t.events (rw ends refl));
          commands =
              end-CommandsAgree t (event_row event) agree.commands (as_i64 id) of_id (rw ends refl)
                (rw ends refl) _ _;
        };
      })

  -- What `emit` does behind the row keeps the agreement.
  pub details-Emitted :
      (type : EventType) {d : db.Connection}
      → event.type ≡ type
      → emit_details db type event u ≡ (ok tt, d)
      → Emitted event t (db.tables d)
  unfolding emit_details event_type_name equal event_row
  details-Emitted command_start is_type returns =
      start-Emitted event.command_id refl returns is_type
  details-Emitted command_end is_type returns = end-Emitted event.command_id refl returns is_type
  details-Emitted file_read is_type returns =
      file-Emitted true returns
        (file_total-read (event_row event) t.events event.resource
          ((equal_iff event.resource event.resource).1 refl) (ap event_type_name is_type))
        (rw is_type refl) (rw is_type refl) (rw is_type refl)
  details-Emitted file_write is_type returns =
      file-Emitted false returns
        (file_total-write (event_row event) t.events event.resource
          ((equal_iff event.resource event.resource).1 refl) (ap event_type_name is_type))
        (rw is_type refl) (rw is_type refl) (rw is_type refl)
  details-Emitted network_connect is_type returns = network-Emitted returns is_type
  details-Emitted process_exec is_type returns =
      processes-Emitted into_processes (exec_row event) (exec_row-OnlyProcesses event) returns
        (rw is_type refl) (rw is_type refl) (rw is_type refl) (rw is_type refl) (rw is_type refl)
  details-Emitted process_fork is_type returns =
      processes-Emitted ignore_processes (fork_row event) (fork_row-OnlyProcesses event) returns
        (rw is_type refl) (rw is_type refl) (rw is_type refl) (rw is_type refl) (rw is_type refl)
  details-Emitted process_exit is_type returns =
      processes-Emitted set_processes (exit_row event) (exit_row-OnlyProcesses event) returns
        (rw is_type refl) (rw is_type refl) (rw is_type refl) (rw is_type refl) (rw is_type refl)
  details-Emitted file_open {d} is_type returns =
      let same : d ≡ u = cc in
      rw same (
        nothing-Emitted (rw is_type refl) (rw is_type refl) (rw is_type refl) (rw is_type refl)
          (rw is_type refl))
  details-Emitted local_ipc_connect {d} is_type returns =
      let same : d ≡ u = cc in
      rw same (
        nothing-Emitted (rw is_type refl) (rw is_type refl) (rw is_type refl) (rw is_type refl)
          (rw is_type refl))
