-- ===== src/Store/Writer/Atomic.antt =====
-- Nothing that the writer does before its COMMIT can be seen in the capsule.
use whyrun.Store.Tables.{
  insert_run, insert_metadata, insert_event, add_file_activity, into_runs, into_metadata,
  into_events, into_commands, set_commands, into_file_activity, into_network_activity,
  into_processes, ignore_processes, set_processes, Statement, Sql,
}
use whyrun.Store.Writer.{
  run_mode_name, insert_run_row, insert_version, insert_schema, start_row, end_row, file_row,
  connect_row, exec_row, fork_row, exit_row, event_row, RunMetadata, execute_script, execute_bound,
  execute_statement, with_id, write_header, emit, emit_details, emit_all,
}
use whyrun.Store.{format_command}
use whyrun.Common.Int.{as_i64}
use whyrun.Common.{
  ℕ, start_without_id, end_without_id, arith, ◌≡◌, ◌≢◌, refl, ◌∙◌, true, false, List, [], ◌∷◌,
  Option, none, some, Error, Result, err, ok, Bytes, codes,
}
use whyrun.Common.Actions.{Action, ◌>>◌, go_on}
use whyrun.Event.{
  Event, EventType, command_start, command_end, process_exec, process_fork, process_exit, file_open,
  file_read, file_write, network_connect, local_ipc_connect,
}
use whyrun.Store.Sqlite.{
  Sqlite, IsLawful, Script, pragmas, create_tables, begin_immediate, commit, rollback,
}

err_is_ok : {e : Error} → ◌≡◌ {A = Result (Unit {0})} (err e) (ok tt) → ⊥
err_is_ok h = cc

module _ (db : Sqlite) where
  -- Where `P` holds, the step leaves what is committed, and `Q` holds if it has returned.
  pub record Contained (P Q : db.Connection → Type 0) (m : Action db.Connection Unit) : Type 0 where
    pub at :
        (c : db.Connection)
        → P c
        → (db.committed (m c).1 ≡ db.committed c) × ((m c).0 ≡ ok tt → Q (m c).1)

  abbrev pub Anywhere : db.Connection → Type 0
  Anywhere c = Unit

  abbrev pub Inside : db.Connection → Type 0
  Inside c = db.in_transaction c ≡ true

  module _ {Q R : db.Connection → Type 0} (n : Action db.Connection Unit)
      (second : Contained Q R n) where
    joined :
        (c : db.Connection) (first : Result Unit × db.Connection)
        → db.committed first.1 ≡ db.committed c
        → (first.0 ≡ ok tt → Q first.1)
        → (db.committed (go_on first.0 (λ _. n) first.1).1 ≡ db.committed c)
          × ((go_on first.0 (λ _. n) first.1).0 ≡ ok tt → R (go_on first.0 (λ _. n) first.1).1)
    joined c (err e, d) same reached = (same, λ h. absurd (err_is_ok h))
    joined c (ok u, d) same reached =
        let (more, then_reached) = second.at d (reached refl) in (more ∙ same, then_reached)

    pub Contained->> :
        {P : db.Connection → Type 0} (m : Action db.Connection Unit)
        → Contained P Q m
        → Contained P R (m >> n)
    Contained->> m first = record {
      at = λ c h. let (same, reached) = first.at c h in joined c (m c) same reached;
    }

  module _ (lawful : IsLawful db) where
    execute_bound-Contained : (s : Statement) → Contained Inside Inside (execute_bound db s)
    unfolding execute_bound
    execute_bound-Contained s = record {
      at = λ c inside. ground (arith, lawful.isolates s c inside, lawful.stays s c inside);
    }

    pub execute_statement-Contained :
        (sql : Sql) (values : Result Statement)
        → Contained Inside Inside (execute_statement db sql values)
    unfolding execute_statement
    execute_statement-Contained sql (err e) = record { at = λ c inside. ground arith }
    execute_statement-Contained sql (ok s) = record {
      at = λ c inside. ground (arith, (execute_bound-Contained s).at c inside);
    }

    script-Contained :
        (script : Script)
        → script ≢ commit
        → script ≢ rollback
        → Contained Anywhere Anywhere (execute_script db script)
    unfolding execute_script
    script-Contained script not_commit not_rollback = record {
      at = λ c _. ground (arith, lawful.prepares_rows c script not_commit not_rollback);
    }

    begin-Contained : Contained Anywhere Inside (execute_script db begin_immediate)
    unfolding execute_script
    begin-Contained = record {
      at = λ c _.
          ground
            (arith, lawful.prepares_rows c begin_immediate (λ e. cc) (λ e. cc), lawful.begins c);
    }

    pub write_header-Contained :
        (version : Bytes) (run : RunMetadata)
        → Contained Anywhere Inside (write_header db version run)
    unfolding write_header
    write_header-Contained version run =
        let run_in = execute_statement-Contained into_runs (
          ok (
            insert_run run.id (run_mode_name run.mode) (format_command run.command) run.cwd
              (as_i64 run.start_ns))) in
        let version_in = Contained->> (insert_run_row db run) run_in (insert_version db version) (
          execute_statement-Contained into_metadata
            (ok (insert_metadata (codes "tool_version") version))) in
        let schema_in =
          Contained->> (insert_version db version >> insert_run_row db run) version_in
            (insert_schema db)
            (execute_statement-Contained into_metadata
              (ok (insert_metadata (codes "schema_version") (codes "3")))) in
        let begun =
          Contained->> (insert_schema db >> insert_version db version >> insert_run_row db run)
            schema_in (execute_script db begin_immediate) begin-Contained in
        let created =
          Contained->>
            (execute_script db begin_immediate
              >> insert_schema db
              >> insert_version db version
              >> insert_run_row db run)
            begun (execute_script db create_tables)
            (script-Contained create_tables (λ e. cc) (λ e. cc)) in
        Contained->>
          (execute_script db create_tables
            >> execute_script db begin_immediate
            >> insert_schema db
            >> insert_version db version
            >> insert_run_row db run)
          created (execute_script db pragmas) (script-Contained pragmas (λ e. cc) (λ e. cc))

    nothing-Contained : Contained Inside Inside (λ c. (ok tt, c))
    nothing-Contained = record { at = λ c inside. (refl, λ _. inside) }

    thrown-Contained : (e : Error) → Contained Inside Inside (λ c. (err e, c))
    thrown-Contained e = record { at = λ c inside. (refl, λ _. inside) }

    with_id-Contained :
        (id : Option ℕ) (missing : Error) (next : ℕ → Action db.Connection Unit)
        → ((i : ℕ) → Contained Inside Inside (next i))
        → Contained Inside Inside (with_id db id missing next)
    with_id-Contained none missing next then_contained = thrown-Contained missing
    with_id-Contained (some i) missing next then_contained = then_contained i

    emit_details-Contained :
        (type : EventType) (event : Event) → Contained Inside Inside (emit_details db type event)
    unfolding emit_details
    emit_details-Contained command_start event =
        with_id-Contained event.command_id start_without_id _
          (λ id. execute_statement-Contained into_commands (start_row event id))
    emit_details-Contained command_end event =
        with_id-Contained event.command_id end_without_id _
          (λ id. execute_statement-Contained set_commands (ok (end_row event id)))
    emit_details-Contained file_read event =
        execute_statement-Contained into_file_activity
          (ok (add_file_activity (file_row event.resource true event.result)))
    emit_details-Contained file_write event =
        execute_statement-Contained into_file_activity
          (ok (add_file_activity (file_row event.resource false event.result)))
    emit_details-Contained network_connect event =
        execute_statement-Contained into_network_activity (ok (connect_row event))
    emit_details-Contained process_exec event =
        execute_statement-Contained into_processes (exec_row event)
    emit_details-Contained process_fork event =
        execute_statement-Contained ignore_processes (fork_row event)
    emit_details-Contained process_exit event =
        execute_statement-Contained set_processes (exit_row event)
    emit_details-Contained file_open event = nothing-Contained
    emit_details-Contained local_ipc_connect event = nothing-Contained

    emit-Contained : (event : Event) → Contained Inside Inside (emit db event)
    unfolding emit
    emit-Contained event =
        Contained->> (emit_details db event.type event) (emit_details-Contained event.type event)
          (execute_statement db into_events (ok (insert_event (event_row event))))
          (execute_statement-Contained into_events (ok (insert_event (event_row event))))

    pub emit_all-Contained : (events : List Event) → Contained Inside Inside (emit_all db events)
    unfolding emit_all
    emit_all-Contained [] = record { at = λ c inside. (refl, λ _. inside) }
    emit_all-Contained (event ∷ events) =
        Contained->> (emit_all db events) (emit_all-Contained events) (emit db event)
          (emit-Contained event)
