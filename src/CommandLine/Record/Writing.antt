-- ===== src/CommandLine/Record/Writing.antt =====
-- What is left of a recording: everything, or nothing.
use whyrun.Store.Writer.{
  closing, write_end, RunMetadata, write_header, emit_all, finish, destroy, execute_script,
  execute_statement,
}
use whyrun.Collector.Loop.{Collection}
use whyrun.CommandLine.Record.{
  Request, World, write_capsule, destroyed, finished_by, collected_by, constructed_by,
}
use whyrun.Common.Actions.{go_on, >>=-eq-ok}
use whyrun.Common.Int.{pos, as_i64}
use whyrun.Common.{
  ◌^◌, ◌<◌, ◌≡◌, refl, sym, ap, ◌∙◌, false, List, [], ◌∷◌, some, Bytes, Error, Result, err, ok,
  arith,
}
use whyrun.Event.{Event}
use whyrun.Store.Activity.{total}
use whyrun.Store.Sqlite.{Sqlite, IsLawful, commit}
use whyrun.Store.Tables.{Tables, no_rows, end_run, effect, changed, update_runs, set_runs}
use whyrun.Store.Writer.Rows.{Agrees}
use whyrun.Store.Writer.Atomic.{
  Inside, write_header-Contained, emit_all-Contained, execute_statement-Contained,
}
use whyrun.Store.Writer.Header.{
  header_tables, run_row, header_tables-Agrees, write_header-tables, rows_of, emit_all-Agrees,
  Written,
}
use whyrun.Store.Writer.Steps.{execute_script-ok, execute_statement-changed}

-- The capsule of a run that has ended.
pub record IsComplete (version : Bytes) (run : RunMetadata) (list : List Event)
    (result : Collection) (t : Tables) : Type 0 where
  pub metadata : t.metadata ≡ (header_tables version run).metadata
  pub runs :
      t.runs
      ≡ end_run (as_i64 result.end_ns) result.exit_code (pos result.term_signal) (run_row run ∷ [])
  pub events : t.events ≡ rows_of list []
  pub agree : Agrees t

module _ (db : Sqlite) (lawful : IsLawful db) where
  -- A writer that is not finished leaves nothing.
  destroy-committed :
      (c : db.Connection)
      → db.committed (destroy db (record { database = c; finished = false })) ≡ db.committed c
  unfolding destroy execute_script
  destroy-committed c = ground (arith, lawful.rolls_back c)

  abbrev ended_run : Collection → Tables → Tables
  ended_run result t = record t {
    runs = end_run (as_i64 result.end_ns) result.exit_code (pos result.term_signal) t.runs;
  }

  update_runs-effect :
      (result : Collection) (t : Tables)
      → effect (update_runs (as_i64 result.end_ns) result.exit_code (pos result.term_signal)) t
        ≡ changed (ended_run result t)
  unfolding effect
  update_runs-effect result t = refl

  write_end-ok :
      (result : Collection) (c : db.Connection) {d : db.Connection}
      → write_end db result c ≡ (ok tt, d)
      → db.committed d ≡ ended_run result (db.tables c)
  unfolding write_end
  write_end-ok result c returns =
      let (_, u, first, second) =
        >>=-eq-ok
          (execute_statement db set_runs
            (ok (update_runs (as_i64 result.end_ns) result.exit_code (pos result.term_signal))))
          (λ _. execute_script db commit) {s = c} returns in
      let (succeeds, after) = execute_script-ok db commit u second in
      ap db.committed after
      ∙ lawful.commits u succeeds
      ∙ execute_statement-changed db lawful set_runs _ c _ first
          (update_runs-effect result (db.tables c))

  commit_failed :
      (u d : db.Connection) (e : Error)
      → execute_script db commit u ≡ (err e, d)
      → db.committed d ≡ db.committed u
  unfolding execute_script
  commit_failed u d e throws = ground (arith, lawful.fails_to_commit u)

  after_run :
      (c d : db.Connection) (e : Error) (first : Result Unit × db.Connection)
      → db.committed first.1 ≡ db.committed c
      → go_on first.0 (λ _. execute_script db commit) first.1 ≡ (err e, d)
      → db.committed d ≡ db.committed c
  after_run c d e (err e', u) same throws = let is_u : u ≡ d = cc in rw (← is_u) same
  after_run c d e (ok _, u) same throws = commit_failed u d e throws ∙ same

  write_end-err :
      (result : Collection) (c d : db.Connection) (e : Error)
      → Inside db c
      → write_end db result c ≡ (err e, d)
      → db.committed d ≡ db.committed c
  unfolding write_end
  write_end-err result c d e inside throws =
      after_run c d e
        (execute_statement db set_runs
          (ok (update_runs (as_i64 result.end_ns) result.exit_code (pos result.term_signal))) c)
        ((execute_statement-Contained db lawful set_runs
            (ok (update_runs (as_i64 result.end_ns) result.exit_code (pos result.term_signal)))).at
          c inside).0
        throws

module _ (db : Sqlite) (lawful : IsLawful db) (world : World db) (run : RunMetadata)
    (list : List Event) where
  -- What a recording leaves: everything that it has recorded, or no rows at all.
  abbrev pub AllOrNothing : Result Collection → Result Collection × db.Connection → Type 0
  AllOrNothing collected (err e, d) = db.committed d ≡ no_rows
  AllOrNothing collected (ok result, d) =
      (collected ≡ ok result) × IsComplete world.version run list result (db.committed d)

  at_end :
      (result : Collection) (c : db.Connection) (first : Result Unit × db.Connection)
      → Inside db c
      → db.committed c ≡ no_rows
      → Written list (header_tables world.version run) (db.tables c)
      → write_end db result c ≡ first
      → AllOrNothing (ok result) (destroyed world result (closing db first.0 first.1))
  unfolding destroy
  at_end result c (err e, d) inside nothing written same =
      destroy-committed db lawful d ∙ write_end-err db lawful result c d e inside same ∙ nothing
  at_end result c (ok _, d) inside nothing written same =
      rw (write_end-ok db lawful result c same) (
        refl,
        record {
          metadata = written.metadata;
          runs =
              ap (end_run (as_i64 result.end_ns) result.exit_code (pos result.term_signal))
                written.runs;
          events = written.events;
          agree = record {
            files = written.agree.files;
            network = written.agree.network;
            commands = written.agree.commands;
          };
        },
      )

  -- From the result of the collector on.
  finished_by-AllOrNothing :
      (result : Result Collection) (c : db.Connection)
      → Inside db c
      → db.committed c ≡ no_rows
      → Written list (header_tables world.version run) (db.tables c)
      → AllOrNothing result (finished_by world result c)
  unfolding finish
  finished_by-AllOrNothing (err e) c inside nothing written =
      destroy-committed db lawful c ∙ nothing
  finished_by-AllOrNothing (ok result) c inside nothing written =
      at_end result c (write_end db result c) inside nothing written refl

  -- From the emitted events on.
  collected_by-AllOrNothing :
      (result : Result Collection) (c : db.Connection) (first : Result Unit × db.Connection)
      → total (rows_of list []) < 2 ^ 63
      → Inside db c
      → db.committed c ≡ no_rows
      → db.tables c ≡ header_tables world.version run
      → emit_all db list c ≡ first
      → AllOrNothing result (collected_by world result first)
  collected_by-AllOrNothing result c (err e, d) small inside nothing header same =
      destroy-committed db lawful d
      ∙ ap (λ (x : Result Unit × db.Connection). db.committed x.1) (sym same)
      ∙ ((emit_all-Contained db lawful list).at c inside).0
      ∙ nothing
  collected_by-AllOrNothing result c (ok _, d) small inside nothing header same =
      let (kept, still) = (emit_all-Contained db lawful list).at c inside in
      let open_still : Inside db d =
        ap (λ (x : Result Unit × db.Connection). db.in_transaction x.1) (sym same)
        ∙ still (ap (λ (x : Result Unit × db.Connection). x.0) same) in
      let unchanged : db.committed d ≡ no_rows =
        ap (λ (x : Result Unit × db.Connection). db.committed x.1) (sym same) ∙ kept ∙ nothing in
      let written =
        emit_all-Agrees db lawful list c (rw header small)
          (rw header (header_tables-Agrees world.version run)) same in
      finished_by-AllOrNothing result d open_still unchanged (rw header at written)

  constructed_by-AllOrNothing :
      (result : Result Collection) (c : db.Connection) (first : Result Unit × db.Connection)
      → total (rows_of list []) < 2 ^ 63
      → db.tables c ≡ no_rows
      → db.committed c ≡ no_rows
      → write_header db world.version run c ≡ first
      → AllOrNothing result (constructed_by world list result first)
  constructed_by-AllOrNothing result c (err e, d) small empty nothing same =
      ap (λ (x : Result Unit × db.Connection). db.committed x.1) (sym same)
      ∙ ((write_header-Contained db lawful world.version run).at c tt).0
      ∙ nothing
  constructed_by-AllOrNothing result c (ok _, d) small empty nothing same =
      let (kept, begun) = (write_header-Contained db lawful world.version run).at c tt in
      let inside : Inside db d =
        ap (λ (x : Result Unit × db.Connection). db.in_transaction x.1) (sym same)
        ∙ begun (ap (λ (x : Result Unit × db.Connection). x.0) same) in
      let unchanged : db.committed d ≡ no_rows =
        ap (λ (x : Result Unit × db.Connection). db.committed x.1) (sym same) ∙ kept ∙ nothing in
      collected_by-AllOrNothing result d (emit_all db list d) small inside unchanged
        (write_header-tables db lawful world.version run c empty same) refl

pub write_capsule-AllOrNothing :
    (db : Sqlite) (lawful : IsLawful db) (world : World db) (run : RunMetadata) (request : Request)
    (path : Bytes) (c : db.Connection)
    → db.open_new path ≡ some c
    → total (rows_of (world.collected request).0 []) < 2 ^ 63
    → AllOrNothing db lawful world run
        (world.collected request).0
        (world.collected request).1
        (write_capsule world run request c)
unfolding write_capsule
write_capsule-AllOrNothing db lawful world run request path c opens small =
    let (empty, nothing) = lawful.opens path c opens in
    constructed_by-AllOrNothing db lawful world run (world.collected request).0
      (world.collected request).1 c (write_header db world.version run c) small empty nothing refl
