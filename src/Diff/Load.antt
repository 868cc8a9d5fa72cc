-- ===== src/Diff/Load.antt =====
-- src/diff.cpp: `load_summary` and `diff_capsules`.
pub mod Ordered
pub mod Silent
pub mod Itself
use whyrun.Common.Int.{ℤ, pos, negsuc}
use whyrun.Common.Output.{Output, print, fail, give, ◌>>=◌, ◌>>◌}
use whyrun.Common.{
  ℕ, ◌&&◌, not, Bool, true, false, List, [], ◌∷◌, ◌++◌, Option, none, some, Bytes, codes, equal,
  leb, ltb, ◌==◌, if◌then◌else◌, Result, err, ok, missing_run,
}
use whyrun.Diff.{Counts, Activity, Summary, diff_text}
use whyrun.Reader.{Cursor, Reading, open_capsule, prepare, next, text, validate_schema, each_row}
use whyrun.Store.Metadata.{less}

-- `map[name] = counts`
unfoldable pub put_counts : Bytes → Counts → Activity → Activity
unfolding equal less
put_counts name counts [] = (name, counts) ∷ []
put_counts name counts ((n, c) ∷ m) =
    let rest = put_counts name counts m in
    if equal n name
    then (name, counts) ∷ m
    else if less n name
    then (n, c) ∷ rest
    else (name, counts) ∷ (n, c) ∷ m

-- `set.insert(value)`
unfoldable pub insert_value : Bytes → List Bytes → List Bytes
unfolding equal less
insert_value value [] = value ∷ []
insert_value value (v ∷ values) =
    let rest = insert_value value values in
    if equal v value then v ∷ values else if less v value then v ∷ rest else value ∷ v ∷ values

abbrev pub empty_summary : Summary
empty_summary = record {
  exit_code = pos 0;
  session = false;
  reads = [];
  writes = [];
  network = [];
  local_ipc = [];
  executables = [];
  commands = [];
}

abbrev pub is_positive : ℤ → Bool
is_positive (pos n) = ltb 0 n
is_positive (negsuc n) = false

-- The queries, without a parameter.
abbrev pub exit_query : Bytes
exit_query = codes "SELECT exit_code FROM runs LIMIT 1"

abbrev pub mode_query : Bytes
mode_query = codes "SELECT mode FROM runs LIMIT 1"

abbrev pub commands_query : Bytes
commands_query = codes "SELECT DISTINCT command FROM commands ORDER BY command"

abbrev pub files_query : Bytes
files_query =
    codes "SELECT path, read_calls, write_calls, bytes_read, bytes_written FROM file_activity"

abbrev pub network_query : Bytes
network_query =
    codes "SELECT endpoint, connect_count, success_count, failure_count FROM network_activity"

abbrev pub ipc_query : Bytes
ipc_query =
    codes "SELECT resource, COUNT(*), SUM(CASE WHEN errno_value=0 THEN 1 ELSE 0 END), "
    ++ codes "SUM(CASE WHEN errno_value>0 THEN 1 ELSE 0 END) "
    ++ codes "FROM events WHERE type='local_ipc_connect' GROUP BY resource"

abbrev pub executables_query : Bytes
executables_query =
    codes "SELECT DISTINCT executable FROM processes WHERE executable IS NOT NULL "
    ++ codes "AND executable<>'' ORDER BY executable"

abbrev pub if_positive : ℤ → Activity → Activity → Activity
if_positive count more m = if is_positive count then more else m

abbrev pub code_of : Result (Unit {0}) → ℕ
code_of (err e) = 1
code_of (ok _) = 0

module _ (lib : Reading) where
  abbrev pub file_counts : lib.Row → ℕ → ℕ → Counts
  file_counts r calls bytes = record {
    calls = lib.column_int64 r calls;
    successes = pos 0;
    failures = pos 0;
    bytes = lib.column_int64 r bytes;
  }

  abbrev connect_counts : lib.Row → Counts
  connect_counts r = record {
    calls = lib.column_int64 r 1;
    successes = lib.column_int64 r 2;
    failures = lib.column_int64 r 3;
    bytes = pos 0;
  }

  unfoldable pub add_files : lib.Row → Summary → Summary
  unfolding text put_counts
  add_files r s = record s {
    reads =
        if_positive (lib.column_int64 r 1) (put_counts (text lib r 0) (file_counts r 1 3) s.reads)
          s.reads;
    writes =
        if_positive (lib.column_int64 r 2) (put_counts (text lib r 0) (file_counts r 2 4) s.writes)
          s.writes;
  }

  unfoldable pub add_network : lib.Row → Summary → Summary
  unfolding text put_counts
  add_network r s = record s { network = put_counts (text lib r 0) (connect_counts r) s.network }

  unfoldable pub add_ipc : lib.Row → Summary → Summary
  unfolding text put_counts
  add_ipc r s = record s { local_ipc = put_counts (text lib r 0) (connect_counts r) s.local_ipc }

  unfoldable pub add_executable : lib.Row → Summary → Summary
  unfolding text insert_value
  add_executable r s = record s { executables = insert_value (text lib r 0) s.executables }

  unfoldable pub add_command : lib.Row → Summary → Summary
  unfolding text insert_value
  add_command r s = record s { commands = insert_value (text lib r 0) s.commands }

  -- A statement whose rows are added one by one.
  unfoldable pub add_rows :
      lib.Database → Bytes → (lib.Row → Summary → Summary) → Summary → Output Summary
  unfolding prepare each_row
  add_rows database sql add s =
      prepare lib database sql >>= λ c. each_row lib (λ r s. give (add r s)) c s

  abbrev pub exit_row : Summary → Option (lib.Row × Cursor lib.Row) → Output Summary
  exit_row s none = fail missing_run
  exit_row s (some (r, rest)) = give (record s { exit_code = lib.column_int64 r 0 })

  unfoldable pub load_exit : lib.Database → Summary → Output Summary
  unfolding prepare
  load_exit database s = prepare lib database exit_query >>= λ c. next lib c >>= exit_row s

  abbrev pub mode_row : Summary → Option (lib.Row × Cursor lib.Row) → Output Summary
  mode_row s none = give s
  mode_row s (some (r, rest)) = give (record s { session = equal (text lib r 0) (codes "session") })

  abbrev pub load_commands : lib.Database → Summary → Output Summary
  load_commands database s =
      if s.session then add_rows database commands_query add_command s else give s

  -- From the second version of the schema on.
  unfoldable pub load_mode : lib.Database → ℕ → Summary → Output Summary
  unfolding prepare equal
  load_mode database schema_version s =
      if leb 2 schema_version
      then (prepare lib database mode_query >>= λ c.
          next lib c >>= mode_row s >>= load_commands database)
      else give s

  unfoldable pub load_database : lib.Database → Output Summary
  load_database database = validate_schema lib database >>= λ schema_version.
      load_exit database empty_summary
      >>= load_mode database schema_version
      >>= add_rows database files_query add_files
      >>= add_rows database network_query add_network
      >>= add_rows database ipc_query add_ipc
      >>= add_rows database executables_query add_executable

  unfoldable pub load_summary : Bytes → Output Summary
  unfolding open_capsule
  load_summary path = open_capsule lib path >>= load_database

  -- The `try` block
  unfoldable pub diff_body : Bytes → Bytes → Output Unit
  diff_body before after =
      load_summary before >>= λ a. load_summary after >>= λ b. print (diff_text a b)

  -- What is printed, and the exit code.
  unfoldable pub diff_capsules : Bytes → Bytes → Bytes × ℕ
  diff_capsules before after = let (printed, r) = diff_body before after in (printed, code_of r)
