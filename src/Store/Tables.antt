-- ===== src/Store/Tables.antt =====
-- The tables of a capsule, as the schema of src/sqlite_store.cpp declares them, and the statements by
-- which the writer changes them.
use mathlib.Core.Option
use whyrun.Common.Int.{ℤ, pos, ◌+ℤ◌, is_i64}
use whyrun.Common.Map.{Key, int_key, bytes_key}
use whyrun.Common.{
  ◌≡◌, refl, ◌&&◌, ◌||◌, Bool, List, [], ◌∷◌, Option, none, some, Bytes, has_value, not, codes,
  equal, if◌then◌else◌, arith,
}

-- A column of integers holds an `int64_t`; one that may be NULL, an `Option`.
pub record RunRow : Type 0 where
  pub id : Bytes
  pub mode : Bytes
  pub command : Bytes
  pub cwd : Bytes
  pub start_ns : ℤ
  pub end_ns : Option ℤ
  pub exit_code : Option ℤ
  pub term_signal : Option ℤ

pub record CommandRow : Type 0 where
  pub id : ℤ
  pub sequence : ℤ
  pub shell_pid : ℤ
  pub command : Bytes
  pub cwd : Bytes
  pub start_ns : ℤ
  pub end_ns : Option ℤ
  pub end_cwd : Option Bytes
  pub exit_code : Option ℤ

pub record ProcessRow : Type 0 where
  pub pid : ℤ
  pub ppid : ℤ
  pub executable : Bytes
  pub start_ns : ℤ
  pub end_ns : Option ℤ
  pub exit_code : Option ℤ
  pub term_signal : Option ℤ

pub record EventRow : Type 0 where
  pub timestamp_ns : ℤ
  pub pid : ℤ
  pub tid : ℤ
  pub type : Bytes
  pub resource : Bytes
  pub result : ℤ
  pub errno_value : ℤ
  pub metadata_json : Bytes
  pub command_id : Option ℤ

pub record FileRow : Type 0 where
  pub path : Bytes
  pub read_calls : ℤ
  pub write_calls : ℤ
  pub bytes_read : ℤ
  pub bytes_written : ℤ

pub record NetworkRow : Type 0 where
  pub endpoint : Bytes
  pub connect_count : ℤ
  pub success_count : ℤ
  pub failure_count : ℤ
  pub last_errno : ℤ

-- The rows of `events` stand with the newest first: their ids fall along the list.
pub record Tables : Type 0 where
  pub metadata : List (Bytes × Bytes)
  pub runs : List RunRow
  pub commands : List CommandRow
  pub processes : List ProcessRow
  pub events : List EventRow
  pub file_activity : List FileRow
  pub network_activity : List NetworkRow

abbrev pub no_rows : Tables
no_rows = record {
  metadata = [];
  runs = [];
  commands = [];
  processes = [];
  events = [];
  file_activity = [];
  network_activity = [];
}

-- Rows under a primary key.
module _ {K A : Type 0} ⦃e : Key K⦄ (key : A → K) where
  unfoldable pub find_row : K → List A → Option A
  find_row k [] = none
  find_row k (row ∷ rows) = if e.same (key row) k then some row else find_row k rows

  -- In place of the row that has its key, or behind the others.
  unfoldable pub put_row : A → List A → List A
  put_row new [] = new ∷ []
  put_row new (row ∷ rows) =
      if e.same (key row) (key new) then new ∷ rows else row ∷ put_row new rows

  -- `UPDATE … WHERE`
  unfoldable pub update_row : K → (A → A) → List A → List A
  update_row k change [] = []
  update_row k change (row ∷ rows) =
      if e.same (key row) k then change row ∷ rows else row ∷ update_row k change rows

  pub find_row-put_row :
      (k : K) (new : A) (rows : List A)
      → find_row k (put_row new rows) ≡ (if e.same (key new) k then some new else find_row k rows)
  unfolding find_row put_row
  find_row-put_row k new [] = refl
  find_row-put_row k new (row ∷ rows) = ground (
    arith,
    e.same_iff (key row) (key new),
    e.same_iff (key row) k,
    e.same_iff (key new) k,
    find_row-put_row k new rows,
  )

  pub find_row-update_row :
      (k j : K) (change : A → A) (rows : List A)
      → ((row : A) → key (change row) ≡ key row)
      → find_row k (update_row j change rows)
        ≡ (if e.same j k then Option.map change (find_row k rows) else find_row k rows)
  unfolding find_row update_row
  find_row-update_row k j change [] keeps = ground arith
  find_row-update_row k j change (row ∷ rows) keeps = ground (
    arith,
    keeps row,
    e.same_iff (key row) j,
    e.same_iff (key row) k,
    e.same_iff j k,
    find_row-update_row k j change rows keeps,
  )

-- The texts of the statements, for `sqlite3_prepare_v2`.
pub data Sql : Type 0 where
  into_metadata into_runs set_runs into_events into_commands set_commands : Sql
  into_file_activity into_network_activity into_processes ignore_processes set_processes : Sql

-- A statement with the values that are bound to it.
pub data Statement : Type 0 where
  -- INSERT INTO metadata(key, value)
  insert_metadata : Bytes → Bytes → Statement
  -- INSERT INTO runs(id, mode, command, cwd, start_ns)
  insert_run : Bytes → Bytes → Bytes → Bytes → ℤ → Statement
  -- UPDATE runs SET end_ns=?, exit_code=?, term_signal=?
  update_runs : ℤ → ℤ → ℤ → Statement
  insert_event : EventRow → Statement
  -- INSERT INTO commands(id, sequence, shell_pid, command, cwd, start_ns)
  insert_command : ℤ → ℤ → ℤ → Bytes → Bytes → ℤ → Statement
  -- UPDATE commands SET end_ns=?, end_cwd=?, exit_code=? WHERE id=?
  update_command : ℤ → Bytes → ℤ → ℤ → Statement
  -- INSERT INTO file_activity … ON CONFLICT(path) DO UPDATE
  add_file_activity : FileRow → Statement
  -- INSERT INTO network_activity(endpoint, success_count, failure_count, last_errno) … ON CONFLICT
  add_network_activity : Bytes → ℤ → ℤ → ℤ → Statement
  -- INSERT INTO processes(pid, ppid, executable, start_ns) … ON CONFLICT(pid) DO UPDATE
  put_process : ℤ → ℤ → Bytes → ℤ → Statement
  -- INSERT OR IGNORE INTO processes(pid, ppid, executable, start_ns)
  add_process : ℤ → ℤ → Bytes → ℤ → Statement
  -- UPDATE processes SET end_ns=?, exit_code=?, term_signal=? WHERE pid=?
  update_process : ℤ → ℤ → ℤ → ℤ → Statement

abbrev pub new_run : Bytes → Bytes → Bytes → Bytes → ℤ → RunRow
new_run id mode command cwd start_ns = record {
  id = id;
  mode = mode;
  command = command;
  cwd = cwd;
  start_ns = start_ns;
  end_ns = none;
  exit_code = none;
  term_signal = none;
}

abbrev pub new_command : ℤ → ℤ → ℤ → Bytes → Bytes → ℤ → CommandRow
new_command id sequence shell_pid command cwd start_ns = record {
  id = id;
  sequence = sequence;
  shell_pid = shell_pid;
  command = command;
  cwd = cwd;
  start_ns = start_ns;
  end_ns = none;
  end_cwd = none;
  exit_code = none;
}

abbrev pub new_process : ℤ → ℤ → Bytes → ℤ → ProcessRow
new_process pid ppid executable start_ns = record {
  pid = pid;
  ppid = ppid;
  executable = executable;
  start_ns = start_ns;
  end_ns = none;
  exit_code = none;
  term_signal = none;
}

-- `DO UPDATE`: what is stored for a row that is inserted, by the row that has its key already.
unfoldable pub merged_file : FileRow → Option FileRow → FileRow
merged_file excluded none = excluded
merged_file excluded (some row) = record row {
  read_calls = row.read_calls +ℤ excluded.read_calls;
  write_calls = row.write_calls +ℤ excluded.write_calls;
  bytes_read = row.bytes_read +ℤ excluded.bytes_read;
  bytes_written = row.bytes_written +ℤ excluded.bytes_written;
}

unfoldable pub merged_network : Bytes → ℤ → ℤ → ℤ → Option NetworkRow → NetworkRow
merged_network endpoint success failure errno none = record {
  endpoint = endpoint;
  connect_count = pos 1;
  success_count = success;
  failure_count = failure;
  last_errno = errno;
}
merged_network endpoint success failure errno (some row) = record row {
  connect_count = row.connect_count +ℤ pos 1;
  success_count = row.success_count +ℤ success;
  failure_count = row.failure_count +ℤ failure;
  last_errno = errno;
}

unfoldable pub merged_process : ProcessRow → Option ProcessRow → ProcessRow
merged_process excluded none = excluded
merged_process excluded (some row) = record row { executable = excluded.executable }

unfoldable pub kept_process : ProcessRow → Option ProcessRow → ProcessRow
kept_process new none = new
kept_process new (some row) = row

-- Sums that leave 64 bits are no longer integers for SQLite.
abbrev pub file_fits : FileRow → Bool
file_fits row =
    is_i64 row.read_calls
    && is_i64 row.write_calls
    && is_i64 row.bytes_read
    && is_i64 row.bytes_written

abbrev pub network_fits : NetworkRow → Bool
network_fits row = is_i64 row.connect_count && is_i64 row.success_count && is_i64 row.failure_count

-- What a statement does to the tables: it changes them, it fails on a constraint, or a sum leaves the
-- integers, of which nothing is said.
pub data Effect : Type 0 where
  conflict : Effect
  unknown : Effect
  changed : Tables → Effect

abbrev pub end_run : ℤ → ℤ → ℤ → List RunRow → List RunRow
end_run end_ns exit_code term_signal [] = []
end_run end_ns exit_code term_signal (run ∷ runs) =
    record run { end_ns = some end_ns; exit_code = some exit_code; term_signal = some term_signal }
    ∷ end_run end_ns exit_code term_signal runs

abbrev pub end_command : ℤ → Bytes → ℤ → CommandRow → CommandRow
end_command end_ns end_cwd exit_code row = record row {
  end_ns = some end_ns;
  end_cwd = some end_cwd;
  exit_code = some exit_code;
}

abbrev pub end_process : ℤ → ℤ → ℤ → ProcessRow → ProcessRow
end_process end_ns exit_code term_signal row = record row {
  end_ns = some end_ns;
  exit_code = some exit_code;
  term_signal = some term_signal;
}

abbrev metadata_key : Bytes × Bytes → Bytes
metadata_key (key, value) = key

unfoldable pub effect : Statement → Tables → Effect
unfolding equal find_row put_row update_row merged_file merged_network merged_process kept_process
effect (insert_metadata key value) t =
    if has_value (find_row metadata_key key t.metadata)
    then conflict
    else changed (record t { metadata = (key, value) ∷ t.metadata })
effect (insert_run id mode command cwd start_ns) t =
    if has_value (find_row (λ (r : RunRow). r.id) id t.runs)
      || not (equal mode (codes "command") || equal mode (codes "session"))
    then conflict
    else changed (record t { runs = new_run id mode command cwd start_ns ∷ t.runs })
effect (update_runs end_ns exit_code term_signal) t =
    changed (record t { runs = end_run end_ns exit_code term_signal t.runs })
effect (insert_event row) t = changed (record t { events = row ∷ t.events })
effect (insert_command id sequence shell_pid command cwd start_ns) t =
    if has_value (find_row (λ (r : CommandRow). r.id) id t.commands)
      || has_value (find_row (λ (r : CommandRow). r.sequence) sequence t.commands)
    then conflict
    else changed (record t {
      commands = new_command id sequence shell_pid command cwd start_ns ∷ t.commands;
    })
effect (update_command end_ns end_cwd exit_code id) t = changed (record t {
  commands =
      update_row (λ (r : CommandRow). r.id) id (end_command end_ns end_cwd exit_code) t.commands;
})
effect (add_file_activity row) t =
    let stored = merged_file row (find_row (λ (r : FileRow). r.path) row.path t.file_activity) in
    if file_fits stored
    then changed
        (record t { file_activity = put_row (λ (r : FileRow). r.path) stored t.file_activity })
    else unknown
effect (add_network_activity endpoint success failure errno) t =
    let old = find_row (λ (r : NetworkRow). r.endpoint) endpoint t.network_activity in
    let stored = merged_network endpoint success failure errno old in
    if network_fits stored
    then changed (record t {
      network_activity = put_row (λ (r : NetworkRow). r.endpoint) stored t.network_activity;
    })
    else unknown
effect (put_process pid ppid executable start_ns) t =
    let old = find_row (λ (r : ProcessRow). r.pid) pid t.processes in
    changed (record t {
      processes =
          put_row (λ (r : ProcessRow). r.pid)
            (merged_process (new_process pid ppid executable start_ns) old) t.processes;
    })
effect (add_process pid ppid executable start_ns) t =
    let old = find_row (λ (r : ProcessRow). r.pid) pid t.processes in
    changed (record t {
      processes =
          put_row (λ (r : ProcessRow). r.pid)
            (kept_process (new_process pid ppid executable start_ns) old) t.processes;
    })
effect (update_process end_ns exit_code term_signal pid) t = changed (record t {
  processes =
      update_row (λ (r : ProcessRow). r.pid) pid (end_process end_ns exit_code term_signal)
        t.processes;
})
