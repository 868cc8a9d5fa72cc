-- ===== src/CommandLine/Record.antt =====
-- src/main.cpp: `record_command` behind its arguments, with `publish_capsule` of src/sqlite_store.cpp.
pub mod Writing
pub mod Safety
pub mod Choice
pub mod Whole
use whyrun.Collector.Loop.{Collection}
use whyrun.Common.Actions.{Action, pure, throw, lift, ◌>>=◌, ◌>>◌}
use whyrun.Common.Int.{ℤ, pos, negsuc}
use whyrun.Common.Map.{bytes_key}
use whyrun.Common.{
  ℕ, ◌+◌, not, Bool, true, false, List, [], ◌∷◌, ◌++◌, Option, none, some, Bytes, codes, equal,
  length, has_value, if◌then◌else◌, ◌==◌, Error, Result, err, ok, publish_failed,
}
use whyrun.Event.{Event}
use whyrun.Store.Paths.{
  Status, present, absent, unreadable, default_capsule_path, temporary_capsule_path,
}
use whyrun.Store.Sqlite.{Sqlite}
use whyrun.Store.Tables.{Tables, find_row, put_row}
use whyrun.Store.Writer.{
  RunMode, command, session, RunMetadata, Writer, write_header, emit_all, finish, destroy,
  open_database,
}
use whyrun.Store.{format_command}

-- `CollectionRequest`, without the environment of the shell.
pub record Request : Type 0 where
  pub command : List Bytes
  pub root_command : Option Bytes
  pub command_channel_fd : Option ℤ

-- What a file holds: a database with these rows committed, or a part of one.
pub data File : Type 0 where
  capsule : Tables → File
  fragment : File

abbrev pub Files : Type 0
Files = List (Bytes × File)

abbrev pub path_of : Bytes × File → Bytes
path_of (path, file) = path

abbrev content : Option (Bytes × File) → Option File
content none = none
content (some (path, file)) = some file

-- The file at a path.
unfoldable pub file_at : Bytes → Files → Option File
unfolding find_row
file_at path files = content (find_row path_of path files)

unfoldable pub write_file : Bytes → File → Files → Files
unfolding put_row
write_file path file files = put_row path_of (path, file) files

unfoldable pub remove_file : Bytes → Files → Files
unfolding equal
remove_file path [] = []
remove_file path ((p, file) ∷ files) =
    if equal p path then remove_file path files else (p, file) ∷ remove_file path files

-- SQLite's rollback journal of a database.
abbrev pub journal : Bytes → Bytes
journal path = path ++ codes "-journal"

-- How the copy of a file ends: done, with nothing left behind, or with a part of the file.
pub data Copy : Type 0 where
  copied refused broken : Copy

-- What a run of the program meets.
pub record World (db : Sqlite) : Type 0 where
  -- `std::put_time` of the local time
  pub base : Bytes
  pub temp_directory : Option Bytes
  pub current_path : Option Bytes
  pub pid : ℕ
  pub now : ℕ
  -- Written by the build.
  pub version : Bytes
  pub inspectable : Bytes → Bool
  pub copies : Copy
  pub removes : Bytes → Bool
  -- The constructor of `BashSession`
  pub bash_session : Result Request
  -- What the program that is recorded does to the files.
  pub touched : Files → Files
  -- What the collector emits for a request, and its result.
  pub collected : Request → List Event × Result Collection

-- There are more rounds than files.
abbrev pub searched : Option (Result Bytes) → Result Bytes
searched none = err publish_failed
searched (some found) = found

abbrev pub rounds_for : Files → ℕ
rounds_for files = length files + 1

module _ {db : Sqlite} (world : World db) where
  unfoldable pub inspect : Files → Bytes → Status
  unfolding file_at
  inspect files path =
      if not (world.inspectable path)
      then unreadable
      else if has_value (file_at path files)
      then present
      else absent

  -- `std::filesystem::remove`, whose errors are passed over.
  unfoldable pub discard : Bytes → Files → Files
  unfolding remove_file
  discard path files = if world.removes path then remove_file path files else files

  abbrev pub destroyed :
      Collection → Result (Unit {0}) × Writer db → Result Collection × db.Connection
  destroyed result (err e, w) = (err e, destroy db w)
  destroyed result (ok _, w) = (ok result, destroy db w)

  abbrev pub finished_by : Result Collection → db.Connection → Result Collection × db.Connection
  finished_by (err e) c = (err e, destroy db (record { database = c; finished = false }))
  finished_by (ok result) c =
      destroyed result (finish db result (record { database = c; finished = false }))

  abbrev pub collected_by :
      Result Collection → Result (Unit {0}) × db.Connection → Result Collection × db.Connection
  collected_by result (err e, c) = (err e, destroy db (record { database = c; finished = false }))
  collected_by result (ok _, c) = finished_by result c

  abbrev pub constructed_by :
      List Event
      → Result Collection
      → Result (Unit {0}) × db.Connection
      → Result Collection × db.Connection
  constructed_by events result (err e, c) = (err e, c)
  constructed_by events result (ok _, c) = collected_by result (emit_all db events c)

  -- The block of the writer, behind the opening of the database: it is constructed, the collector
  -- gives it the events, it is finished, and it is destroyed in any case.
  unfoldable pub write_capsule : RunMetadata → Request → Action db.Connection Collection
  write_capsule metadata request c =
      let (events, result) = world.collected request in
      constructed_by events result (write_header db world.version metadata c)

  -- The files while the database is open: it is not complete, and SQLite's journal stands beside it.
  abbrev pub being_written : Bytes → Files → Files
  being_written path files = write_file (journal path) fragment (write_file path fragment files)

  -- The program runs behind the constructor, if that has not thrown.
  abbrev pub ran : Result (Unit {0}) × db.Connection → Files → Files
  ran (err e, c) files = files
  ran (ok _, c) files = world.touched files

  -- SQLite closes the file that it has opened, which the program may have removed or replaced.
  abbrev pub closed : Bytes → Tables → Option File → Files → Files
  closed path rows (some fragment) files = write_file path (capsule rows) files
  closed path rows (some (capsule other)) files = files
  closed path rows none files = files

  abbrev pub left_by : Bytes → Tables → Files → Files
  left_by path rows files = remove_file (journal path) (closed path rows (file_at path files) files)

  abbrev pub stored :
      Bytes
      → Result (Unit {0}) × db.Connection
      → Result Collection × db.Connection
      → Files
      → Result Collection × Files
  stored path header (r, c) files =
      (r, left_by path (db.committed c) (ran header (being_written path files)))

  abbrev pub opened :
      Bytes → RunMetadata → Request → Result db.Connection → Files → Result Collection × Files
  opened path metadata request (err e) files = (err e, files)
  opened path metadata request (ok c) files =
      stored path (write_header db world.version metadata c) (write_capsule metadata request c)
        files

  unfoldable pub write_temporary : Bytes → RunMetadata → Request → Action Files Collection
  unfolding write_capsule write_file remove_file file_at
  write_temporary path metadata request files =
      opened path metadata request (open_database db path) files

  abbrev pub copy_to : Bytes → Bytes → File → Copy → Files → Result (Unit {0}) × Files
  copy_to temporary final file copied files =
      (ok tt, discard temporary (write_file final file files))
  copy_to temporary final file refused files = (err publish_failed, files)
  copy_to temporary final file broken files = (err publish_failed, write_file final fragment files)

  abbrev pub published :
      Bytes → Bytes → Option File → Option File → Files → Result (Unit {0}) × Files
  published temporary final none there files = (err publish_failed, files)
  published temporary final (some file) (some old) files = (err publish_failed, files)
  published temporary final (some file) none files = copy_to temporary final file world.copies files

  unfoldable pub publish_capsule : Bytes → Bytes → Action Files Unit
  unfolding file_at write_file discard
  publish_capsule temporary final files =
      published temporary final (file_at temporary files) (file_at final files) files

  abbrev pub guarded : Bytes → Result Collection × Files → Result Collection × Files
  guarded path (err e, files) = (err e, discard path files)
  guarded path (ok result, files) = (ok result, files)

  -- What is done while `TemporaryCapsuleGuard` stands: an exception removes the temporary file, and
  -- `release` comes last.
  unfoldable pub record_guarded : Bytes → Bytes → RunMetadata → Request → Action Files Collection
  unfolding write_temporary publish_capsule discard
  record_guarded temporary final metadata request files = guarded temporary (
      (write_temporary temporary metadata request >>= λ result.
      publish_capsule temporary final >> pure result)
        files)

  -- The request of `whyrun record -- program…`, or of `whyrun record`.
  unfoldable pub request_of : Option (List Bytes) → Result Request
  unfolding format_command
  request_of none = world.bash_session
  request_of (some program) = ok (record {
    command = program;
    root_command = some (format_command program);
    command_channel_fd = none;
  })

  -- The candidate of `default_capsule_path` ends in ".wrun", of five bytes.
  unfoldable pub stem : Bytes → Bytes
  stem [] = []
  stem (a ∷ s) = if length s == 4 then [] else a ∷ stem s

  abbrev text_of : Option Bytes → Bytes
  text_of none = []
  text_of (some text) = text

  unfoldable pub metadata_for : Option (List Bytes) → Bytes → RunMetadata
  unfolding stem
  metadata_for none final = record {
    id = stem final;
    mode = session;
    command = codes "/bin/bash" ∷ [];
    cwd = text_of world.current_path;
    start_ns = world.now;
  }
  metadata_for (some program) final = record {
    id = stem final;
    mode = command;
    command = program;
    cwd = text_of world.current_path;
    start_ns = world.now;
  }

  abbrev pub final_path : Files → Result Bytes
  final_path files = searched (default_capsule_path (inspect files) (rounds_for files) world.base)

  abbrev pub temporary_path : Bytes → Files → Result Bytes
  temporary_path id files =
      searched (
        temporary_capsule_path (inspect files) (rounds_for files) world.temp_directory id world.pid)

  abbrev pub with_path : Bytes → Collection → Bytes × Collection
  with_path final result = (final, result)

  -- The `try` block, with the path that it prints. The messages are not kept.
  unfoldable pub record_body : Option (List Bytes) → Action Files (Bytes × Collection)
  unfolding request_of metadata_for record_guarded
  record_body program files =
      (lift (request_of program) >>= λ request. lift (final_path files) >>= λ final.
      lift (temporary_path (metadata_for program final).id files) >>= λ temporary.
      record_guarded temporary final (metadata_for program final) request >>= λ result.
      pure (final, result))
        files

  -- The exit code.
  abbrev pub exit_code_of : Result (Bytes × Collection) → ℤ
  exit_code_of (err e) = pos 1
  exit_code_of (ok (final, result)) = if not result.collector_ok then pos 1 else result.exit_code

  unfoldable pub run_record : Option (List Bytes) → Files → ℤ × Files
  unfolding record_body
  run_record program files = let (r, files') = record_body program files in (exit_code_of r, files')
