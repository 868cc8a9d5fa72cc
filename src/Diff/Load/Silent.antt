-- ===== src/Diff/Load/Silent.antt =====
-- The parts of src/diff.cpp and src/capsule_reader.hpp that print nothing.
use whyrun.Diff.Load.Ordered.{IsMap, Ordered, Ordered-put_counts}
use whyrun.Common.Int.{ℤ}
use whyrun.Common.Output.{Output, fail, give, ◌>>=◌}
use whyrun.Common.{
  ℕ, ◌≡◌, refl, Bool, true, false, [], Option, none, some, Bytes, if◌then◌else◌, Result, err, ok,
  Error, leb, step_failed, missing_run, missing_schema_version, unsupported_schema, cannot_open,
  prepare_failed, Bool-cases, inl, inr,
}
use whyrun.Diff.Load.{
  put_counts, empty_summary, add_files, add_network, add_ipc, add_executable, add_command, add_rows,
  file_counts, exit_query, mode_query, files_query, network_query, ipc_query, executables_query,
  if_positive, is_positive, mode_row, load_commands, commands_query, exit_row, load_exit, load_mode,
  load_database, load_summary,
}
use whyrun.Diff.{Activity, Summary}
use whyrun.Reader.{
  Reading, Cursor, done, failed, row, opened, prepared, version_row, schema_query, next, text,
  validate_schema, each_row,
}

-- What prints nothing, and gives a value with `P` if it does not throw.
pub record Silent {A : Type 0} (P : A → Type 0) (m : Output A) : Type 0 where
  pub silent : m.0 ≡ []
  pub result : (a : A) → m.1 ≡ ok a → P a

module _ {A B : Type 0} {P : A → Type 0} {Q : B → Type 0} where
  Silent->>= :
      (m : Output A) (next : A → Output B)
      → Silent P m
      → ((a : A) → P a → Silent Q (next a))
      → Silent Q (m >>= next)
  Silent->>= (text, err e) next first rest = record {
    silent = first.silent;
    result = λ b h. absurd (threw e b h);
  }
    where
      threw : (e : Error) (b : B) → ◌≡◌ {A = Result B} (err e) (ok b) → ⊥
      threw e b h = cc
  Silent->>= (text, ok a) next first rest =
      let then_rest = rest a (first.result a refl) in
      record { silent = rw (first.silent, then_rest.silent) refl; result = then_rest.result }

module _ {A : Type 0} {P : A → Type 0} where
  Silent-give : (a : A) → P a → Silent P (give a)
  Silent-give a h = record { silent = refl; result = λ b e. let same : a ≡ b = cc in rw (← same) h }

  Silent-fail : (e : Error) → Silent P (fail e)
  Silent-fail e = record { silent = refl; result = λ b h. absurd (threw b h) }
    where
      threw : (b : A) → ◌≡◌ {A = Result A} (err e) (ok b) → ⊥
      threw b h = cc

Silent-if :
    {A : Type 0} {P : A → Type 0} (b : Bool) (m n : Output A)
    → Silent P m
    → Silent P n
    → Silent P (if b then m else n)
Silent-if true m n h k = h
Silent-if false m n h k = k

module _ (lib : Reading) where
  abbrev Any : {A : Type 0} → A → Type 0
  Any a = Unit

  prepared-Silent : (answers : Option (Cursor lib.Row)) → Silent Any (prepared lib answers)
  prepared-Silent none = Silent-fail prepare_failed
  prepared-Silent (some c) = Silent-give c tt

  opened-Silent : (database : Option lib.Database) → Silent Any (opened lib database)
  opened-Silent none = Silent-fail cannot_open
  opened-Silent (some d) = Silent-give d tt

  next-Silent : (c : Cursor lib.Row) → Silent Any (next lib c)
  unfolding next
  next-Silent done = Silent-give none tt
  next-Silent failed = Silent-fail step_failed
  next-Silent (row r rest) = Silent-give (some (r, rest)) tt

  each_row-Silent :
      (add : lib.Row → Summary → Summary)
      → ((r : lib.Row) (s : Summary) → IsMap s → IsMap (add r s))
      → (c : Cursor lib.Row) (s : Summary) → IsMap s
      → Silent IsMap (each_row lib (λ r s. give (add r s)) c s)
  unfolding each_row
  each_row-Silent add keeps done s h = Silent-give s h
  each_row-Silent add keeps failed s h = Silent-fail step_failed
  each_row-Silent add keeps (row r rest) s h =
      each_row-Silent add keeps rest (add r s) (keeps r s h)

  add_rows-Silent :
      (database : lib.Database) (sql : Bytes) (add : lib.Row → Summary → Summary)
      → ((r : lib.Row) (s : Summary) → IsMap s → IsMap (add r s))
      → (s : Summary) → IsMap s
      → Silent IsMap (add_rows lib database sql add s)
  unfolding add_rows
  add_rows-Silent database sql add keeps s h =
      Silent->>= (prepared lib (lib.query database sql))
        (λ c. each_row lib (λ r s. give (add r s)) c s) (prepared-Silent (lib.query database sql))
        (λ c _. each_row-Silent add keeps c s h)

  positive_kept :
      (count : ℤ) (more m : Activity)
      → Ordered more
      → Ordered m
      → Ordered (if_positive count more m)
  positive_kept count more m h k = elim (Bool-cases (is_positive count)) [
    | inl above ↦ rw above h
    | inr none_there ↦ rw none_there k
  ]

  add_files-IsMap : (r : lib.Row) (s : Summary) → IsMap s → IsMap (add_files lib r s)
  unfolding add_files
  add_files-IsMap r s h = record {
    reads =
        positive_kept (lib.column_int64 r 1)
          (put_counts (text lib r 0) (file_counts lib r 1 3) s.reads) s.reads
          (Ordered-put_counts (text lib r 0) (file_counts lib r 1 3) s.reads h.reads) h.reads;
    writes =
        positive_kept (lib.column_int64 r 2)
          (put_counts (text lib r 0) (file_counts lib r 2 4) s.writes) s.writes
          (Ordered-put_counts (text lib r 0) (file_counts lib r 2 4) s.writes h.writes) h.writes;
    network = h.network;
    local_ipc = h.local_ipc;
  }

  add_network-IsMap : (r : lib.Row) (s : Summary) → IsMap s → IsMap (add_network lib r s)
  unfolding add_network
  add_network-IsMap r s h = record {
    reads = h.reads;
    writes = h.writes;
    network = Ordered-put_counts _ _ s.network h.network;
    local_ipc = h.local_ipc;
  }

  add_ipc-IsMap : (r : lib.Row) (s : Summary) → IsMap s → IsMap (add_ipc lib r s)
  unfolding add_ipc
  add_ipc-IsMap r s h = record {
    reads = h.reads;
    writes = h.writes;
    network = h.network;
    local_ipc = Ordered-put_counts _ _ s.local_ipc h.local_ipc;
  }

  add_executable-IsMap : (r : lib.Row) (s : Summary) → IsMap s → IsMap (add_executable lib r s)
  unfolding add_executable
  add_executable-IsMap r s h = record {
    reads = h.reads;
    writes = h.writes;
    network = h.network;
    local_ipc = h.local_ipc;
  }

  add_command-IsMap : (r : lib.Row) (s : Summary) → IsMap s → IsMap (add_command lib r s)
  unfolding add_command
  add_command-IsMap r s h = record {
    reads = h.reads;
    writes = h.writes;
    network = h.network;
    local_ipc = h.local_ipc;
  }

  with_mode : (s : Summary) (session : Bool) → IsMap s → IsMap (record s { session = session })
  with_mode s session h = record {
    reads = h.reads;
    writes = h.writes;
    network = h.network;
    local_ipc = h.local_ipc;
  }

  mode_row-Silent :
      (s : Summary) (found : Option (lib.Row × Cursor lib.Row))
      → IsMap s
      → Silent IsMap (mode_row lib s found)
  mode_row-Silent s none h = Silent-give s h
  mode_row-Silent s (some (r, rest)) h = Silent-give _ (with_mode s _ h)

  load_commands-Silent :
      (database : lib.Database) (s : Summary)
      → IsMap s
      → Silent IsMap (load_commands lib database s)
  load_commands-Silent database s h =
      Silent-if s.session (add_rows lib database commands_query (add_command lib) s) (give s)
        (add_rows-Silent database commands_query (add_command lib) add_command-IsMap s h)
        (Silent-give s h)

  load_mode-Silent :
      (database : lib.Database) (version : ℕ) (s : Summary)
      → IsMap s
      → Silent IsMap (load_mode lib database version s)
  unfolding load_mode
  load_mode-Silent database version s h =
      Silent-if (leb 2 version) _ (give s)
        (Silent->>= (prepared lib (lib.query database mode_query))
          (λ c. next lib c >>= mode_row lib s >>= load_commands lib database)
          (prepared-Silent (lib.query database mode_query))
          (λ c _.
            Silent->>= (next lib c >>= mode_row lib s) (load_commands lib database)
              (Silent->>= (next lib c) (mode_row lib s) (next-Silent c)
                (λ found _. mode_row-Silent s found h))
              (λ s' h'. load_commands-Silent database s' h')))
        (Silent-give s h)

  exit_row-Silent :
      (s : Summary) (found : Option (lib.Row × Cursor lib.Row))
      → IsMap s
      → Silent IsMap (exit_row lib s found)
  exit_row-Silent s none h = Silent-fail missing_run
  exit_row-Silent s (some (r, rest)) h =
      Silent-give _ (record {
        reads = h.reads;
        writes = h.writes;
        network = h.network;
        local_ipc = h.local_ipc;
      })

  load_exit-Silent :
      (database : lib.Database) (s : Summary) → IsMap s → Silent IsMap (load_exit lib database s)
  unfolding load_exit
  load_exit-Silent database s h =
      Silent->>= (prepared lib (lib.query database exit_query)) (λ c. next lib c >>= exit_row lib s)
        (prepared-Silent (lib.query database exit_query))
        (λ c _.
          Silent->>= (next lib c) (exit_row lib s) (next-Silent c)
            (λ found _. exit_row-Silent s found h))

  version_row-Silent :
      (found : Option (lib.Row × Cursor lib.Row)) → Silent Any (version_row lib found)
  version_row-Silent none = Silent-fail missing_schema_version
  version_row-Silent (some (r, rest)) =
      Silent-if _ _ _ (Silent-fail unsupported_schema) (Silent-give _ tt)

  validate_schema-Silent : (database : lib.Database) → Silent Any (validate_schema lib database)
  unfolding validate_schema
  validate_schema-Silent database =
      Silent->>= (prepared lib (lib.query database schema_query))
        (λ c. next lib c >>= version_row lib) (prepared-Silent (lib.query database schema_query))
        (λ c _.
          Silent->>= (next lib c) (version_row lib) (next-Silent c)
            (λ found _. version_row-Silent found))

  load_database-Silent : (database : lib.Database) → Silent IsMap (load_database lib database)
  unfolding load_database
  load_database-Silent database =
      Silent->>= (validate_schema lib database) _ (validate_schema-Silent database) (λ version _.
        Silent->>= _ (add_rows lib database executables_query (add_executable lib))
          (Silent->>= _ (add_rows lib database ipc_query (add_ipc lib))
            (Silent->>= _ (add_rows lib database network_query (add_network lib))
              (Silent->>= _ (add_rows lib database files_query (add_files lib))
                (Silent->>= (load_exit lib database empty_summary) (load_mode lib database version)
                  (load_exit-Silent database empty_summary
                    (record { reads = tt; writes = tt; network = tt; local_ipc = tt }))
                  (λ s h. load_mode-Silent database version s h))
                (λ s h. add_rows-Silent database files_query (add_files lib) add_files-IsMap s h))
              (λ s h.
                add_rows-Silent database network_query (add_network lib) add_network-IsMap s h))
            (λ s h. add_rows-Silent database ipc_query (add_ipc lib) add_ipc-IsMap s h))
          (λ s h.
            add_rows-Silent database executables_query (add_executable lib) add_executable-IsMap s
              h))

  pub load_summary-Silent : (path : Bytes) → Silent IsMap (load_summary lib path)
  unfolding load_summary
  load_summary-Silent path =
      Silent->>= (opened lib (lib.open_readonly path)) (load_database lib)
        (opened-Silent (lib.open_readonly path)) (λ d _. load_database-Silent d)
