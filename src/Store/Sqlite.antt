-- ===== src/Store/Sqlite.antt =====
-- SQLite, as src/sqlite_store.cpp uses it, and what its documentation says of the calls.
use whyrun.Store.Tables.{
  Tables, no_rows, Sql, Statement, effect, changed, conflict, unknown, Effect,
}
use whyrun.Common.{◌≡◌, ◌≢◌, refl, Bool, true, false, Option, some, Bytes}

-- The scripts that are given to `sqlite3_exec`.
pub data Script : Type 0 where
  pragmas create_tables begin_immediate commit rollback : Script

pub record Sqlite : Type 1 where
  -- A connection with its database file.
  pub Connection : Type 0
  -- The rows that a query through the connection sees.
  pub tables : Connection → Tables
  -- The rows that another connection would see, and that stay when this one is closed.
  pub committed : Connection → Tables
  pub in_transaction : Connection → Bool
  -- `sqlite3_open_v2`, of a path at which there is no file.
  pub open_new : Bytes → Option Connection
  -- Whether `sqlite3_prepare_v2` and the calls that bind succeed.
  pub prepares : Sql → Connection → Bool
  pub binds : Statement → Connection → Bool
  -- `sqlite3_step`, and whether it answers SQLITE_DONE.
  pub step : Statement → Connection → Bool × Connection
  -- `sqlite3_exec`, and whether it answers SQLITE_OK.
  pub exec : Script → Connection → Bool × Connection

pub record IsLawful (db : Sqlite) : Type 0 where
  -- A new database has no rows, and no transaction is open.
  pub opens :
      (path : Bytes) (c : db.Connection)
      → db.open_new path ≡ some c
      → (db.tables c ≡ no_rows) × (db.committed c ≡ no_rows)
  -- A statement that succeeds has done what it says.
  pub changes :
      (s : Statement) (c : db.Connection) (t : Tables)
      → effect s (db.tables c) ≡ changed t
      → (db.step s c).0 ≡ true
      → db.tables (db.step s c).1 ≡ t
  -- A statement against a constraint fails.
  pub conflicts :
      (s : Statement) (c : db.Connection)
      → effect s (db.tables c) ≡ conflict
      → (db.step s c).0 ≡ false
  -- Inside a transaction nothing is committed. A statement that fails may have ended it.
  pub isolates :
      (s : Statement) (c : db.Connection)
      → db.in_transaction c ≡ true
      → db.committed (db.step s c).1 ≡ db.committed c
  pub stays :
      (s : Statement) (c : db.Connection)
      → db.in_transaction c ≡ true
      → (db.step s c).0 ≡ true
      → db.in_transaction (db.step s c).1 ≡ true
  -- The scripts in front of the transaction write no rows.
  pub prepares_rows :
      (c : db.Connection) (script : Script)
      → script ≢ commit
      → script ≢ rollback
      → (db.tables (db.exec script c).1 ≡ db.tables c)
        × (db.committed (db.exec script c).1 ≡ db.committed c)
  pub begins :
      (c : db.Connection)
      → (db.exec begin_immediate c).0 ≡ true
      → db.in_transaction (db.exec begin_immediate c).1 ≡ true
  pub commits :
      (c : db.Connection)
      → (db.exec commit c).0 ≡ true
      → db.committed (db.exec commit c).1 ≡ db.tables c
  pub fails_to_commit :
      (c : db.Connection)
      → (db.exec commit c).0 ≡ false
      → db.committed (db.exec commit c).1 ≡ db.committed c
  pub rolls_back : (c : db.Connection) → db.committed (db.exec rollback c).1 ≡ db.committed c

-- A database in memory that refuses only what a constraint refuses.
pub record Memory : Type 0 where
  pub current : Tables
  pub saved : Tables
  pub is_open : Bool

-- Outside a transaction every statement is committed.
abbrev stored : Memory → Tables → Memory
stored m t = record {
  current = t;
  saved = elim m.is_open [ true ↦ m.saved | false ↦ t ];
  is_open = m.is_open;
}

abbrev pub run_effect : Memory → Effect → Bool × Memory
run_effect m conflict = (false, m)
run_effect m unknown = (false, m)
run_effect m (changed t) = (true, stored m t)

abbrev pub run_script : Script → Memory → Bool × Memory
run_script pragmas m = (true, m)
run_script create_tables m = (true, m)
run_script begin_immediate m = (true, record m { is_open = true })
run_script commit m = (true, record m { saved = m.current; is_open = false })
run_script rollback m = (true, record m { current = m.saved; is_open = false })

abbrev pub memory : Sqlite
memory = record {
  Connection = Memory;
  tables = λ m. m.current;
  committed = λ m. m.saved;
  in_transaction = λ m. m.is_open;
  open_new = λ path. some (record { current = no_rows; saved = no_rows; is_open = false });
  prepares = λ s m. true;
  binds = λ s m. true;
  step = λ s m. run_effect m (effect s m.current);
  exec = run_script;
}

memory-changes :
    (m : Memory) (e : Effect) (t : Tables) → e ≡ changed t → (run_effect m e).1.current ≡ t
memory-changes m conflict t h = cc
memory-changes m unknown t h = cc
memory-changes m (changed u) t h = cc

memory-isolates :
    (m : Memory) (e : Effect)
    → m.is_open ≡ true
    → ((run_effect m e).1.saved ≡ m.saved) × ((run_effect m e).1.is_open ≡ true)
memory-isolates m conflict h = (refl, h)
memory-isolates m unknown h = (refl, h)
memory-isolates m (changed t) h = (rw h, h)

memory-prepares_rows :
    (m : Memory) (s : Script)
    → s ≢ commit
    → s ≢ rollback
    → ((run_script s m).1.current ≡ m.current) × ((run_script s m).1.saved ≡ m.saved)
memory-prepares_rows m pragmas a b = (refl, refl)
memory-prepares_rows m create_tables a b = (refl, refl)
memory-prepares_rows m begin_immediate a b = (refl, refl)
memory-prepares_rows m commit a b = absurd (a refl)
memory-prepares_rows m rollback a b = absurd (b refl)

pub memory-IsLawful : IsLawful memory
memory-IsLawful = record {
  opens = λ path c h. (cc, cc);
  changes = λ s c t h done. memory-changes c _ t h;
  conflicts = λ s c h. rw h refl;
  isolates = λ s c h. (memory-isolates c _ h).0;
  stays = λ s c h done. (memory-isolates c _ h).1;
  prepares_rows = memory-prepares_rows;
  begins = λ c h. refl;
  commits = λ c h. refl;
  fails_to_commit = λ c h. cc;
  rolls_back = λ c. refl;
}
