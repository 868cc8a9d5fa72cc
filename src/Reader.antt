-- ===== src/Reader.antt =====
-- src/capsule_reader.hpp: how a capsule is read. SQLite is a parameter.
use whyrun.Common.Int.{ℤ}
use whyrun.Common.Output.{Output, give, fail, ◌>>=◌}
use whyrun.Common.{
  ℕ, ◌&&◌, not, Bool, [], Option, none, some, Bytes, codes, equal, if◌then◌else◌, cannot_open,
  prepare_failed, step_failed, missing_schema_version, unsupported_schema,
}
use whyrun.Endpoint.{until_zero}

-- The answers of `sqlite3_step`, in their order: rows, and then SQLITE_DONE or an error.
pub data Cursor (Row : Type 0) : Type 0 where
  done failed : Cursor Row
  row : Row → Cursor Row → Cursor Row

-- SQLite, where it reads.
pub record Reading : Type 1 where
  pub Database : Type 0
  pub Row : Type 0
  -- `sqlite3_open_v2` with SQLITE_OPEN_READONLY
  pub open_readonly : Bytes → Option Database
  -- A query that is prepared, with its answers; `none` if it cannot be prepared.
  pub query : Database → Bytes → Option (Cursor Row)
  pub column_int64 : Row → ℕ → ℤ
  -- `none` for a null pointer
  pub column_text : Row → ℕ → Option Bytes
  pub column_is_null : Row → ℕ → Bool

abbrev pub version_of : Bytes → Output ℕ
version_of version =
    if not (equal version (codes "1"))
      && not (equal version (codes "2"))
      && not (equal version (codes "3"))
    then fail unsupported_schema
    else give (if equal version (codes "1") then 1 else if equal version (codes "2") then 2 else 3)

abbrev pub schema_query : Bytes
schema_query = codes "SELECT value FROM metadata WHERE key='schema_version'"

module _ (lib : Reading) where
  abbrev pub opened : Option lib.Database → Output lib.Database
  opened none = fail cannot_open
  opened (some database) = give database

  -- The constructor of `ReadDatabase`
  unfoldable pub open_capsule : Bytes → Output lib.Database
  open_capsule path = opened (lib.open_readonly path)

  abbrev pub prepared : Option (Cursor lib.Row) → Output (Cursor lib.Row)
  prepared none = fail prepare_failed
  prepared (some answers) = give answers

  -- The constructor of `ReadStatement`
  unfoldable pub prepare : lib.Database → Bytes → Output (Cursor lib.Row)
  prepare database sql = prepared (lib.query database sql)

  -- `next`: the row that the statement stands on, if there is one, and what is left of the answers.
  unfoldable pub next : Cursor lib.Row → Output (Option (lib.Row × Cursor lib.Row))
  next done = give none
  next failed = fail step_failed
  next (row r rest) = give (some (r, rest))

  abbrev c_string : Option Bytes → Bytes
  c_string none = []
  c_string (some t) = until_zero t

  -- `text`, which reads a C string.
  unfoldable pub text : lib.Row → ℕ → Bytes
  unfolding until_zero
  text r column = c_string (lib.column_text r column)

  abbrev pub version_row : Option (lib.Row × Cursor lib.Row) → Output ℕ
  version_row none = fail missing_schema_version
  version_row (some (r, rest)) = version_of (text r 0)

  unfoldable pub validate_schema : lib.Database → Output ℕ
  unfolding prepare equal
  validate_schema database = prepare database schema_query >>= λ c. next c >>= version_row

  -- `while (statement.next())`, with a step for each row.
  unfoldable pub each_row : {S : Type 0} → (lib.Row → S → Output S) → Cursor lib.Row → S → Output S
  each_row step done s = give s
  each_row step failed s = fail step_failed
  each_row step (row r rest) s = step r s >>= each_row step rest
