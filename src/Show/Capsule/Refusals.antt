-- ===== src/Show/Capsule/Refusals.antt =====
-- The capsules that `show` refuses.
use whyrun.Common.{
  equal_iff, ◌≡◌, ◌≢◌, ◌⊎◌, false, [], none, some, Bytes, codes, equal, inl, inr, arith,
}
use whyrun.CommandLine.{ShowOptions}
use whyrun.Common.Int.{ℤ}
use whyrun.Reader.{
  Reading, Cursor, done, failed, row, open_capsule, next, text, validate_schema, schema_query,
}
use whyrun.Show.Capsule.{show_database, show_body, show_capsule}

-- The ways in which a file is no capsule that `show` can show with these options.
pub data Unsuitable (lib : Reading) (options : ShowOptions) (path : Bytes) : Type 0 where
  no_database : lib.open_readonly path ≡ none → Unsuitable lib options path
  no_metadata :
      (d : lib.Database)
      → lib.open_readonly path ≡ some d
      → lib.query d schema_query ≡ none
      → Unsuitable lib options path
  unreadable_version :
      (d : lib.Database)
      → lib.open_readonly path ≡ some d
      → lib.query d schema_query ≡ some failed
      → Unsuitable lib options path
  no_version :
      (d : lib.Database)
      → lib.open_readonly path ≡ some d
      → lib.query d schema_query ≡ some done
      → Unsuitable lib options path
  other_version :
      (d : lib.Database) (r : lib.Row) (rest : Cursor lib.Row)
      → lib.open_readonly path ≡ some d
      → lib.query d schema_query ≡ some (row r rest)
      → text lib r 0 ≢ codes "1"
      → text lib r 0 ≢ codes "2"
      → text lib r 0 ≢ codes "3"
      → Unsuitable lib options path
  no_commands :
      (d : lib.Database) (r : lib.Row) (rest : Cursor lib.Row) (id : ℤ)
      → lib.open_readonly path ≡ some d
      → lib.query d schema_query ≡ some (row r rest)
      → (text lib r 0 ≡ codes "1") ⊎ (text lib r 0 ≡ codes "2")
      → options.command_id ≡ some id
      → Unsuitable lib options path

module _ (lib : Reading) (milliseconds : ℤ → Bytes) (options : ShowOptions) where
  differ : (s t : Bytes) → s ≢ t → equal s t ≡ false
  differ s t distinct = ground (arith, equal_iff s t)

  -- `show` prints nothing, and exits with 1, for a file that cannot be opened, whose schema version
  -- cannot be asked for, cannot be read, is missing or is none of 1, 2 and 3, and for a capsule of version
  -- 1 or 2 when a command is asked for.
  pub show_capsule-Unsuitable :
      (path : Bytes)
      → Unsuitable lib options path
      → show_capsule lib milliseconds path options ≡ ([], 1)
  unfolding show_capsule show_body open_capsule show_database validate_schema equal next
  show_capsule-Unsuitable path (no_database h) = rw h
  show_capsule-Unsuitable path (no_metadata d opens h) = rw (opens, h)
  show_capsule-Unsuitable path (unreadable_version d opens h) = rw (opens, h)
  show_capsule-Unsuitable path (no_version d opens h) = rw (opens, h)
  show_capsule-Unsuitable path (other_version d r rest opens h a b c) =
      rw (opens, h, differ _ _ a, differ _ _ b, differ _ _ c)
  show_capsule-Unsuitable path (no_commands d r rest id opens h (inl v) is_id) =
      rw (opens, h, v, is_id)
  show_capsule-Unsuitable path (no_commands d r rest id opens h (inr v) is_id) =
      rw (opens, h, v, is_id)
