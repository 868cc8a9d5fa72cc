-- ===== src/Store/Activity.antt =====
-- What the events of a capsule add up to, and that the tables of src/sqlite_store.cpp which the writer
-- keeps beside them say the same. The sums are the ones that src/show.cpp asks for over `events`.
pub mod Files
pub mod Network
pub mod Commands
use whyrun.Common.Int.{ℤ, pos, pos_part, int_eq}
use whyrun.Common.{
  ℕ, ◌+◌, ◌≤◌, ◌≡◌, ◌&&◌, not, Bool, List, [], ◌∷◌, Option, none, some, Bytes, codes, equal,
  if◌then◌else◌, ◌==◌, arith,
}
use whyrun.Store.Tables.{EventRow, FileRow, NetworkRow}

-- type=? AND resource=?
unfoldable pub is_of : Bytes → Bytes → EventRow → Bool
is_of type resource row = equal row.type type && equal row.resource resource

-- COUNT(*)
unfoldable pub calls : Bytes → Bytes → List EventRow → ℕ
calls type resource [] = 0
calls type resource (row ∷ rows) =
    (if is_of type resource row then 1 else 0) + calls type resource rows

-- COALESCE(SUM(CASE WHEN result>0 THEN result ELSE 0 END), 0)
unfoldable pub bytes : Bytes → Bytes → List EventRow → ℕ
bytes type resource [] = 0
bytes type resource (row ∷ rows) =
    (if is_of type resource row then pos_part row.result else 0) + bytes type resource rows

-- SUM(CASE WHEN errno_value=0 THEN 1 ELSE 0 END)
unfoldable pub successes : Bytes → Bytes → List EventRow → ℕ
successes type resource [] = 0
successes type resource (row ∷ rows) =
    (if is_of type resource row && int_eq row.errno_value (pos 0) then 1 else 0)
    + successes type resource rows

unfoldable pub failures : Bytes → Bytes → List EventRow → ℕ
failures type resource [] = 0
failures type resource (row ∷ rows) =
    (if is_of type resource row && not (int_eq row.errno_value (pos 0)) then 1 else 0)
    + failures type resource rows

-- Of the newest.
unfoldable pub last_errno : Bytes → Bytes → List EventRow → ℤ
last_errno type resource [] = pos 0
last_errno type resource (row ∷ rows) =
    if is_of type resource row then row.errno_value else last_errno type resource rows

-- A number that none of these sums is above.
unfoldable pub total : List EventRow → ℕ
total [] = 0
total (row ∷ rows) = 1 + pos_part row.result + total rows

pub sums-le-total :
    (type resource : Bytes) (rows : List EventRow)
    → calls type resource rows + bytes type resource rows ≤ total rows
unfolding calls bytes total
sums-le-total type resource [] = omega arith
sums-le-total type resource (row ∷ rows) = ground (arith, sums-le-total type resource rows)

pub outcomes-calls :
    (type resource : Bytes) (rows : List EventRow)
    → successes type resource rows + failures type resource rows ≡ calls type resource rows
unfolding calls successes failures
outcomes-calls type resource [] = omega arith
outcomes-calls type resource (row ∷ rows) = ground (arith, outcomes-calls type resource rows)

pub bytes-no_calls :
    (type resource : Bytes) (rows : List EventRow)
    → calls type resource rows ≡ 0
    → bytes type resource rows ≡ 0
unfolding calls bytes
bytes-no_calls type resource [] h = omega arith
bytes-no_calls type resource (row ∷ rows) h = ground (arith, bytes-no_calls type resource rows)
