-- ===== src/Store/Activity/Files.antt =====
-- The rows of `file_activity`.
use native.Mathlib.Nat.{zero-add}
use whyrun.Common.Int.{ℤ, pos, pos_part, ◌+ℤ◌}
use whyrun.Common.Map.{bytes_key}
use whyrun.Common.{
  ℕ, ◌+◌, ◌^◌, ◌<◌, ◌≡◌, ◌⊎◌, ◌&&◌, refl, ◌∙◌, sym, Bool, true, false, List, ◌∷◌, Option, none,
  some, Bytes, codes, equal, equal_iff, if◌then◌else◌, ◌==◌, arith, Bool-cases, inl, inr,
}
use whyrun.Store.Activity.{is_of, calls, bytes, total, sums-le-total, bytes-no_calls}
use whyrun.Store.Tables.{
  EventRow, FileRow, Tables, find_row, put_row, find_row-put_row, merged_file, file_fits, effect,
  add_file_activity, changed,
}
use whyrun.Store.Writer.{file_row}

abbrev read : Bytes
read = codes "file_read"

abbrev write : Bytes
write = codes "file_write"

-- The row of a path that has been read and written as often.
unfoldable pub row_of : Bytes → ℕ → ℕ → ℕ → ℕ → Option FileRow
row_of path reads writes bytes_read bytes_written =
    if reads + writes == 0
    then none
    else some (record {
      path = path;
      read_calls = pos reads;
      write_calls = pos writes;
      bytes_read = pos bytes_read;
      bytes_written = pos bytes_written;
    })

-- What the events say of the reads and the writes of a path.
unfoldable pub file_total : Bytes → List EventRow → Option FileRow
file_total path rows =
    row_of path (calls read path rows) (calls write path rows) (bytes read path rows)
      (bytes write path rows)

abbrev pub FilesAgree : Tables → Type 0
FilesAgree t =
    (path : Bytes)
    → find_row (λ (r : FileRow). r.path) path t.file_activity ≡ file_total path t.events

and-false : (b : Bool) → (b && false) ≡ false
and-false true = refl
and-false false = refl

-- One more event of another type leaves the sums alone.
pub file_total-other :
    (path : Bytes) (row : EventRow) (rows : List EventRow)
    → equal row.type read ≡ false
    → equal row.type write ≡ false
    → file_total path (row ∷ rows) ≡ file_total path rows
unfolding file_total calls bytes is_of
file_total-other path row rows not_read not_write = rw (not_read, not_write) (simp zero-add)

pub file_total-elsewhere :
    (path : Bytes) (row : EventRow) (rows : List EventRow)
    → equal row.resource path ≡ false
    → file_total path (row ∷ rows) ≡ file_total path rows
unfolding file_total calls bytes is_of
file_total-elsewhere path row rows elsewhere =
    let in_none : (type : Bytes) → (equal row.type type && equal row.resource path) ≡ false =
      λ type. rw elsewhere (and-false (equal row.type type)) in
    rw (in_none read, in_none write) (simp zero-add)

module _ (path : Bytes) (r w br bw : ℕ) (result : ℤ) where
  more_read :
      (r ≡ 0 → br ≡ 0)
      → (w ≡ 0 → bw ≡ 0)
      → row_of path (1 + r) w (pos_part result + br) bw
        ≡ some (merged_file (file_row path true result) (row_of path r w br bw))
  unfolding row_of merged_file file_row ◌+ℤ◌
  more_read no_reads no_writes = ground arith

  more_written :
      (r ≡ 0 → br ≡ 0)
      → (w ≡ 0 → bw ≡ 0)
      → row_of path r (1 + w) br (pos_part result + bw)
        ≡ some (merged_file (file_row path false result) (row_of path r w br bw))
  unfolding row_of merged_file file_row ◌+ℤ◌
  more_written no_reads no_writes = ground arith

-- One more event of a path is what the writer adds to its row.
module _ (row : EventRow) (rows : List EventRow) (path : Bytes)
    (here : equal row.resource path ≡ true) where
  pub file_total-read :
      row.type ≡ read
      → file_total path (row ∷ rows)
        ≡ some (merged_file (file_row path true row.result) (file_total path rows))
  unfolding file_total calls bytes is_of equal
  file_total-read reads =
      rw (reads, here)
        (simp zero-add (
          more_read path (calls read path rows) (calls write path rows) (bytes read path rows)
            (bytes write path rows) row.result (bytes-no_calls read path rows)
            (bytes-no_calls write path rows)))

  pub file_total-write :
      row.type ≡ write
      → file_total path (row ∷ rows)
        ≡ some (merged_file (file_row path false row.result) (file_total path rows))
  unfolding file_total calls bytes is_of equal
  file_total-write writes =
      rw (writes, here)
        (simp zero-add (
          more_written path (calls read path rows) (calls write path rows) (bytes read path rows)
            (bytes write path rows) row.result (bytes-no_calls read path rows)
            (bytes-no_calls write path rows)))

file_total-fits :
    (path : Bytes) (rows : List EventRow) (f : FileRow)
    → total rows < 2 ^ 63
    → some f ≡ file_total path rows
    → file_fits f ≡ true
unfolding file_total row_of
file_total-fits path rows f small is_total =
    ground (arith, sums-le-total read path rows, sums-le-total write path rows)

file_total-path :
    (path : Bytes) (rows : List EventRow) (r : FileRow)
    → file_total path rows ≡ some r
    → r.path ≡ path
unfolding file_total row_of
file_total-path path rows r is_total = ground arith

-- The table once a row is added for the event.
abbrev pub with_file : Tables → FileRow → Tables
with_file t f = record t {
  file_activity =
      put_row (λ (r : FileRow). r.path)
        (merged_file f (find_row (λ (r : FileRow). r.path) f.path t.file_activity)) t.file_activity;
}

module _ (t : Tables) (row : EventRow) (f : FileRow) (agree : FilesAgree t)
    (small : total (row ∷ t.events) < 2 ^ 63) (same_path : row.resource ≡ f.path)
    (adds : file_total f.path (row ∷ t.events)
      ≡ some (merged_file f (file_total f.path t.events))) where
  abbrev added : Tables
  added = record t { events = row ∷ t.events }

  stored :
      some (merged_file f (find_row (λ (r : FileRow). r.path) f.path t.file_activity))
      ≡ file_total f.path (row ∷ t.events)
  stored = rw (agree f.path) (sym adds)

  pub effect-file : effect (add_file_activity f) added ≡ changed (with_file added f)
  unfolding effect
  effect-file = rw (file_total-fits f.path (row ∷ t.events) _ small stored) refl

  pub with_file-FilesAgree : FilesAgree (with_file added f)
  unfolding merged_file
  with_file-FilesAgree path =
      find_row-put_row (λ (r : FileRow). r.path) path new t.file_activity
      ∙ rw its_path (by_path (Bool-cases (equal f.path path)))
    where
      new : FileRow
      new = merged_file f (find_row (λ (r : FileRow). r.path) f.path t.file_activity)

      its_path : new.path ≡ f.path
      its_path = file_total-path f.path (row ∷ t.events) new (sym stored)

      by_path :
          (equal f.path path ≡ true) ⊎ (equal f.path path ≡ false)
          → (if equal f.path path
              then some new
              else find_row (λ (r : FileRow). r.path) path t.file_activity)
            ≡ file_total path (row ∷ t.events)
      by_path (inl here) = rw here (rw (← (equal_iff f.path path).0 here) stored)
      by_path (inr elsewhere) =
          rw elsewhere
            (agree path ∙ sym (file_total-elsewhere path row t.events (rw same_path elsewhere)))
