-- ===== src/CommandLine/Record/Safety.antt =====
-- What `record` leaves in the file system.
use whyrun.Store.Writer.{write_header, RunMetadata, open_database}
use whyrun.Common.{
  length, length-append, codes, sym, ap, ◌^◌, ◌<◌, ◌≡◌, ◌≢◌, ◌⊎◌, refl, ◌∙◌, true, false, List, [],
  ◌∷◌, Option, none, some, Bytes, equal, equal_iff, Result, err, ok, inl, inr, Bool-cases, arith,
  if◌then◌else◌,
}
use whyrun.CommandLine.Record.{
  fragment, journal, being_written, closed, left_by, constructed_by, Request, File, capsule, Files,
  path_of, file_at, write_file, remove_file, Copy, copied, refused, broken, World, discard,
  write_capsule, write_temporary, opened, stored, publish_capsule, published, copy_to,
  record_guarded, guarded,
}
use whyrun.Collector.Loop.{Collection}
use whyrun.CommandLine.Record.Writing.{IsComplete, AllOrNothing, write_capsule-AllOrNothing}
use whyrun.Common.Actions.{pure, go_on, ◌>>◌}
use whyrun.Common.Map.{bytes_key}
use whyrun.Event.{Event}
use whyrun.Store.Activity.{total}
use whyrun.Store.Sqlite.{Sqlite, IsLawful}
use whyrun.Store.Tables.{Tables, find_row, find_row-put_row}
use whyrun.Store.Writer.Header.{rows_of}

pub file_at-write_file :
    (path other : Bytes) (file : File) (files : Files)
    → file_at other (write_file path file files)
      ≡ (if equal path other then some file else file_at other files)
unfolding file_at write_file
file_at-write_file path other file files =
    rw (find_row-put_row path_of other (path, file) files) (ground arith)

pub file_at-remove_file :
    (path other : Bytes) (files : Files)
    → file_at other (remove_file path files)
      ≡ (if equal path other then none else file_at other files)
unfolding file_at remove_file find_row
file_at-remove_file path other [] = ground arith
file_at-remove_file path other ((p, file) ∷ files) = ground (
  arith,
  equal_iff p path,
  equal_iff p other,
  equal_iff path other,
  file_at-remove_file path other files,
)

differ : (path other : Bytes) → path ≢ other → equal path other ≡ false
differ path other distinct = elim (Bool-cases (equal path other)) [
  | inl same ↦ absurd (distinct ((equal_iff path other).0 same))
  | inr h ↦ h
]

self : (path : Bytes) → equal path path ≡ true
self path = (equal_iff path path).1 refl

opened_new :
    (db : Sqlite) (path : Bytes) (c : db.Connection)
    → open_database db path ≡ ok c
    → db.open_new path ≡ some c
unfolding open_database
opened_new db path c opens = ground (arith, opens)

module _ {db : Sqlite} (world : World db) where
  pub file_at-discard_other :
      (path other : Bytes) (files : Files)
      → path ≢ other
      → file_at other (discard world path files) ≡ file_at other files
  unfolding discard
  file_at-discard_other path other files distinct =
      ground (arith, file_at-remove_file path other files, differ path other distinct)

  file_at-discard :
      (path : Bytes) (files : Files)
      → world.removes path ≡ true
      → file_at path (discard world path files) ≡ none
  unfolding discard
  file_at-discard path files removes =
      rw removes (file_at-remove_file path path files ∙ rw (self path))

  -- The files as the recorded program leaves them.
  abbrev pub as_left : Bytes → Files → Files
  as_left temporary before = world.touched (being_written world temporary before)

  -- The files of a recording that has thrown: no other file has been written.
  pub record Undone (temporary : Bytes) (before after : Files) : Type 0 where
    pub removed : file_at temporary after ≡ none
    pub no_journal :
        (file_at (journal temporary) after ≡ none)
        ⊎ (file_at (journal temporary) after ≡ file_at (journal temporary) before)
    pub others :
        (p : Bytes)
        → temporary ≢ p
        → journal temporary ≢ p
        → (file_at p after ≡ file_at p before)
          ⊎ (file_at p after ≡ file_at p (as_left temporary before))

  -- The files of one that has returned.
  pub record Published (temporary final : Bytes) (run : RunMetadata) (list : List Event)
      (result : Collection) (before after : Files) : Type 0 where
    pub rows : Tables
    pub there : file_at final after ≡ some (capsule rows)
    pub complete : IsComplete world.version run list result rows
    pub removed : file_at temporary after ≡ none
    pub no_journal : file_at (journal temporary) after ≡ none
    pub others :
        (p : Bytes)
        → temporary ≢ p
        → journal temporary ≢ p
        → final ≢ p
        → file_at p after ≡ file_at p (as_left temporary before)

journal_differs : (path : Bytes) → path ≢ journal path
journal_differs path h = omega (arith, ap length h, length-append path (codes "-journal"))

module _ (db : Sqlite) (lawful : IsLawful db) (world : World db) (temporary final : Bytes)
    (run : RunMetadata) (request : Request) (apart : temporary ≢ final)
    (clear : final ≢ journal temporary)
    (spares : (now : Files) → file_at temporary (world.touched now) ≡ file_at temporary now)
    (whole : world.copies ≢ broken) (removes : world.removes temporary ≡ true) (before : Files)
    (small : total (rows_of (world.collected request).0 []) < 2 ^ 63) where
  -- What a recording leaves, by its end.
  abbrev pub Settled : Result Collection × Files → Type 0
  Settled (err e, after) = Undone world temporary before after
  Settled (ok result, after) =
      ((world.collected request).1 ≡ ok result)
      × Published world temporary final run (world.collected request).0 result before after

  -- What the database leaves of other files.
  left_by-other :
      (t : Tables) (files : Files) (p : Bytes)
      → temporary ≢ p
      → journal temporary ≢ p
      → file_at p (left_by world temporary t files) ≡ file_at p files
  left_by-other t files p distinct no_journal =
      file_at-remove_file (journal temporary) p _
      ∙ rw (differ (journal temporary) p no_journal) (closed-other (file_at temporary files))
    where
      closed-other :
          (old : Option File) → file_at p (closed world temporary t old files) ≡ file_at p files
      closed-other none = refl
      closed-other (some (capsule other)) = refl
      closed-other (some fragment) =
          file_at-write_file temporary p (capsule t) files ∙ rw (differ temporary p distinct)

  left_by-journal :
      (t : Tables) (files : Files)
      → file_at (journal temporary) (left_by world temporary t files) ≡ none
  left_by-journal t files =
      file_at-remove_file (journal temporary) (journal temporary) _ ∙ rw (self (journal temporary))

  being_written-other :
      (p : Bytes)
      → temporary ≢ p
      → journal temporary ≢ p
      → file_at p (being_written world temporary before) ≡ file_at p before
  being_written-other p distinct no_journal =
      file_at-write_file (journal temporary) p fragment _
      ∙ rw (differ (journal temporary) p no_journal)
          (file_at-write_file temporary p fragment before ∙ rw (differ temporary p distinct))

  undone :
      (files : Files)
      → (file_at (journal temporary) files ≡ none)
        ⊎ (file_at (journal temporary) files ≡ file_at (journal temporary) before)
      → ((p : Bytes)
          → temporary ≢ p
          → journal temporary ≢ p
          → (file_at p files ≡ file_at p before)
            ⊎ (file_at p files ≡ file_at p (as_left world temporary before)))
      → Undone world temporary before (discard world temporary files)
  undone files no_journal others = record {
    removed = file_at-discard world temporary files removes;
    no_journal =
        rw
          (file_at-discard_other world temporary (journal temporary) files
            (journal_differs temporary))
          no_journal;
    others = λ p distinct not_journal.
        rw (file_at-discard_other world temporary p files distinct) (others p distinct not_journal);
  }

  -- The files once the temporary file is written.
  abbrev with_temporary : Tables → Files
  with_temporary t = left_by world temporary t (as_left world temporary before)

  temporary_others :
      (t : Tables) (p : Bytes)
      → temporary ≢ p
      → journal temporary ≢ p
      → file_at p (with_temporary t) ≡ file_at p (as_left world temporary before)
  temporary_others t p = left_by-other t (as_left world temporary before) p

  with_temporary-Undone :
      (t : Tables) → Undone world temporary before (discard world temporary (with_temporary t))
  with_temporary-Undone t =
      undone (with_temporary t) (inl (left_by-journal t (as_left world temporary before)))
        (λ p distinct not_journal. inr (temporary_others t p distinct not_journal))

  -- The recorded program has left it alone.
  temporary_there : (t : Tables) → file_at temporary (with_temporary t) ≡ some (capsule t)
  temporary_there t =
      file_at-remove_file (journal temporary) temporary _
      ∙ rw (differ (journal temporary) temporary (λ e. journal_differs temporary (sym e)))
          (rw still (file_at-write_file temporary temporary (capsule t) _ ∙ rw (self temporary)))
    where
      still : file_at temporary (as_left world temporary before) ≡ some fragment
      still =
          spares (being_written world temporary before)
          ∙ file_at-write_file (journal temporary) temporary fragment _
          ∙ rw (differ (journal temporary) temporary (λ e. journal_differs temporary (sym e)))
              (file_at-write_file temporary temporary fragment before ∙ rw (self temporary))

  copy_to-Settled :
      (t : Tables) (result : Collection)
      → (world.collected request).1 ≡ ok result
      → IsComplete world.version run (world.collected request).0 result t
      → (copy : Copy) → copy ≢ broken
      → Settled (
          guarded world temporary (
            go_on
              (copy_to world temporary final (capsule t) copy (with_temporary t)).0
              (λ _. pure result)
              (copy_to world temporary final (capsule t) copy (with_temporary t)).1))
  copy_to-Settled t result is_result complete copied _ = (
    is_result,
    record {
      rows = t;
      there =
          file_at-discard_other world temporary final _ apart
          ∙ file_at-write_file final final (capsule t) (with_temporary t)
          ∙ rw (self final);
      complete = complete;
      removed = file_at-discard world temporary _ removes;
      no_journal =
          file_at-discard_other world temporary (journal temporary) _ (journal_differs temporary)
          ∙ file_at-write_file final (journal temporary) (capsule t) (with_temporary t)
          ∙ rw (differ final (journal temporary) clear)
              (left_by-journal t (as_left world temporary before));
      others = λ p not_temporary not_journal not_final.
          file_at-discard_other world temporary p _ not_temporary
          ∙ file_at-write_file final p (capsule t) (with_temporary t)
          ∙ rw (differ final p not_final) (temporary_others t p not_temporary not_journal);
    },
  )
  copy_to-Settled t result is_result complete refused _ = with_temporary-Undone t
  copy_to-Settled t result is_result complete broken intact = absurd (intact refl)

  published-Settled :
      (t : Tables) (result : Collection)
      → (world.collected request).1 ≡ ok result
      → IsComplete world.version run (world.collected request).0 result t
      → (old : Option File)
      → Settled (
          guarded world temporary (
            go_on
              (published world temporary final (some (capsule t)) old (with_temporary t)).0
              (λ _. pure result)
              (published world temporary final (some (capsule t)) old (with_temporary t)).1))
  published-Settled t result is_result complete none =
      copy_to-Settled t result is_result complete world.copies whole
  published-Settled t result is_result complete (some old) = with_temporary-Undone t

  -- The program has run.
  stored-Settled :
      (header : db.Connection) (x : Result Collection × db.Connection)
      → AllOrNothing db lawful world run (world.collected request).0 (world.collected request).1 x
      → Settled (
          guarded world temporary (
            go_on
              (stored world temporary (ok tt, header) x before).0
              (λ result. publish_capsule world temporary final >> pure result)
              (stored world temporary (ok tt, header) x before).1))
  unfolding publish_capsule
  stored-Settled header (err e, c) nothing = with_temporary-Undone (db.committed c)
  stored-Settled header (ok result, c) (is_result, complete) =
      rw (temporary_there (db.committed c)) (
        published-Settled (db.committed c) result is_result complete
          (file_at final (with_temporary (db.committed c))))

  -- The constructor has thrown, or it has not.
  constructed-Settled :
      (header : Result Unit × db.Connection)
      → AllOrNothing db lawful world run
          (world.collected request).0
          (world.collected request).1
          (constructed_by world (world.collected request).0 (world.collected request).1 header)
      → Settled (
          guarded world temporary (
            go_on
              (stored world temporary header
                (constructed_by world
                  (world.collected request).0
                  (world.collected request).1
                  header)
                before).0
              (λ result. publish_capsule world temporary final >> pure result)
              (stored world temporary header
                (constructed_by world
                  (world.collected request).0
                  (world.collected request).1
                  header)
                before).1))
  constructed-Settled (ok _, c) all =
      stored-Settled c
        (constructed_by world (world.collected request).0 (world.collected request).1 (ok tt, c))
        all
  constructed-Settled (err e, c) all =
      undone (left_by world temporary (db.committed c) (being_written world temporary before))
        (inl (left_by-journal (db.committed c) (being_written world temporary before)))
        (λ p distinct not_journal. inl (
          left_by-other (db.committed c) (being_written world temporary before) p distinct
            not_journal
          ∙ being_written-other p distinct not_journal))

  opened-Settled :
      (database : Result db.Connection)
      → open_database db temporary ≡ database
      → Settled (
          guarded world temporary (
            go_on
              (opened world temporary run request database before).0
              (λ result. publish_capsule world temporary final >> pure result)
              (opened world temporary run request database before).1))
  unfolding write_capsule
  opened-Settled (err e) same = undone before (inr refl) (λ p distinct not_journal. inl refl)
  opened-Settled (ok c) same = constructed-Settled (write_header db world.version run c) (
      write_capsule-AllOrNothing db lawful world run request temporary c
        (opened_new db temporary c same) small)

-- Behind the choice of the two paths, for a database that keeps what SQLite documents, a copy that
-- leaves no part of a file behind, a temporary file that can be removed, and a recorded program that
-- leaves that file alone: if `record` throws, the temporary file is gone and every other file is as it
-- was before, or as the recorded program left it. If it returns, it has the result of the collector, the
-- final path holds the complete capsule of what the collector emitted and returned, the temporary file
-- and its journal are gone, and every other file is as the recorded program left it.
pub record_guarded-Settled :
    (db : Sqlite) (lawful : IsLawful db) (world : World db) (temporary final : Bytes)
    (run : RunMetadata) (request : Request) (apart : temporary ≢ final)
    (clear : final ≢ journal temporary)
    (spares : (now : Files) → file_at temporary (world.touched now) ≡ file_at temporary now)
    (whole : world.copies ≢ broken) (removes : world.removes temporary ≡ true) (before : Files)
    (small : total (rows_of (world.collected request).0 []) < 2 ^ 63)
    → Settled db lawful world temporary final run request apart clear spares whole removes before
        small
        (record_guarded world temporary final run request before)
unfolding record_guarded write_temporary
record_guarded-Settled db lawful world temporary final run request apart clear spares whole removes
      before small =
    opened-Settled db lawful world temporary final run request apart clear spares whole removes
      before small (open_database db temporary) refl
