-- ===== src/CommandLine/Record/Whole.antt =====
-- The whole of `record` behind its arguments.
use whyrun.Common.{
  some, [], ◌^◌, ◌<◌, ◌≡◌, ◌≢◌, ◌⊎◌, refl, true, List, Option, none, Bytes, Lacks, Error, Result,
  err, ok, inl, inr,
}
use whyrun.CommandLine.Record.{
  journal, Request, Files, file_at, broken, World, request_of, metadata_for, final_path,
  temporary_path, record_guarded, record_body,
}
use whyrun.Collector.Loop.{Collection}
use whyrun.CommandLine.Record.Choice.{slash, paths-apart}
use whyrun.CommandLine.Record.Safety.{Undone, Published, Settled, record_guarded-Settled}
use whyrun.Common.Actions.{pure, lift, go_on, ◌>>=◌}
use whyrun.Store.Activity.{total}
use whyrun.Store.Sqlite.{Sqlite, IsLawful}
use whyrun.Store.Writer.Header.{rows_of}

module _ (db : Sqlite) (lawful : IsLawful db) (world : World db) (whole : world.copies ≢ broken)
    (removes : (path : Bytes) → world.removes path ≡ true) (in_base : Lacks slash world.base)
    (named : world.temp_directory ≢ some [])
    (small : (request : Request) → total (rows_of (world.collected request).0 []) < 2 ^ 63)
    (program : Option (List Bytes)) (files : Files)
    (spares : (final temporary : Bytes)
      → final_path world files ≡ ok final
      → temporary_path world (metadata_for world program final).id files ≡ ok temporary
      → (now : Files) → file_at temporary (world.touched now) ≡ file_at temporary now) where
  abbrev pub Ended : Request → Bytes → Bytes → Result (Bytes × Collection) → Files → Type 0
  Ended request final temporary (err e) after = Undone world temporary files after
  Ended request final temporary (ok (path, result)) after =
      (path ≡ final)
      × ((world.collected request).1 ≡ ok result)
      × Published world temporary final (metadata_for world program final)
          (world.collected request).0 result files after

  -- Behind the choice of the paths: both were free, and the rest is settled.
  pub record Begun (r : Result (Bytes × Collection)) (after : Files) : Type 0 where
    pub request : Request
    pub final : Bytes
    pub temporary : Bytes
    pub requested : request_of world program ≡ ok request
    pub is_final : final_path world files ≡ ok final
    pub is_temporary :
        temporary_path world (metadata_for world program final).id files ≡ ok temporary
    pub apart : temporary ≢ final
    pub final_free : file_at final files ≡ none
    pub temporary_free : file_at temporary files ≡ none
    pub settled : Ended request final temporary r after

  -- The session cannot be set up, or one of the paths cannot be found.
  abbrev pub IsUnready : Error → Type 0
  IsUnready e =
      (request_of world program ≡ err e)
      ⊎ ((final_path world files ≡ err e)
          ⊎ ((final : Bytes) × (final_path world files ≡ ok final)
              × (temporary_path world (metadata_for world program final).id files ≡ err e)))

  -- What `record` comes to: an exception before any file is touched, or what `Begun` says.
  abbrev pub Recorded : Result (Bytes × Collection) × Files → Type 0
  Recorded (r, after) = ((e : Error) × IsUnready e × (r ≡ err e) × (after ≡ files)) ⊎ Begun r after

  module _ (request : Request) (requested : request_of world program ≡ ok request) where
    both_chosen :
        (final temporary : Bytes) (x : Result Collection × Files)
        → (apart : temporary ≢ final) → (clear : final ≢ journal temporary)
        → (is_final : final_path world files ≡ ok final)
        → (is_temporary : temporary_path world (metadata_for world program final).id files
            ≡ ok temporary)
        → file_at final files ≡ none
        → file_at temporary files ≡ none
        → Settled db lawful world temporary final
            (metadata_for world program final)
            request
            apart
            clear
            (spares final temporary is_final is_temporary)
            whole
            (removes temporary)
            files
            (small request)
            x
        → Recorded (go_on x.0 (λ result. pure (final, result)) x.1)
    both_chosen final temporary (err e, after) apart clear is_final is_temporary final_free
          temporary_free undone =
        inr (record {
          request = request;
          final = final;
          temporary = temporary;
          requested = requested;
          is_final = is_final;
          is_temporary = is_temporary;
          apart = apart;
          final_free = final_free;
          temporary_free = temporary_free;
          settled = undone;
        })
    both_chosen final temporary (ok result, after) apart clear is_final is_temporary final_free
          temporary_free (is_result, published) =
        inr (record {
          request = request;
          final = final;
          temporary = temporary;
          requested = requested;
          is_final = is_final;
          is_temporary = is_temporary;
          apart = apart;
          final_free = final_free;
          temporary_free = temporary_free;
          settled = (refl, is_result, published);
        })

    temporary_chosen :
        (final : Bytes) (chosen : Result Bytes)
        → final_path world files ≡ ok final
        → temporary_path world (metadata_for world program final).id files ≡ chosen
        → Recorded (
            (lift chosen >>= λ temporary.
            record_guarded world temporary final (metadata_for world program final) request
            >>= λ result. pure (final, result))
              files)
    temporary_chosen final (err e) is_final is_temporary =
        inl (e, inr (inr (final, is_final, is_temporary)), refl, refl)
    temporary_chosen final (ok temporary) is_final is_temporary =
        let (final_free, temporary_free, apart, clear) =
          paths-apart world files (metadata_for world program final).id final temporary in_base
            named is_final is_temporary in
        both_chosen final temporary
          (record_guarded world temporary final (metadata_for world program final) request files)
          apart clear is_final is_temporary final_free temporary_free
          (record_guarded-Settled db lawful world temporary final (metadata_for world program final)
            request apart clear (spares final temporary is_final is_temporary) whole
            (removes temporary) files (small request))

    final_chosen :
        (chosen : Result Bytes)
        → final_path world files ≡ chosen
        → Recorded (
            (lift chosen >>= λ final.
            lift (temporary_path world (metadata_for world program final).id files) >>= λ temporary.
            record_guarded world temporary final (metadata_for world program final) request
            >>= λ result. pure (final, result))
              files)
    final_chosen (err e) is_final = inl (e, inr (inl is_final), refl, refl)
    final_chosen (ok final) is_final =
        temporary_chosen final (temporary_path world (metadata_for world program final).id files)
          is_final refl

  request_chosen :
      (chosen : Result Request)
      → request_of world program ≡ chosen
      → Recorded (
          (lift chosen >>= λ request. lift (final_path world files) >>= λ final.
          lift (temporary_path world (metadata_for world program final).id files) >>= λ temporary.
          record_guarded world temporary final (metadata_for world program final) request
          >>= λ result. pure (final, result))
            files)
  request_chosen (err e) requested = inl (e, inl requested, refl, refl)
  request_chosen (ok request) requested =
      final_chosen request requested (final_path world files) refl

  -- For a database that keeps what SQLite documents, a copy that is not broken off, removals that
  -- succeed, a time stamp without `/`, a named directory for temporary files, sums below 2 ^ 63, and a
  -- recorded program that leaves the temporary file alone: `record` behind its arguments throws before
  -- it touches a file, because the session cannot be set up or one of its two paths cannot be found; or
  -- it has found two different paths, at which there was nothing. If it then throws, nothing is left at
  -- the temporary path, and every other file but SQLite's journal is as it was, or as the tracees left it.
  -- If it returns, it returns the final path and the collector's result, the file at the final path is a
  -- whole capsule of the collected events, nothing is left at the temporary path or of its journal, and
  -- every other file is as the tracees left it.
  pub record_body-Recorded : Recorded (record_body world program files)
  unfolding record_body
  record_body-Recorded = request_chosen (request_of world program) refl
