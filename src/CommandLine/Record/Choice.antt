-- ===== src/CommandLine/Record/Choice.antt =====
-- The two paths of a recording.
use whyrun.Common.{
  append_assoc, Bool-cases, ◌==◌, ◌∙◌, has_value, ℕ, zero, suc, ◌+◌, ◌^◌, ◌<◌, ◌≡◌, ◌≢◌, refl, sym,
  ap, true, [], ◌∷◌, ◌++◌, map, Option, none, some, Bytes, codes, length, Error, Lacks, All,
  All-append, Result, err, ok, inl, inr, arith,
}
use whyrun.CommandLine.Record.{
  journal, Files, path_of, file_at, World, inspect, final_path, temporary_path, searched,
  rounds_for,
}
use whyrun.Store.Paths.{
  beneath, separator, Status, present, absent, numbered, next_suffix, default_loop,
  default_capsule_path, temporary_loop, temporary_name, temporary_base, temporary_capsule_path,
}
use whyrun.Common.Map.{bytes_key}
use whyrun.Common.Number.Laws.{IsDigit, All-to_string}
use whyrun.Common.Number.{to_string}
use whyrun.Store.Paths.Fresh.{
  Chosen, holds, Status-cases, default_capsule_path-Chosen, temporary_capsule_path-Chosen,
}
use whyrun.Store.Sqlite.{Sqlite}
use whyrun.Store.Tables.{find_row}

abbrev pub slash : ℕ
slash = b'/'

some_ok : {a b : Bytes} → ◌≡◌ {A = Option (Result Bytes)} (some (ok a)) (some (ok b)) → a ≡ b
some_ok h = cc

some_err :
    {b : Bytes} {e : Error} → ◌≡◌ {A = Option (Result Bytes)} (some (err e)) (some (ok b)) → ⊥
some_err h = cc

none-some : {b : Bytes} → ◌≡◌ {A = Option (Result Bytes)} none (some (ok b)) → ⊥
none-some h = cc

digits-Lacks : (s : Bytes) → All IsDigit s → Lacks slash s
digits-Lacks [] h = tt
digits-Lacks (c ∷ s) (digit, h) = (ground arith, digits-Lacks s h)

numbered-Lacks :
    (base : Bytes) (n : ℕ) → Lacks slash base → Lacks slash (numbered base (codes ".wrun") n)
numbered-Lacks base n in_base = All-append _ base _ in_base (
  (λ e. absurd (omega arith)),
  All-append _ (to_string n) (codes ".wrun") (digits-Lacks (to_string n) (All-to_string n))
      (ground arith),
)

-- A path beneath a directory has a slash in it.
slash_found : (d name : Bytes) → d ≢ [] → ¬ (Lacks slash (beneath d name))
unfolding separator
slash_found [] name given h = given refl
slash_found (c ∷ []) name given (not_slash, h) = elim (Bool-cases (c == slash)) [
  | inl hit ↦ not_slash (ground arith)
  | inr miss ↦ (rw miss at h).0 refl
]
slash_found (c ∷ d ∷ rest) name given (_, h) = slash_found (d ∷ rest) name (λ e. cc) h

-- A path is chosen only if nothing is there, and the capsule's lies in the working directory.
module _ (status : Bytes → Status) where
  default_loop-absent :
      (rounds : ℕ) (base candidate path : Bytes) (suffix : ℕ)
      → default_loop status rounds base candidate suffix ≡ some (ok path)
      → status path ≡ absent
  unfolding default_loop
  default_loop-absent zero base candidate path suffix chosen = cc
  default_loop-absent (suc rounds) base candidate path suffix chosen =
      elim (Status-cases (status candidate)) [
        | inl here ↦
            default_loop-absent rounds base (numbered base (codes ".wrun") suffix) path
              (next_suffix suffix) (rw (here, default_loop) at chosen)
        | inr (inl free) ↦
            let same : candidate ≡ path = some_ok (rw (free, default_loop) at chosen) in
            rw (← same) free
        | inr (inr failed) ↦ absurd (some_err (rw (failed, default_loop) at chosen))
      ]

  default_loop-Lacks :
      (rounds : ℕ) (base candidate path : Bytes) (suffix : ℕ)
      → Lacks slash base
      → Lacks slash candidate
      → default_loop status rounds base candidate suffix ≡ some (ok path)
      → Lacks slash path
  unfolding default_loop
  default_loop-Lacks zero base candidate path suffix in_base in_candidate chosen =
      absurd (none-some chosen)
  default_loop-Lacks (suc rounds) base candidate path suffix in_base in_candidate chosen =
      elim (Status-cases (status candidate)) [
        | inl here ↦
            default_loop-Lacks rounds base (numbered base (codes ".wrun") suffix) path
              (next_suffix suffix) in_base (numbered-Lacks base suffix in_base)
              (rw (here, default_loop) at chosen)
        | inr (inl free) ↦
            let same : candidate ≡ path = some_ok (rw (free, default_loop) at chosen) in
            rw (← same) in_candidate
        | inr (inr failed) ↦ absurd (some_err (rw (failed, default_loop) at chosen))
      ]

  temporary_loop-chosen :
      (rounds : ℕ) (directory base path : Bytes) (suffix : ℕ)
      → temporary_loop status rounds directory base suffix ≡ some (ok path)
      → (name : Bytes) × (path ≡ beneath directory name) × (status path ≡ absent)
  unfolding temporary_loop
  temporary_loop-chosen zero directory base path suffix chosen = absurd (none-some chosen)
  temporary_loop-chosen (suc rounds) directory base path suffix chosen =
      elim (Status-cases (status (beneath directory (temporary_name base suffix)))) [
        | inl here ↦
            temporary_loop-chosen rounds directory base path (next_suffix suffix)
              (rw (here, temporary_loop) at chosen)
        | inr (inl free) ↦
            let same : beneath directory (temporary_name base suffix) ≡ path =
              some_ok (rw (free, temporary_loop) at chosen) in
            (temporary_name base suffix, sym same, rw (← same) free)
        | inr (inr failed) ↦ absurd (some_err (rw (failed, temporary_loop) at chosen))
      ]

searched-ok :
    (found : Option (Result Bytes)) (path : Bytes)
    → ◌≡◌ {A = Result Bytes} (searched found) (ok path)
    → found ≡ some (ok path)
searched-ok none path h = cc
searched-ok (some r) path h = ap some h

temporary-chosen :
    (status : Bytes → Status) (rounds : ℕ) (directory : Option Bytes) (run_id : Bytes) (pid : ℕ)
    (path : Bytes)
    → temporary_capsule_path status rounds directory run_id pid ≡ some (ok path)
    → (d : Bytes) × (name : Bytes) × (directory ≡ some d)
      × (path ≡ beneath d name)
      × (status path ≡ absent)
unfolding temporary_capsule_path
temporary-chosen status rounds none run_id pid path chosen = absurd (some_err chosen)
temporary-chosen status rounds (some d) run_id pid path chosen =
    let (name, is_path, free) =
      temporary_loop-chosen status rounds d (temporary_base run_id pid) path 0 chosen in
    (d, name, refl, is_path, free)

file_at-holds :
    (path : Bytes) (files : Files)
    → has_value (file_at path files) ≡ true
    → holds path (map path_of files) ≡ true
unfolding file_at find_row holds
file_at-holds path [] here = cc
file_at-holds path ((p, file) ∷ files) here = ground (arith, file_at-holds path files)

length-map : (files : Files) → length (map path_of files) ≡ length files
length-map [] = refl
length-map ((p, file) ∷ files) = ap suc (length-map files)

module _ {db : Sqlite} (world : World db) (files : Files) where
  inspect-absent : (path : Bytes) → inspect world files path ≡ absent → file_at path files ≡ none
  unfolding inspect
  inspect-absent path is_absent = ground arith

  -- The paths that `record` writes are those at which there was nothing, and, where the time is
  -- written without a slash and the directory for temporary files has a name, they are different.
  pub paths-apart :
      (run_id final temporary : Bytes)
      → Lacks slash world.base
      → world.temp_directory ≢ some []
      → final_path world files ≡ ok final
      → temporary_path world run_id files ≡ ok temporary
      → (file_at final files ≡ none)
        × (file_at temporary files ≡ none)
        × (temporary ≢ final)
        × (final ≢ journal temporary)
  unfolding default_capsule_path
  paths-apart run_id final temporary in_base named is_final is_temporary =
      let chosen =
        searched-ok (default_capsule_path (inspect world files) (length files + 1) world.base) final
          is_final in
      let in_final =
        default_loop-Lacks (inspect world files) (length files + 1) world.base
          (world.base ++ codes ".wrun") final 1 in_base
          (All-append _ world.base (codes ".wrun") in_base (ground arith)) chosen in
      let (d, name, is_directory, is_path, free) =
        temporary-chosen (inspect world files) (length files + 1) world.temp_directory run_id
          world.pid temporary (searched-ok _ temporary is_temporary) in
      (
        inspect-absent final (
            default_loop-absent (inspect world files) (length files + 1) world.base
              (world.base ++ codes ".wrun") final 1 chosen),
        inspect-absent temporary free,
        λ same.
            slash_found d name (λ e. named (is_directory ∙ ap some e))
              (rw (← is_path, same) in_final),
        λ same.
            slash_found d (name ++ codes "-journal") (λ e. named (is_directory ∙ ap some e))
              (rw
                (
                  same,
                  is_path,
                  append_assoc d (separator d ++ name) (codes "-journal"),
                  append_assoc (separator d) name (codes "-journal"),
                )
                at in_final),
      )

  present-holds :
      (path : Bytes) → inspect world files path ≡ present → holds path (map path_of files) ≡ true
  unfolding inspect
  present-holds path here = file_at-holds path files (ground arith)

  -- The rounds that the model gives to the two searches are enough.
  pub rounds_for-Chosen :
      (directory run_id : Bytes)
      → length files + 2 < 2 ^ 32
      → Chosen
          (inspect world files)
          (default_capsule_path (inspect world files) (rounds_for files) world.base)
        × Chosen (inspect world files) (
            temporary_capsule_path
              (inspect world files)
              (rounds_for files)
              (some directory)
              run_id
              world.pid)
  rounds_for-Chosen directory run_id small =
      let few : length (map path_of files) + 2 < 2 ^ 32 = rw (length-map files) small in
      rw (← length-map files) (
        default_capsule_path-Chosen (inspect world files) (map path_of files) present-holds
            world.base few,
        temporary_capsule_path-Chosen (inspect world files) (map path_of files) present-holds
            directory run_id world.pid few,
      )
