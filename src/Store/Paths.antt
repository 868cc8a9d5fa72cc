-- ===== src/Store/Paths.antt =====
-- The paths that src/sqlite_store.cpp chooses for a capsule: `default_capsule_path` and
-- `temporary_capsule_path`.
pub mod Fresh
use whyrun.Common.Number.{to_string}
use whyrun.Common.{
  ℕ, zero, suc, ◌+◌, ◌%◌, ◌^◌, Bool, true, false, List, [], ◌∷◌, ◌++◌, Option, none, some, Bytes,
  codes, length, if◌then◌else◌, ◌==◌, Result, err, ok, ◌>>=◌, no_temporary_directory,
  path_not_inspected,
}

-- What `std::filesystem::exists` finds out about a path.
pub data Status : Type 0 where
  present absent unreadable : Status

-- A name with a number: the base, a dash, the number, the extension.
abbrev pub numbered : Bytes → Bytes → ℕ → Bytes
numbered base extension suffix = base ++ b'-' ∷ (to_string suffix ++ extension)

-- The next value of an `unsigned int`.
abbrev pub next_suffix : ℕ → ℕ
next_suffix suffix = (suffix + 1) % 2 ^ 32

abbrev pub temporary_name : Bytes → ℕ → Bytes
temporary_name base suffix =
    if suffix == 0 then base ++ codes ".tmp" else numbered base (codes ".tmp") suffix

abbrev pub temporary_base : Bytes → ℕ → Bytes
temporary_base run_id pid = codes ".whyrun-" ++ (run_id ++ b'-' ∷ to_string pid)

-- What `operator/` of `std::filesystem::path` puts between a directory and a name.
unfoldable pub separator : Bytes → Bytes
separator [] = []
separator (c ∷ []) = if c == b'/' then [] else b'/' ∷ []
separator (c ∷ d ∷ rest) = separator (d ∷ rest)

abbrev pub beneath : Bytes → Bytes → Bytes
beneath directory name = directory ++ (separator directory ++ name)

module _ (inspect : Bytes → Status) where
  -- The loop of `default_capsule_path`, from a candidate on. `none`: the rounds are used up.
  unfoldable pub default_loop : ℕ → Bytes → Bytes → ℕ → Option (Result Bytes)
  default_loop zero base candidate suffix = none
  default_loop (suc rounds) base candidate suffix = elim (inspect candidate) [
    | present ↦ default_loop rounds base (numbered base (codes ".wrun") suffix) (next_suffix suffix)
    | absent ↦ some (ok candidate)
    | unreadable ↦ some (err path_not_inspected)
  ]

  -- `base` is the date and the time, as `std::put_time` writes them.
  unfoldable pub default_capsule_path : ℕ → Bytes → Option (Result Bytes)
  unfolding default_loop
  default_capsule_path rounds base = default_loop rounds base (base ++ codes ".wrun") 1

  -- The loop of `temporary_capsule_path`.
  unfoldable pub temporary_loop : ℕ → Bytes → Bytes → ℕ → Option (Result Bytes)
  temporary_loop zero directory base suffix = none
  temporary_loop (suc rounds) directory base suffix =
      elim (inspect (beneath directory (temporary_name base suffix))) [
        | present ↦ temporary_loop rounds directory base (next_suffix suffix)
        | absent ↦ some (ok (beneath directory (temporary_name base suffix)))
        | unreadable ↦ some (err path_not_inspected)
      ]

  -- `directory` is what `temp_directory_path` gives, and `pid` what `getpid` does.
  unfoldable pub temporary_capsule_path : ℕ → Option Bytes → Bytes → ℕ → Option (Result Bytes)
  unfolding temporary_loop
  temporary_capsule_path rounds none run_id pid = some (err no_temporary_directory)
  temporary_capsule_path rounds (some directory) run_id pid =
      temporary_loop rounds directory (temporary_base run_id pid) 0
