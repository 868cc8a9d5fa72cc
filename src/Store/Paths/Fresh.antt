-- ===== src/Store/Paths/Fresh.antt =====
-- Both loops end, with a path at which there is nothing.
use whyrun.Store.Paths.{
  beneath, separator, Status, present, absent, unreadable, numbered, next_suffix, default_loop,
  default_capsule_path, temporary_name, temporary_loop, temporary_base, temporary_capsule_path,
}
use whyrun.Common.{
  ◌||◌, ℕ, zero, suc, ◌+◌, ◌^◌, ◌≤◌, ◌<◌, ◌≡◌, ◌≢◌, ◌⊎◌, refl, ap, Bool, true, false, List, [], ◌∷◌,
  ◌++◌, Option, none, some, Bytes, codes, length, length-append, get_or, if◌then◌else◌, ◌==◌,
  Result, err, ok, path_not_inspected, arith, equal, equal_iff, inl, inr,
}
use whyrun.Common.Number.{to_string, scan}
use whyrun.Common.Number.Laws.{scan-to_string}
use whyrun.Common.Map.{bytes_key}

append-left_cancel : (xs ys zs : Bytes) → xs ++ ys ≡ xs ++ zs → ys ≡ zs
append-left_cancel [] ys zs h = h
append-left_cancel (x ∷ xs) ys zs h = append-left_cancel xs ys zs (cc h)

append-right_cancel : (xs ys zs : Bytes) → xs ++ zs ≡ ys ++ zs → xs ≡ ys
append-right_cancel [] [] zs h = refl
append-right_cancel [] (y ∷ ys) zs h =
    absurd (omega (arith, ap length h, length-append (y ∷ ys) zs))
append-right_cancel (x ∷ xs) [] zs h =
    absurd (omega (arith, ap length h, length-append (x ∷ xs) zs))
append-right_cancel (x ∷ xs) (y ∷ ys) zs h = cc (append-right_cancel xs ys zs (cc h))

to_string-injective : (m n : ℕ) → to_string m ≡ to_string n → m ≡ n
to_string-injective m n h = cc (scan-to_string m, scan-to_string n, ap (λ t. scan t 0) h)

numbered-injective :
    (base extension : Bytes) (m n : ℕ)
    → numbered base extension m ≡ numbered base extension n
    → m ≡ n
numbered-injective base extension m n h = to_string-injective m n (
    append-right_cancel _ _ extension (
      cc (
        append-left_cancel base (b'-' ∷ (to_string m ++ extension))
          (b'-' ∷ (to_string n ++ extension)) h)))

-- The list holds the path.
unfoldable pub holds : Bytes → List Bytes → Bool
holds path [] = false
holds path (p ∷ paths) = equal p path || holds path paths

unfoldable pub without : Bytes → List Bytes → List Bytes
without path [] = []
without path (p ∷ paths) = if equal p path then paths else p ∷ without path paths

length-without :
    (path : Bytes) (paths : List Bytes)
    → holds path paths ≡ true
    → suc (length (without path paths)) ≡ length paths
unfolding holds without
length-without path [] h = cc
length-without path (p ∷ paths) h = ground (arith, length-without path paths)

holds-without :
    (path other : Bytes) (paths : List Bytes)
    → path ≢ other
    → holds other paths ≡ true
    → holds other (without path paths) ≡ true
unfolding holds without
holds-without path other [] distinct h = h
holds-without path other (p ∷ paths) distinct h =
    ground (arith, equal_iff p path, equal_iff p other, holds-without path other paths distinct)

pub Status-cases : (s : Status) → (s ≡ present) ⊎ (s ≡ absent) ⊎ (s ≡ unreadable)
Status-cases present = inl refl
Status-cases absent = inr (inl refl)
Status-cases unreadable = inr (inr refl)

-- A path that is chosen, or the inspection that fails.
abbrev pub Chosen : (Bytes → Status) → Option (Result Bytes) → Type 0
Chosen inspect found =
    (found ≡ some (err path_not_inspected))
    ⊎ ((path : Bytes) × (found ≡ some (ok path)) × (inspect path ≡ absent))

module _ (inspect : Bytes → Status) (name : ℕ → Bytes) where
  -- The search through the names from a number on.
  unfoldable first_free : ℕ → ℕ → Option (Result Bytes)
  first_free zero suffix = none
  first_free (suc rounds) suffix = elim (inspect (name suffix)) [
    | present ↦ first_free rounds (next_suffix suffix)
    | absent ↦ some (ok (name suffix))
    | unreadable ↦ some (err path_not_inspected)
  ]

  first_free-Chosen :
      ((m n : ℕ) → name m ≡ name n → m ≡ n)
      → (rounds suffix : ℕ) (taken : List Bytes)
      → ((k : ℕ) → suffix ≤ k → inspect (name k) ≡ present → holds (name k) taken ≡ true)
      → length taken < rounds
      → suffix + length taken < 2 ^ 32
      → Chosen inspect (first_free rounds suffix)
  unfolding first_free
  first_free-Chosen distinct zero suffix taken known enough small = absurd (omega arith)
  first_free-Chosen distinct (suc rounds) suffix taken known enough small =
      elim (Status-cases (inspect (name suffix))) [
        | inl here ↦
            let held = known suffix (omega arith) here in
            let shorter = length-without (name suffix) taken held in
            let next : next_suffix suffix ≡ suffix + 1 = omega (arith, shorter) in
            rw (here, first_free, next)
              (first_free-Chosen distinct rounds (suffix + 1) (without (name suffix) taken)
                (λ k later is_present.
                  holds-without (name suffix) (name k) taken
                    (λ e. differs suffix k later (distinct suffix k e))
                    (known k (omega arith) is_present))
                (omega (arith, shorter)) (omega (arith, shorter)))
        | inr (inl free) ↦ rw (free, first_free) (inr (name suffix, refl, free))
        | inr (inr failed) ↦ rw (failed, first_free) (inl refl)
      ]
    where
      differs : (m k : ℕ) → m + 1 ≤ k → m ≡ k → ⊥
      differs m k later same = omega arith

name_of_default : Bytes → ℕ → Bytes
name_of_default base suffix =
    if suffix == 0 then base ++ codes ".wrun" else numbered base (codes ".wrun") suffix

later_name :
    (base : Bytes) (suffix : ℕ)
    → name_of_default base (suffix + 1) ≡ numbered base (codes ".wrun") (suffix + 1)
unfolding name_of_default
later_name base suffix = ground arith

unnumbered :
    (base extension : Bytes) (n : ℕ) → base ++ b'.' ∷ extension ≢ numbered base (b'.' ∷ extension) n
unnumbered base extension n h = absurd (
    omega (
      arith,
      ap (λ (t : Bytes). get_or t 0 0)
          (append-left_cancel base (b'.' ∷ extension) (b'-' ∷ (to_string n ++ b'.' ∷ extension)) h),
    ))

names-injective :
    (base extension : Bytes) (m n : ℕ)
    → (if m == 0 then base ++ b'.' ∷ extension else numbered base (b'.' ∷ extension) m)
      ≡ (if n == 0 then base ++ b'.' ∷ extension else numbered base (b'.' ∷ extension) n)
    → m ≡ n
names-injective base extension m n h = ground (
  arith,
  unnumbered base extension m,
  unnumbered base extension n,
  numbered-injective base (b'.' ∷ extension) m n,
)

module _ (inspect : Bytes → Status) where
  temporary_loop-first_free :
      (rounds : ℕ) (directory base : Bytes) (suffix : ℕ)
      → temporary_loop inspect rounds directory base suffix
        ≡ first_free inspect (λ s. beneath directory (temporary_name base s)) rounds suffix
  unfolding temporary_loop first_free
  temporary_loop-first_free zero directory base suffix = refl
  temporary_loop-first_free (suc rounds) directory base suffix =
      elim (Status-cases (inspect (beneath directory (temporary_name base suffix)))) [
        | inl here ↦
            rw (here, first_free, temporary_loop)
              (temporary_loop-first_free rounds directory base (next_suffix suffix))
        | inr (inl free) ↦ rw (free, first_free, temporary_loop)
        | inr (inr failed) ↦ rw (failed, first_free, temporary_loop)
      ]

  default_loop-first_free :
      (rounds : ℕ) (base : Bytes) (suffix : ℕ)
      → suffix + rounds + 1 < 2 ^ 32
      → default_loop inspect rounds base (name_of_default base suffix) (suffix + 1)
        ≡ first_free inspect (name_of_default base) rounds suffix
  unfolding default_loop first_free
  default_loop-first_free zero base suffix small = refl
  default_loop-first_free (suc rounds) base suffix small =
      elim (Status-cases (inspect (name_of_default base suffix))) [
        | inl here ↦
            let next : next_suffix suffix ≡ suffix + 1 = omega arith in
            let after : next_suffix (suffix + 1) ≡ suffix + 1 + 1 = omega arith in
            let name : name_of_default base (suffix + 1)
                ≡ numbered base (codes ".wrun") (suffix + 1) =
              later_name base suffix in
            rw (here, first_free, default_loop, next, after, ← name)
              (default_loop-first_free rounds base (suffix + 1) (omega arith))
        | inr (inl free) ↦ rw (free, first_free, default_loop)
        | inr (inr failed) ↦ rw (failed, first_free, default_loop)
      ]

  module _ (taken : List Bytes)
      (known : (path : Bytes) → inspect path ≡ present → holds path taken ≡ true) where
    -- Where fewer than 2 ^ 32 - 2 paths exist, the loop of the capsule's path ends after as many rounds
    -- as there are paths, and one more: with a path at which there is nothing, or with the exception of
    -- an inspection that fails.
    pub default_capsule_path-Chosen :
        (base : Bytes)
        → length taken + 2 < 2 ^ 32
        → Chosen inspect (default_capsule_path inspect (length taken + 1) base)
    unfolding default_capsule_path name_of_default
    default_capsule_path-Chosen base small =
        let same : default_loop inspect (length taken + 1) base (name_of_default base 0) (0 + 1)
            ≡ first_free inspect (name_of_default base) (length taken + 1) 0 =
          default_loop-first_free (length taken + 1) base 0 (omega arith) in
        rw same (
          first_free-Chosen inspect (name_of_default base) (names-injective base (codes "wrun"))
            (length taken + 1) 0 taken (λ k _ here. known _ here) (omega arith) (omega arith))

    -- Where fewer than 2 ^ 32 - 2 paths exist and there is a directory for temporary files, the loop of
    -- the temporary path ends after as many rounds as there are paths, and one more: with a path at which
    -- there is nothing, or with the exception of an inspection that fails.
    pub temporary_capsule_path-Chosen :
        (directory run_id : Bytes) (pid : ℕ)
        → length taken + 2 < 2 ^ 32
        → Chosen inspect
            (temporary_capsule_path inspect (length taken + 1) (some directory) run_id pid)
    unfolding temporary_capsule_path
    temporary_capsule_path-Chosen directory run_id pid small =
        rw (temporary_loop-first_free (length taken + 1) directory (temporary_base run_id pid) 0) (
          first_free-Chosen inspect _
            (λ m n h.
              names-injective (temporary_base run_id pid) (codes "tmp") m n
                (append-left_cancel (separator directory) _ _ (append-left_cancel directory _ _ h)))
            (length taken + 1) 0 taken (λ k _ here. known _ here) (omega arith) (omega arith))
