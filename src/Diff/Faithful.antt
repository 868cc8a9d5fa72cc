-- ===== src/Diff/Faithful.antt =====
-- A difference is reported exactly if there is one.
use whyrun.Common.Int.{int_eq_iff}
use whyrun.Common.{
  ◌≡◌, ◌↔◌, refl, sym, ap, ◌∙◌, ◌||◌, Bool, true, false, List, [], ◌∷◌, Option, none, some, Bytes,
  equal, equal_iff, has_value, arith, All, inl, inr, Bool-cases, Option-cases,
}
use whyrun.Diff.{
  Counts, same_counts, Activity, find, pass, entry_line, added_line, print_activity_diff,
}

-- A pass that prints nothing for each item, and the other way round.
pub pass_quiet {ℓ} :
    {A : Type ℓ} (line : A → Option Bytes) (xs : List A)
    → All (λ x. has_value (line x) ≡ false) xs
    → (pass line xs).1 ≡ false
unfolding pass
pass_quiet line [] h = refl
pass_quiet line (x ∷ xs) (quiet, h) = ground (arith, pass_quiet line xs h)

pub quiet_pass {ℓ} :
    {A : Type ℓ} (line : A → Option Bytes) (xs : List A)
    → (pass line xs).1 ≡ false
    → All (λ x. has_value (line x) ≡ false) xs
unfolding pass
quiet_pass line [] h = tt
quiet_pass line (x ∷ xs) h = (ground arith, quiet_pass line xs (ground arith))

same_counts_iff : (a b : Counts) → (same_counts a b ≡ true) ↔ (a ≡ b)
unfolding same_counts
same_counts_iff a b = (
  λ h. ground (
    arith,
    int_eq_iff a.calls b.calls,
    int_eq_iff a.successes b.successes,
    int_eq_iff a.failures b.failures,
    int_eq_iff a.bytes b.bytes,
  ),
  λ h. ground (
    arith,
    int_eq_iff a.calls b.calls,
    int_eq_iff a.successes b.successes,
    int_eq_iff a.failures b.failures,
    int_eq_iff a.bytes b.bytes,
  ),
)

pub All-map {ℓ} :
    {A : Type ℓ} {P Q : A → Type 0} (xs : List A) → ((x : A) → P x → Q x) → All P xs → All Q xs
All-map [] f h = tt
All-map (x ∷ xs) f (px, h) = (f x px, All-map xs f h)

-- What holds of each entry holds of one that is found.
All-find :
    (P : Bytes → Counts → Type 0) (m : Activity) (name : Bytes) (c : Counts)
    → All (λ (n, d). P n d) m
    → find name m ≡ some c
    → P name c
unfolding find
All-find P [] name c h found = absurd (ground arith)
All-find P ((n, d) ∷ m) name c (here, h) found = elim (Bool-cases (equal n name)) [
  | inl hit ↦
      let same_name : name ≡ n = sym ((equal_iff n name).0 hit) in
      let same_counts : c ≡ d = ground arith in rw (same_name, same_counts) here
  | inr miss ↦ All-find P m name c h (ground arith)
]

-- The keys of a map are distinct.
abbrev pub HasKeys : Activity → Type 0
HasKeys [] = Unit
HasKeys ((n, c) ∷ m) = (find n m ≡ none) × HasKeys m

find-skip :
    (n name : Bytes) (c d : Counts) (m : Activity)
    → find n m ≡ none
    → find name m ≡ some d
    → find name ((n, c) ∷ m) ≡ some d
unfolding find
find-skip n name c d m missing found = elim (Bool-cases (equal n name)) [
  | inl hit ↦
      let same_name : n ≡ name = (equal_iff n name).0 hit in
      absurd (ground (arith, ap (λ x. find x m) same_name))
  | inr miss ↦ ground arith
]

find_self : (n : Bytes) (c : Counts) (m : Activity) → find n ((n, c) ∷ m) ≡ some c
unfolding find
find_self n c m = ground (arith, equal_iff n n)

All-found : (m : Activity) → HasKeys m → All (λ (n, c). find n m ≡ some c) m
All-found [] h = tt
All-found ((n, c) ∷ m) (fresh, h) = (
  find_self n c m,
  All-map m (λ (name, d) found. find-skip n name c d m fresh found) (All-found m h),
)

entry_line-quiet :
    (label : Bytes) (network : Bool) (name : Bytes) (counts : Counts) (found : Option Counts)
    → (has_value (entry_line label network name counts found) ≡ false) ↔ (found ≡ some counts)
unfolding entry_line
entry_line-quiet label network name counts none =
    (λ h. absurd (ground arith), λ h. absurd (ground arith))
entry_line-quiet label network name counts (some found) = (
  λ h. ground (arith, same_counts_iff counts found),
  λ h. ground (arith, same_counts_iff counts found),
)

module _ (label : Bytes) (before after : Activity) (network : Bool) where
  abbrev entry_of : Bytes × Counts → Option Bytes
  entry_of (name, counts) = entry_line label network name counts (find name after)

  abbrev added_of : Bytes × Counts → Option Bytes
  added_of (name, counts) = added_line label name (has_value (find name before))

  changed-eq :
      (print_activity_diff label before after network).1
      ≡ ((pass entry_of before).1 || (pass added_of after).1)
  unfolding print_activity_diff
  changed-eq = refl

  -- Equal maps print nothing.
  same_maps-quiet :
      HasKeys before
      → HasKeys after
      → ((name : Bytes) → find name before ≡ find name after)
      → (print_activity_diff label before after network).1 ≡ false
  same_maps-quiet kb ka same =
      let first = pass_quiet entry_of before (
        All-map before
          (λ (n, c) found.
            (entry_line-quiet label network n c (find n after)).1 (sym (same n) ∙ found))
          (All-found before kb)) in
      let second =
        pass_quiet added_of after
          (All-map after (λ (n, c) found. ground (arith, same n, found)) (All-found after ka)) in
      changed-eq ∙ rw (first, second) refl

  quiet-same_maps :
      (print_activity_diff label before after network).1 ≡ false
      → (name : Bytes) → find name before ≡ find name after
  quiet-same_maps h name =
      let first = quiet_pass entry_of before (ground (arith, changed-eq, h)) in
      let second = quiet_pass added_of after (ground (arith, changed-eq, h)) in
      elim (Option-cases (find name before)) [
        | inr (c, found) ↦
            found
            ∙ sym (
                (entry_line-quiet label network name c (find name after)).0 (
                  All-find (λ n d. has_value (entry_line label network n d (find n after)) ≡ false)
                    before name c first found))
        | inl missing ↦ elim (Option-cases (find name after)) [
          | inl absent ↦ missing ∙ sym absent
          | inr (d, there) ↦
              let quiet =
                All-find (λ n d. has_value (added_line label n (has_value (find n before))) ≡ false)
                  after name d second there in
              absurd (ground (arith, quiet, missing))
        ]
      ]

-- The comparison of two activities, whose keys are distinct as those of a map are, reports a change
-- exactly if some name has other counts in one than in the other, or stands in one only, whatever the
-- label and the format.
pub print_activity_diff-unchanged :
    (label : Bytes) (before after : Activity) (network : Bool)
    → HasKeys before
    → HasKeys after
    → ((print_activity_diff label before after network).1 ≡ false)
      ↔ ((name : Bytes) → find name before ≡ find name after)
print_activity_diff-unchanged label before after network kb ka =
    (quiet-same_maps label before after network, same_maps-quiet label before after network kb ka)
