-- ===== src/Diff/Sets.antt =====
-- The same of two sets.
use whyrun.Diff.Faithful.{pass_quiet, quiet_pass, All-map}
use whyrun.Common.{
  ◌≡◌, ◌↔◌, refl, sym, ◌∙◌, ◌||◌, true, false, List, [], ◌∷◌, Option, Bytes, codes, equal,
  equal_iff, has_value, arith, All, inl, inr, Bool-cases,
}
use whyrun.Diff.{pass, contains, set_line, print_set_diff}

contains-find :
    (P : Bytes → Type 0) (values : List Bytes) (value : Bytes)
    → All P values
    → contains values value ≡ true
    → P value
unfolding contains
contains-find P [] value h found = absurd (ground arith)
contains-find P (v ∷ values) value (here, h) found = elim (Bool-cases (equal v value)) [
  | inl hit ↦ let same : value ≡ v = sym ((equal_iff v value).0 hit) in rw same here
  | inr miss ↦ contains-find P values value h (ground arith)
]

All-contains : (values : List Bytes) → All (λ v. contains values v ≡ true) values
unfolding contains
All-contains [] = tt
All-contains (v ∷ values) = (
  ground (arith, equal_iff v v),
  All-map values (λ w found. ground (arith, found)) (All-contains values),
)

module _ (before after : List Bytes) where
  abbrev gone_of : Bytes → Option Bytes
  gone_of v = set_line (codes "- ") v (contains after v)

  abbrev new_of : Bytes → Option Bytes
  new_of v = set_line (codes "+ ") v (contains before v)

  set_changed-eq :
      (print_set_diff before after).1 ≡ ((pass gone_of before).1 || (pass new_of after).1)
  unfolding print_set_diff
  set_changed-eq = refl

  same_sets-quiet :
      ((value : Bytes) → contains before value ≡ contains after value)
      → (print_set_diff before after).1 ≡ false
  same_sets-quiet same =
      let first =
        pass_quiet gone_of before
          (All-map before (λ v found. ground (arith, same v, found)) (All-contains before)) in
      let second =
        pass_quiet new_of after
          (All-map after (λ v found. ground (arith, same v, found)) (All-contains after)) in
      set_changed-eq ∙ rw (first, second) refl

  quiet-same_sets :
      (print_set_diff before after).1 ≡ false
      → (value : Bytes) → contains before value ≡ contains after value
  quiet-same_sets h value =
      let first = quiet_pass gone_of before (ground (arith, set_changed-eq, h)) in
      let second = quiet_pass new_of after (ground (arith, set_changed-eq, h)) in
      let here = contains-find (λ v. has_value (gone_of v) ≡ false) before value first in
      let there = contains-find (λ v. has_value (new_of v) ≡ false) after value second in
      ground (arith, here, there)

-- The comparison of two sets reports a change exactly if some text is in one of them only.
pub print_set_diff-unchanged :
    (before after : List Bytes)
    → ((print_set_diff before after).1 ≡ false)
      ↔ ((value : Bytes) → contains before value ≡ contains after value)
print_set_diff-unchanged before after = (quiet-same_sets before after, same_sets-quiet before after)
