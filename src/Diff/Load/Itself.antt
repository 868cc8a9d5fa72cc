-- ===== src/Diff/Load/Itself.antt =====
-- The comparison of a capsule with itself, of src/diff.cpp.
use whyrun.Diff.Load.Ordered.{IsMap, Ordered, Ordered-HasKeys}
use whyrun.Diff.Load.Silent.{load_summary-Silent}
use whyrun.Common.Int.{ℤ, int_eq_iff}
use whyrun.Common.Number.{int_to_string}
use whyrun.Common.Output.{Output}
use whyrun.Common.{
  ◌≡◌, ◌⊎◌, refl, ◌||◌, Bool, true, false, List, [], ◌∷◌, ◌++◌, Option, Bytes, codes, if◌then◌else◌,
  Result, Result-cases, err, ok, Error, arith, inl, inr,
}
use whyrun.Diff.Faithful.{print_activity_diff-unchanged}
use whyrun.Diff.Load.{load_summary, diff_body, diff_capsules}
use whyrun.Diff.Sets.{print_set_diff-unchanged}
use whyrun.Diff.{
  Activity, Summary, pass, print_activity_diff, print_set_diff, exit_section, diff_text, newline,
  heading,
}
use whyrun.Reader.{Reading, text}

pass_text {ℓ} :
    {A : Type ℓ} (line : A → Option Bytes) (xs : List A)
    → (pass line xs).1 ≡ false
    → (pass line xs).0 ≡ []
unfolding pass
pass_text line [] h = refl
pass_text line (x ∷ xs) h = ground (arith, pass_text line xs)

joined :
    (x y : Bytes × Bool)
    → (x.1 ≡ false → x.0 ≡ [])
    → (y.1 ≡ false → y.0 ≡ [])
    → (x.1 || y.1) ≡ false
    → ◌≡◌ {A = Bytes × Bool} (x.0 ++ y.0, x.1 || y.1) ([], false)
joined (s, true) y hx hy quiet = cc
joined (s, false) (t, true) hx hy quiet = cc
joined (s, false) (t, false) hx hy quiet = rw (hx refl, hy refl) refl

print_activity_diff-itself :
    (label : Bytes) (m : Activity) (network : Bool)
    → Ordered m
    → print_activity_diff label m m network ≡ ([], false)
unfolding print_activity_diff
print_activity_diff-itself label m network ordered = joined _ _ (pass_text _ m) (pass_text _ m) (
    (print_activity_diff-unchanged label m m network (Ordered-HasKeys m ordered)
        (Ordered-HasKeys m ordered)).1
      (λ name. refl))

print_set_diff-itself : (values : List Bytes) → print_set_diff values values ≡ ([], false)
unfolding print_set_diff
print_set_diff-itself values =
    joined _ _ (pass_text _ values) (pass_text _ values)
      ((print_set_diff-unchanged values values).1 (λ value. refl))

-- What is printed where nothing differs.
abbrev pub none_line : Bytes
none_line = codes "  none" ++ newline

abbrev pub unchanged_text : Summary → Bytes
unchanged_text s =
    heading (codes "Exit")
    ++ (codes "  unchanged (" ++ int_to_string s.exit_code ++ codes ")" ++ newline)
    ++ newline
    ++ (if s.session then heading (codes "Commands") ++ none_line ++ newline else [])
    ++ heading (codes "Files")
    ++ none_line
    ++ newline
    ++ heading (codes "Network")
    ++ none_line
    ++ newline
    ++ heading (codes "Local IPC")
    ++ none_line
    ++ newline
    ++ heading (codes "Processes")
    ++ none_line

exit_section-itself :
    (code : ℤ)
    → exit_section code code ≡ codes "  unchanged (" ++ int_to_string code ++ codes ")" ++ newline
unfolding exit_section
exit_section-itself code = rw ((int_eq_iff code code).1 refl) refl

or_self : (b : Bool) → (b || b) ≡ b
or_self true = refl
or_self false = refl

diff_text-itself : (s : Summary) → IsMap s → diff_text s s ≡ unchanged_text s
unfolding diff_text
diff_text-itself s h =
    rw
      (
        exit_section-itself s.exit_code,
        or_self s.session,
        print_set_diff-itself s.commands,
        print_activity_diff-itself (codes "READ ") s.reads false h.reads,
        print_activity_diff-itself (codes "WRITE ") s.writes false h.writes,
        print_activity_diff-itself [] s.network true h.network,
        print_activity_diff-itself [] s.local_ipc true h.local_ipc,
        print_set_diff-itself s.executables,
      )
      refl

whole_of : {A : Type 0} {r : Result A} (m : Output A) → m.0 ≡ [] → m.1 ≡ r → m ≡ ([], r)
whole_of (text, r) silent gives = cc

module _ (lib : Reading) (path : Bytes) where
  -- A capsule that can be loaded does not differ from itself: `diff` of it with itself prints that
  -- nothing has changed in each of its sections, and exits with 0.
  pub diff_capsules-itself :
      (s : Summary)
      → (load_summary lib path).1 ≡ ok s
      → diff_capsules lib path path ≡ (unchanged_text s, 0)
  unfolding diff_capsules diff_body
  diff_capsules-itself s loads =
      let quiet = load_summary-Silent lib path in
      let whole : load_summary lib path ≡ ([], ok s) =
        whole_of (load_summary lib path) quiet.silent loads in
      rw (whole, diff_text-itself s (quiet.result s loads)) refl

  -- If one of the two cannot be loaded, `diff` prints nothing, and exits with 1.
  pub diff_capsules-fails :
      (other : Bytes) (e : Error)
      → ((load_summary lib path).1 ≡ err e) ⊎ ((load_summary lib other).1 ≡ err e)
      → diff_capsules lib path other ≡ ([], 1)
  unfolding diff_capsules diff_body
  diff_capsules-fails other e fails =
      let quiet_path = (load_summary-Silent lib path).silent in
      let quiet_other = (load_summary-Silent lib other).silent in
      elim fails [
        | inl first ↦ rw (whole_of (load_summary lib path) quiet_path first) refl
        | inr second ↦ elim (Result-cases (load_summary lib path).1) [
          | inl (e', first) ↦ rw (whole_of (load_summary lib path) quiet_path first) refl
          | inr (s, first) ↦
              rw
                (
                  whole_of (load_summary lib path) quiet_path first,
                  whole_of (load_summary lib other) quiet_other second,
                )
                refl
        ]
      ]
