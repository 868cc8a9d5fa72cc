-- ===== src/Diff.antt =====
-- src/diff.cpp: the comparison of two capsules, from their summaries on. An ordered map or set is the
-- list of its items in their order.
pub mod Faithful
pub mod Load
pub mod Sets
use whyrun.Common.Int.{ℤ, int_eq}
use whyrun.Common.Number.{int_to_string}
use whyrun.Common.{
  ◌&&◌, ◌||◌, not, Bool, true, false, List, [], ◌∷◌, ◌++◌, Option, none, some, Bytes, codes, equal,
  has_value, if◌then◌else◌,
}

pub record Counts : Type 0 where
  pub calls : ℤ
  pub successes : ℤ
  pub failures : ℤ
  pub bytes : ℤ

-- `operator==`
unfoldable pub same_counts : Counts → Counts → Bool
same_counts a b =
    int_eq a.calls b.calls
    && int_eq a.successes b.successes
    && int_eq a.failures b.failures
    && int_eq a.bytes b.bytes

-- `std::map<std::string, Counts>`
abbrev pub Activity : Type 0
Activity = List (Bytes × Counts)

-- `find`
unfoldable pub find : Bytes → Activity → Option Counts
unfolding equal
find name [] = none
find name ((n, counts) ∷ rest) = if equal n name then some counts else find name rest

-- The lines of a pass over a container, and whether there is one. A pass prints a line for an item, or
-- nothing.
unfoldable pub pass {ℓ} : {A : Type ℓ} → (A → Option Bytes) → List A → Bytes × Bool
pass line [] = ([], false)
pass line (x ∷ xs) =
    let (text, changed) = pass line xs in
    elim (line x) [ none ↦ (text, changed) | some l ↦ (l ++ text, true) ]

abbrev pub newline : Bytes
newline = b'\n' ∷ []

abbrev arrow : ℤ → ℤ → Bytes
arrow a b = int_to_string a ++ codes " -> " ++ int_to_string b

-- What follows the name in the line of an entry that has changed.
unfoldable pub change_text : Bool → Counts → Counts → Bytes
change_text network before after =
    if network
    then codes " (attempts "
      ++ arrow before.calls after.calls
      ++ codes ", failures "
      ++ arrow before.failures after.failures
      ++ codes ")"
    else codes " (calls "
      ++ arrow before.calls after.calls
      ++ codes ", bytes "
      ++ arrow before.bytes after.bytes
      ++ codes ")"

unfoldable pub entry_line : Bytes → Bool → Bytes → Counts → Option Counts → Option Bytes
unfolding same_counts change_text
entry_line label network name counts none = some (codes "- " ++ label ++ name ++ newline)
entry_line label network name counts (some found) =
    if not (same_counts counts found)
    then some (codes "~ " ++ label ++ name ++ change_text network counts found ++ newline)
    else none

abbrev pub added_line : Bytes → Bytes → Bool → Option Bytes
added_line label name known =
    if not known then some (codes "+ " ++ label ++ name ++ newline) else none

-- The text, and the result.
unfoldable pub print_activity_diff : Bytes → Activity → Activity → Bool → Bytes × Bool
unfolding pass entry_line find
print_activity_diff label before after network =
    let (gone, changed) =
      pass (λ (name, counts). entry_line label network name counts (find name after)) before in
    let (added, grown) =
      pass (λ (name, counts). added_line label name (has_value (find name before))) after in
    (gone ++ added, changed || grown)

-- `contains`
unfoldable pub contains : List Bytes → Bytes → Bool
unfolding equal
contains [] value = false
contains (v ∷ values) value = equal v value || contains values value

abbrev pub set_line : Bytes → Bytes → Bool → Option Bytes
set_line sign value known = if not known then some (sign ++ value ++ newline) else none

unfoldable pub print_set_diff : List Bytes → List Bytes → Bytes × Bool
unfolding pass contains
print_set_diff before after =
    let (gone, changed) = pass (λ v. set_line (codes "- ") v (contains after v)) before in
    let (added, grown) = pass (λ v. set_line (codes "+ ") v (contains before v)) after in
    (gone ++ added, changed || grown)

-- `Summary`
pub record Summary : Type 0 where
  pub exit_code : ℤ
  pub session : Bool
  pub reads : Activity
  pub writes : Activity
  pub network : Activity
  pub local_ipc : Activity
  pub executables : List Bytes
  pub commands : List Bytes

abbrev pub or_none : Bytes × Bool → Bytes
or_none (text, changed) = if not changed then text ++ codes "  none" ++ newline else text

unfoldable pub exit_section : ℤ → ℤ → Bytes
exit_section a b =
    if int_eq a b
    then codes "  unchanged (" ++ int_to_string a ++ codes ")" ++ newline
    else codes "- " ++ int_to_string a ++ newline ++ codes "+ " ++ int_to_string b ++ newline

abbrev pub file_changes : Summary → Summary → Bytes × Bool
file_changes a b =
    let (read_text, read_changed) = print_activity_diff (codes "READ ") a.reads b.reads false in
    let (write_text, write_changed) =
      print_activity_diff (codes "WRITE ") a.writes b.writes false in
    (read_text ++ write_text, write_changed || read_changed)

abbrev pub heading : Bytes → Bytes
heading title = title ++ newline

-- What `diff_capsules` prints for two summaries that are loaded.
unfoldable pub diff_text : Summary → Summary → Bytes
diff_text a b =
    heading (codes "Exit")
    ++ exit_section a.exit_code b.exit_code
    ++ newline
    ++ (if a.session || b.session
        then heading (codes "Commands") ++ or_none (print_set_diff a.commands b.commands) ++ newline
        else [])
    ++ heading (codes "Files")
    ++ or_none (file_changes a b)
    ++ newline
    ++ heading (codes "Network")
    ++ or_none (print_activity_diff [] a.network b.network true)
    ++ newline
    ++ heading (codes "Local IPC")
    ++ or_none (print_activity_diff [] a.local_ipc b.local_ipc true)
    ++ newline
    ++ heading (codes "Processes")
    ++ or_none (print_set_diff a.executables b.executables)
