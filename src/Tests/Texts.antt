-- ===== src/Tests/Texts.antt =====
-- The texts that are kept and printed.
use whyrun.Common.{arith, ◌≡◌, ◌↔◌, refl, false, List, [], ◌∷◌, some, Bytes, codes}
use whyrun.Endpoint.Printable.{IsPrintable, render_unix_name-IsPrintable}
use whyrun.Endpoint.{render_unix_name}
use whyrun.Store.Metadata.{metadata_json, Rearranged, read_object, read_object-metadata_json}
use whyrun.Common.Number.{hex_digit, int_to_string}
use whyrun.Event.{Metadata}
use whyrun.Common.Int.{ℤ, pos}
use whyrun.Diff.Faithful.{HasKeys, print_activity_diff-unchanged}
use whyrun.Diff.Sets.{print_set_diff-unchanged}
use whyrun.Diff.{Counts, Activity, find, contains, print_activity_diff, print_set_diff}
use whyrun.Store.Quoting.{read_words-format_command}
use whyrun.Store.ShellReader.{read_words}
use whyrun.Store.{format_command}

abbrev command : List Bytes
command = codes "echo" ∷ codes "it's" ∷ [] ∷ codes "a b" ∷ []

formatted : format_command command ≡ codes "echo 'it'\\''s' '' 'a b'"
unfolding format_command
formatted = refl

read_words-format_command_example : read_words (format_command command) ≡ some command
read_words-format_command_example = read_words-format_command command

abbrev counts : ℤ → Counts
counts n = record { calls = n; successes = pos 0; failures = pos 0; bytes = pos 8 }

abbrev before : Activity
before = (codes "/a", counts (pos 1)) ∷ (codes "/b", counts (pos 2)) ∷ []

abbrev after : Activity
after = (codes "/a", counts (pos 3)) ∷ []

before-HasKeys : HasKeys before
unfolding find
before-HasKeys = (refl, (refl, tt))

after-HasKeys : HasKeys after
unfolding find
after-HasKeys = (refl, tt)

lines :
    (print_activity_diff (codes "READ ") before after false).0
    ≡ codes "~ READ /a (calls 1 -> 3, bytes 8 -> 8)\n- READ /b\n"
unfolding print_activity_diff int_to_string
lines = refl

print_activity_diff-unchanged_example :
    ((print_activity_diff (codes "READ ") before after false).1 ≡ false)
    ↔ ((name : Bytes) → find name before ≡ find name after)
print_activity_diff-unchanged_example =
    print_activity_diff-unchanged (codes "READ ") before after false before-HasKeys after-HasKeys

print_set_diff-unchanged_example :
    ((print_set_diff (codes "ls" ∷ []) (codes "ls" ∷ codes "pwd" ∷ [])).1 ≡ false) ↔ (
      (value : Bytes)
      → contains (codes "ls" ∷ []) value ≡ contains (codes "ls" ∷ codes "pwd" ∷ []) value)
print_set_diff-unchanged_example =
    print_set_diff-unchanged (codes "ls" ∷ []) (codes "ls" ∷ codes "pwd" ∷ [])

-- A key with a quote, and a value with a line end and a control character.
abbrev metadata : Metadata
metadata = (codes "fd", 1 ∷ 10 ∷ []) ∷ (codes "a\"b", codes "/") ∷ []

rendered : metadata_json metadata ≡ codes "{\"a\\\"b\":\"/\",\"fd\":\"\\u0001\\n\"}"
unfolding metadata_json hex_digit
rendered = refl

read_object-metadata_json_example :
    (es : Metadata) × Rearranged metadata es × (read_object 2 (metadata_json metadata) ≡ some es)
read_object-metadata_json_example = read_object-metadata_json metadata

-- An abstract name with an escape character in it.
abbrev socket_name : Bytes
socket_name = 0 ∷ b'a' ∷ 27 ∷ b'\\' ∷ []

socket_text : render_unix_name socket_name ≡ codes "unix:@a\\x1b\\x5c"
unfolding render_unix_name
socket_text = refl

render_unix_name-IsPrintable_example : IsPrintable (render_unix_name socket_name)
render_unix_name-IsPrintable_example =
    render_unix_name-IsPrintable socket_name
      (omega arith, (omega arith, (omega arith, (omega arith, tt))))
