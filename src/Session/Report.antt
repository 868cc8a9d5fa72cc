-- ===== src/Session/Report.antt =====
-- What the two Bash functions of src/bash_session.cpp write for a command, and that the protocol
-- reads it back.
use whyrun.Common.Int.{pos}
use whyrun.Common.Number.{to_string, from_chars_signed, success, scan, starts_with_digit}
use whyrun.Common.Number.Laws.{to_string-starts, scan-to_string, from_chars_unsigned-to_string}
use whyrun.Common.{
  ℕ, ◌+◌, ◌-◌, ◌^◌, ◌≤◌, ◌<◌, ◌≡◌, refl, List, [], ◌∷◌, ◌++◌, Bytes, codes, ok, arith, length,
  Lacks, pop_back_if-append, some, true,
}
use whyrun.Session.Framing.{ended}
use whyrun.Session.{
  Marker, arm, start, end, decode_record, parse_id, parse_status, after_prefix, maximum_field_bytes,
}

-- The three `printf` sequences. `prefix` is what `history 1` prints in front of the time format,
-- which is the byte 034 (octal); behind it comes the command line with a newline.
pub data Report : Type 0 where
  armed : ℕ → Bytes → Report
  started : ℕ → Bytes → Bytes → Bytes → Report
  ended_with : ℕ → ℕ → Bytes → Report

unfoldable pub report_fields : Report → List Bytes
report_fields (armed id cwd) = codes "A" ∷ to_string id ∷ cwd ∷ [] ∷ []
report_fields (started id cwd prefix text) =
    codes "S" ∷ to_string id ∷ cwd ∷ (prefix ++ (28 ∷ (text ++ b'\n' ∷ []))) ∷ []
report_fields (ended_with id status cwd) = codes "E" ∷ to_string id ∷ to_string status ∷ cwd ∷ []

-- The marker that a report stands for.
unfoldable pub report_marker : Report → Marker
report_marker (armed id cwd) = record {
  type = arm;
  id = id;
  text = [];
  cwd = cwd;
  exit_code = pos 0;
}
report_marker (started id cwd prefix text) = record {
  type = start;
  id = id;
  text = text;
  cwd = cwd;
  exit_code = pos 0;
}
report_marker (ended_with id status cwd) = record {
  type = end;
  id = id;
  text = [];
  cwd = cwd;
  exit_code = pos status;
}

unfoldable pub stream : List Report → Bytes
unfolding report_fields
stream [] = []
stream (r ∷ rs) = ended (report_fields r) ++ stream rs

-- A text that Bash can write as a field: it holds no byte 0, and is not too long.
abbrev pub IsField : Bytes → Type 0
IsField f = Lacks 0 f × (length f ≤ maximum_field_bytes)

abbrev pub IsId : ℕ → Type 0
IsId id = (0 < id) × (id < 2 ^ 64)

abbrev pub IsWritten : Report → Type 0
IsWritten (armed id cwd) = IsId id × IsField cwd
IsWritten (started id cwd prefix text) =
    IsId id
    × IsField cwd
    × Lacks 28 prefix
    × Lacks 0 prefix
    × Lacks 0 text
    × (length prefix + length text + 2 ≤ maximum_field_bytes)
IsWritten (ended_with id status cwd) = IsId id × (status < 2 ^ 31) × IsField cwd

parse_id-to_string : (id : ℕ) → IsId id → parse_id (to_string id) ≡ ok id
unfolding parse_id
parse_id-to_string id h = ground (arith, from_chars_unsigned-to_string (2 ^ 64 - 1) id)

pub from_chars_signed-scan :
    (s : Bytes) (limit n : ℕ)
    → starts_with_digit s ≡ true
    → scan s 0 ≡ (n, [])
    → n ≤ limit
    → from_chars_signed limit s ≡ record { value = pos n; ec = success; rest = [] }
unfolding from_chars_signed
from_chars_signed-scan [] limit n h e le = absurd (ground arith)
from_chars_signed-scan (c ∷ s) limit n h e le = ground arith

parse_status-to_string : (n : ℕ) → n < 2 ^ 31 → parse_status (to_string n) ≡ ok (pos n)
unfolding parse_status
parse_status-to_string n h = ground (
  arith,
  from_chars_signed-scan (to_string n) (2 ^ 31 - 1) n (to_string-starts n) (scan-to_string n),
)

after_prefix-append :
    (prefix text : Bytes) → Lacks 28 prefix → after_prefix (prefix ++ 28 ∷ text) ≡ some text
unfolding after_prefix
after_prefix-append [] text h = refl
after_prefix-append (c ∷ prefix) text h = ground (arith, after_prefix-append prefix text h.1)

-- Each report is decoded to its marker.
pub decode_record-report :
    (r : Report) → IsWritten r → decode_record (report_fields r) ≡ ok (report_marker r)
unfolding decode_record report_fields report_marker
decode_record-report (armed id cwd) w = rw (parse_id-to_string id w.0)
decode_record-report (started id cwd prefix text) w =
    rw (parse_id-to_string id w.0, after_prefix-append prefix _ w.2, pop_back_if-append b'\n' text)
decode_record-report (ended_with id status cwd) w =
    rw (parse_id-to_string id w.0, parse_status-to_string status w.1)
