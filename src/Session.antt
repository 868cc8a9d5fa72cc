-- ===== src/Session.antt =====
-- include/whyrun/session.hpp and src/bash_session.cpp: the protocol by which the traced Bash tells
-- the recorder of its commands. Four fields make a record, and a byte 0 ends each field.
pub mod Bounds
pub mod Report
pub mod RoundTrip
pub mod Chunks
mod Steps
pub mod Framing
use whyrun.Common.{
  ℕ, ◌-◌, ◌*◌, ◌^◌, ◌||◌, not, Bool, true, false, List, [], ◌∷◌, ◌++◌, Option, none, some, ◌==◌,
  if◌then◌else◌, Bytes, codes, equal, is_empty, length, pop_back_if, get_or, Result, ok, err, ◌>>=◌,
  invalid_id, invalid_status, field_too_long, incomplete_marker, arm_has_data,
  missing_history_prefix, unknown_marker,
}
use whyrun.Common.Int.{ℤ, pos, negsuc}
use whyrun.Common.Number.{Errc, success, from_chars_unsigned, from_chars_signed}

abbrev protocol_fields : ℕ
protocol_fields = 4

abbrev pub maximum_field_bytes : ℕ
maximum_field_bytes = 64 * 1024

pub data MarkerType : Type 0 where
  arm start end : MarkerType

pub record Marker : Type 0 where
  pub type : MarkerType
  pub id : ℕ
  pub text : Bytes
  pub cwd : Bytes
  pub exit_code : ℤ

abbrev succeeded : Errc → Bool
succeeded success = true
succeeded _ = false

-- A result of `from_chars` into an unsigned type is not negative.
abbrev magnitude : ℤ → ℕ
magnitude (pos n) = n
magnitude (negsuc n) = 0

unfoldable pub parse_id : Bytes → Result ℕ
unfolding from_chars_unsigned
parse_id text =
    let result = from_chars_unsigned (2 ^ 64 - 1) text in
    if magnitude result.value == 0 || not (succeeded result.ec) || not (is_empty result.rest)
    then err invalid_id
    else ok (magnitude result.value)

unfoldable pub parse_status : Bytes → Result ℤ
unfolding from_chars_signed
parse_status text =
    let result = from_chars_signed (2 ^ 31 - 1) text in
    if not (succeeded result.ec) || not (is_empty result.rest)
    then err invalid_status
    else ok result.value

-- The text behind the first byte 034 (octal), if there is one.
unfoldable pub after_prefix : Bytes → Option Bytes
after_prefix [] = none
after_prefix (c ∷ s) = if c == 28 then some s else after_prefix s

decode_arm : List Bytes → ℕ → Result Marker
decode_arm fields id =
    if not (is_empty (get_or fields 3 []))
    then err arm_has_data
    else ok (record { type = arm; id = id; text = []; cwd = get_or fields 2 []; exit_code = pos 0 })

decode_start : List Bytes → ℕ → Option Bytes → Result Marker
decode_start fields id none = err missing_history_prefix
decode_start fields id (some text) = ok (record {
  type = start;
  id = id;
  text = pop_back_if b'\n' text;
  cwd = get_or fields 2 [];
  exit_code = pos 0;
})

decode_end : List Bytes → ℕ → Result Marker
decode_end fields id = do
  status ← parse_status (get_or fields 2 [])
  ok (record { type = end; id = id; text = []; cwd = get_or fields 3 []; exit_code = status })

-- The part of `decode_record` behind the id.
decode_as : List Bytes → ℕ → Result Marker
decode_as fields id =
    if equal (get_or fields 0 []) (codes "A")
    then decode_arm fields id
    else if equal (get_or fields 0 []) (codes "S")
    then decode_start fields id (after_prefix (get_or fields 3 []))
    else if equal (get_or fields 0 []) (codes "E")
    then decode_end fields id
    else err unknown_marker

unfoldable pub decode_record : List Bytes → Result Marker
unfolding parse_id parse_status after_prefix pop_back_if equal decode_arm decode_start decode_end
    decode_as
decode_record fields = do id ← parse_id (get_or fields 1 []); decode_as fields id

-- `CommandProtocol`
pub record Protocol : Type 0 where
  pub pending_field : Bytes
  pub fields : List Bytes

abbrev pub fresh : Protocol
fresh = record { pending_field = []; fields = [] }

-- One round of the loop of `consume`, with the markers so far.
unfoldable pub consume_byte : Protocol → List Marker → ℕ → Result (Protocol × List Marker)
consume_byte p markers byte =
    if not (byte == 0)
    then (if length p.pending_field == maximum_field_bytes
        then err field_too_long
        else ok (record p { pending_field = p.pending_field ++ byte ∷ [] }, markers))
    else let fields = p.fields ++ p.pending_field ∷ [] in
      if length fields == protocol_fields
      then (do marker ← decode_record fields; ok (fresh, markers ++ marker ∷ []))
      else ok (record { pending_field = []; fields = fields }, markers)

unfoldable pub consume_onto : Protocol → List Marker → Bytes → Result (Protocol × List Marker)
unfolding consume_byte
consume_onto p markers [] = ok (p, markers)
consume_onto p markers (byte ∷ bytes) = do
  (q, more) ← consume_byte p markers byte
  consume_onto q more bytes

-- The markers that the bytes complete, and the protocol's new state.
unfoldable pub consume : Protocol → Bytes → Result (Protocol × List Marker)
unfolding consume_onto
consume p bytes = consume_onto p [] bytes

no_fields : List Bytes → Bool
no_fields [] = true
no_fields (f ∷ fs) = false

unfoldable pub finish : Protocol → Result (Unit {0})
unfolding no_fields
finish p =
    if not (is_empty p.pending_field) || not (no_fields p.fields)
    then err incomplete_marker
    else ok tt
