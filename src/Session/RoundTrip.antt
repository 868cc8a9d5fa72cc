-- ===== src/Session/RoundTrip.antt =====
-- The markers of a session come out of the byte stream as Bash put them in.
use whyrun.Common.Number.{to_string}
use whyrun.Common.Number.Laws.{IsDigit, All-to_string, length-to_string}
use whyrun.Common.{
  ℕ, ◌+◌, ◌^◌, ◌≤◌, ◌<◌, ◌≢◌, ◌≡◌, refl, ◌∙◌, List, [], ◌∷◌, ◌++◌, map, append-nil, append_assoc,
  Bytes, codes, ok, ◌>>=◌, arith, length, length-append, All, Lacks, All-append, Result-cases,
}
use whyrun.Session.Framing.{ended}
use whyrun.Session.Report.{
  Report, armed, started, ended_with, report_fields, report_marker, stream, IsField, IsWritten,
  decode_record-report,
}
use whyrun.Session.{
  Protocol, Marker, consume_byte, consume_onto, consume, decode_record, fresh, maximum_field_bytes,
}

consume_onto-text :
    (f rest : Bytes) (p : Protocol) (ms : List Marker)
    → Lacks 0 f
    → length p.pending_field + length f ≤ maximum_field_bytes
    → consume_onto p ms (f ++ rest)
      ≡ consume_onto (record p { pending_field = p.pending_field ++ f }) ms rest
unfolding consume_onto consume_byte
consume_onto-text [] rest p ms h short = rw append-nil
consume_onto-text (c ∷ f) rest p ms h short = ground (
  arith,
  consume_onto-text f rest (record p { pending_field = p.pending_field ++ c ∷ [] }) ms h.1,
  append_assoc p.pending_field (c ∷ []) f,
  length-append p.pending_field (c ∷ []),
)

abbrev holding : List Bytes → Bytes → Protocol
holding fields pending = record { pending_field = pending; fields = fields }

consume_onto-field :
    (f rest : Bytes) (fields : List Bytes) (ms : List Marker)
    → IsField f
    → length fields < 3
    → consume_onto (holding fields []) ms (f ++ 0 ∷ rest)
      ≡ consume_onto (holding (fields ++ f ∷ []) []) ms rest
consume_onto-field f rest fields ms h few =
    consume_onto-text f (0 ∷ rest) (holding fields []) ms h.0 (omega arith)
    ∙ unfold consume_onto consume_byte in ground (arith, length-append fields (f ∷ []))

consume_onto-last :
    (f rest : Bytes) (fields : List Bytes) (ms : List Marker)
    → IsField f
    → length fields ≡ 3
    → consume_onto (holding fields []) ms (f ++ 0 ∷ rest)
      ≡ (decode_record (fields ++ f ∷ []) >>= λ m. consume_onto fresh (ms ++ m ∷ []) rest)
consume_onto-last f rest fields ms h three =
    consume_onto-text f (0 ∷ rest) (holding fields []) ms h.0 (omega arith)
    ∙ unfold consume_onto consume_byte in
      ground (arith, length-append fields (f ∷ []), Result-cases (decode_record (fields ++ f ∷ [])))

spread :
    (a b c d rest : Bytes)
    → ended (a ∷ b ∷ c ∷ d ∷ []) ++ rest ≡ a ++ (0 ∷ (b ++ (0 ∷ (c ++ (0 ∷ (d ++ 0 ∷ rest))))))
spread a b c d rest = simp append_assoc

consume_onto-record :
    (a b c d rest : Bytes) (ms : List Marker)
    → All IsField (a ∷ b ∷ c ∷ d ∷ [])
    → consume_onto fresh ms (ended (a ∷ b ∷ c ∷ d ∷ []) ++ rest)
      ≡ (decode_record (a ∷ b ∷ c ∷ d ∷ []) >>= λ m. consume_onto fresh (ms ++ m ∷ []) rest)
consume_onto-record a b c d rest ms h = rw (spread a b c d rest) (
    consume_onto-field a _ [] ms h.0 (omega arith)
    ∙ consume_onto-field b _ (a ∷ []) ms h.1.0 (omega arith)
    ∙ consume_onto-field c _ (a ∷ b ∷ []) ms h.1.1.0 (omega arith)
    ∙ consume_onto-last d rest (a ∷ b ∷ c ∷ []) ms h.1.1.1.0 refl)

All-digits-Lacks : (s : Bytes) → All IsDigit s → Lacks 0 s
All-digits-Lacks [] h = tt
All-digits-Lacks (c ∷ s) h = (ground arith, All-digits-Lacks s h.1)

to_string-IsField : (n : ℕ) → n < 2 ^ 64 → IsField (to_string n)
to_string-IsField n h =
    (All-digits-Lacks (to_string n) (All-to_string n), omega (arith, length-to_string n h))

history-IsField :
    (prefix text : Bytes)
    → Lacks 0 prefix
    → Lacks 0 text
    → length prefix + length text + 2 ≤ maximum_field_bytes
    → IsField (prefix ++ (28 ∷ (text ++ b'\n' ∷ [])))
history-IsField prefix text hp ht short = (
  All-append (λ c. c ≢ 0) prefix _ hp
      ((λ e. omega arith), All-append (λ c. c ≢ 0) text _ ht ((λ e. omega arith), tt)),
  omega (arith, length-append prefix (28 ∷ (text ++ b'\n' ∷ [])), length-append text (b'\n' ∷ [])),
)

tag-IsField : (c : ℕ) → c ≢ 0 → IsField (c ∷ [])
tag-IsField c h = ((h, tt), omega arith)

consume_onto-decoded :
    (a b c d rest : Bytes) (ms : List Marker) (m : Marker)
    → decode_record (a ∷ b ∷ c ∷ d ∷ []) ≡ ok m
    → All IsField (a ∷ b ∷ c ∷ d ∷ [])
    → consume_onto fresh ms (ended (a ∷ b ∷ c ∷ d ∷ []) ++ rest)
      ≡ consume_onto fresh (ms ++ m ∷ []) rest
consume_onto-decoded a b c d rest ms m e h = consume_onto-record a b c d rest ms h ∙ rw e

four :
    (a b c d : Bytes)
    → IsField a
    → IsField b
    → IsField c
    → IsField d
    → All IsField (a ∷ b ∷ c ∷ d ∷ [])
four a b c d ha hb hc hd = (ha, (hb, (hc, (hd, tt))))

-- One report is read whole, whatever follows it.
consume_onto-report :
    (r : Report) (rest : Bytes) (ms : List Marker)
    → IsWritten r
    → consume_onto fresh ms (ended (report_fields r) ++ rest)
      ≡ consume_onto fresh (ms ++ report_marker r ∷ []) rest
unfolding report_fields
consume_onto-report (armed id cwd) rest ms w =
    consume_onto-decoded (codes "A") (to_string id) cwd [] rest ms _
      (decode_record-report (armed id cwd) w)
      (four (codes "A") (to_string id) cwd [] (tag-IsField b'A' (λ e. omega arith))
        (to_string-IsField id w.0.1) w.1 (tt, omega arith))
consume_onto-report (started id cwd prefix text) rest ms w =
    consume_onto-decoded (codes "S") (to_string id) cwd (prefix ++ (28 ∷ (text ++ b'\n' ∷ []))) rest
      ms _ (decode_record-report (started id cwd prefix text) w)
      (four (codes "S") (to_string id) cwd (prefix ++ (28 ∷ (text ++ b'\n' ∷ [])))
        (tag-IsField b'S' (λ e. omega arith)) (to_string-IsField id w.0.1) w.1
        (history-IsField prefix text w.3 w.4 w.5))
consume_onto-report (ended_with id status cwd) rest ms w =
    consume_onto-decoded (codes "E") (to_string id) (to_string status) cwd rest ms _
      (decode_record-report (ended_with id status cwd) w)
      (four (codes "E") (to_string id) (to_string status) cwd (tag-IsField b'E' (λ e. omega arith))
        (to_string-IsField id w.0.1) (to_string-IsField status (omega arith)) w.2)

consume_onto-stream :
    (rs : List Report) (ms : List Marker)
    → All IsWritten rs
    → consume_onto fresh ms (stream rs) ≡ ok (fresh, ms ++ map report_marker rs)
unfolding stream
consume_onto-stream [] ms w = unfold consume_onto in rw append-nil
consume_onto-stream (r ∷ rs) ms w =
    consume_onto-report r (stream rs) ms w.0
    ∙ consume_onto-stream rs (ms ++ report_marker r ∷ []) w.1
    ∙ rw append_assoc

-- A session whose ids are in the range of `uint64_t` and not 0, whose exit codes are in that of
-- `int`, and whose texts hold no byte 0 and fit a field is read back: the protocol yields the marker
-- of each report, in order, and is then at the start of a record.
pub consume-stream :
    (rs : List Report)
    → All IsWritten rs
    → consume fresh (stream rs) ≡ ok (fresh, map report_marker rs)
unfolding consume
consume-stream rs w = consume_onto-stream rs [] w
