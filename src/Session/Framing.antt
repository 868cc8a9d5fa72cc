-- ===== src/Session/Framing.antt =====
-- How `CommandProtocol` cuts a stream into records: the state spells what has not been decoded.
use mathlib.Core.Path.{subst}
use whyrun.Common.{
  ℕ, ◌≡◌, refl, sym, ap, ◌∙◌, List, [], ◌∷◌, ◌++◌, append-nil, append_assoc, Bytes, ok, arith, inl,
  inr, length,
}
use whyrun.Session.Chunks.{consume-First, consume-nil}
use whyrun.Session.Steps.{consume_byte-cases}
use whyrun.Session.{Protocol, Marker, consume_byte, consume, decode_record, finish, fresh}

-- The bytes of finished fields.
abbrev pub ended : List Bytes → Bytes
ended [] = []
ended (f ∷ fs) = f ++ (0 ∷ ended fs)

ended-append : (fs gs : List Bytes) → ended (fs ++ gs) ≡ ended fs ++ ended gs
ended-append [] gs = refl
ended-append (f ∷ fs) gs = simp (ended-append fs gs, append_assoc)

-- The bytes that a state has read and not yet decoded.
abbrev pub spelled : Protocol → Bytes
spelled p = ended p.fields ++ p.pending_field

-- `bytes` is the text of records of four fields, each of which decodes to its marker.
pub data Spells : List Marker → Bytes → Type 0 where
  none_left : Spells [] []
  record_then :
      {m : Marker} {ms : List Marker} {rest bytes : Bytes} (fields : List Bytes)
      → length fields ≡ 4
      → decode_record fields ≡ ok m
      → Spells ms rest
      → bytes ≡ ended fields ++ rest
      → Spells (m ∷ ms) bytes

Spells-append :
    {ms ns : List Marker} {a : Bytes} (b : Bytes)
    → Spells ms a
    → Spells ns b
    → Spells (ms ++ ns) (a ++ b)
Spells-append b none_left t = t
Spells-append b (record_then {rest = rest} fields four decodes s e) t =
    record_then fields four decodes (Spells-append b s t)
      (rw e (append_assoc (ended fields) rest b))

-- What `bytes` adds to `p` is decoded as `ms`, or is left in `q`.
abbrev pub Accounts : Protocol → Bytes → Protocol → List Marker → Type 0
Accounts p bytes q ms = (done : Bytes) × Spells ms done × (spelled p ++ bytes ≡ done ++ spelled q)

spelled_end : (p : Protocol) → spelled p ++ 0 ∷ [] ≡ ended (p.fields ++ p.pending_field ∷ []) ++ []
spelled_end p = simp (ended-append, append_assoc, append-nil)

consume_byte-Accounts :
    (p q : Protocol) (b : ℕ) (ms : List Marker)
    → consume_byte p [] b ≡ ok (q, ms)
    → Accounts p (b ∷ []) q ms
consume_byte-Accounts p q b ms h = elim (consume_byte-cases p q b ms h) [
  | inl k ↦
      rw (k.kept, k.nothing) ([], none_left, append_assoc (ended p.fields) p.pending_field (b ∷ []))
  | inr (inl k) ↦ rw (k.is_zero, k.closed, k.nothing) ([], none_left, spelled_end p)
  | inr (inr k) ↦
      rw (k.is_zero, k.cleared, k.one)
        (
          ended (p.fields ++ p.pending_field ∷ []),
          record_then (p.fields ++ p.pending_field ∷ []) k.four k.decodes none_left
              (sym (append-nil _)),
          spelled_end p,
        )
]

consume-Accounts :
    (p q : Protocol) (bytes : Bytes) (ms : List Marker)
    → consume p bytes ≡ ok (q, ms)
    → Accounts p bytes q ms
consume-Accounts p q [] ms h = rw (ms_nil, q_p) ([], none_left, append-nil _)
  where
    q_p : q ≡ p
    q_p = ground (arith, consume-nil p)

    ms_nil : ms ≡ []
    ms_nil = ground (arith, consume-nil p)
consume-Accounts p q (b ∷ bytes) ms h =
    let f = consume-First p q b bytes ms h in
    let (done, s, e) = consume_byte-Accounts p f.next b f.first f.stepped in
    let (later, t, d) = consume-Accounts f.next q bytes f.second f.went_on in
    rw f.joined (
      done ++ later,
      Spells-append later s t,
      sym (append_assoc (spelled p) (b ∷ []) bytes)
          ∙ ap (λ x. x ++ bytes) e
          ∙ append_assoc done (spelled f.next) bytes
          ∙ ap (◌++◌ done) d
          ∙ sym (append_assoc done later (spelled q)),
    )

finish-eq-ok : (p : Protocol) → finish p ≡ ok tt → p ≡ fresh
unfolding finish
finish-eq-ok p h = ground arith

-- If the calls on a stream and `finish` succeed, the stream is the text of records of four fields
-- one after another, and its markers are what these records decode to, in order, none left out.
pub finish-consume :
    (bytes : Bytes) (q : Protocol) (ms : List Marker)
    → consume fresh bytes ≡ ok (q, ms)
    → finish q ≡ ok tt
    → Spells ms bytes
finish-consume bytes q ms h f =
    let (done, s, e) = consume-Accounts fresh q bytes ms h in
    let all : bytes ≡ done = e ∙ rw (finish-eq-ok q f) (append-nil done) in
    subst (Spells ms) (sym all) s
