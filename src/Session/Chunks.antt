-- ===== src/Session/Chunks.antt =====
-- How the bytes are cut into writes does not matter to `CommandProtocol::consume`.
use whyrun.Common.{
  ℕ, ◌≡◌, refl, sym, ◌∙◌, List, [], ◌∷◌, ◌++◌, append-nil, append_assoc, Bytes, Result, ok, err,
  ◌>>=◌, arith, inl, inr, Result-cases, >>=-eq-ok,
}
use whyrun.Session.{Protocol, Marker, consume_byte, consume_onto, consume, decode_record}

-- Markers that were there before go in front of the new ones.
abbrev after : List Marker → Protocol × List Marker → Result (Protocol × List Marker)
after markers (q, new) = ok (q, markers ++ new)

after-after :
    (ms new : List Marker) (r : Result (Protocol × List Marker))
    → (r >>= after (ms ++ new)) ≡ (r >>= after new >>= after ms)
after-after ms new (ok (q, more)) = rw append_assoc
after-after ms new (err e) = refl

consume_byte-after :
    (p : Protocol) (ms : List Marker) (b : ℕ)
    → consume_byte p ms b ≡ (consume_byte p [] b >>= after ms)
unfolding consume_byte
consume_byte-after p ms b =
    ground (arith, append-nil ms, Result-cases (decode_record (p.fields ++ p.pending_field ∷ [])))

consume_onto-after :
    (p : Protocol) (ms : List Marker) (bytes : Bytes)
    → consume_onto p ms bytes ≡ (consume_onto p [] bytes >>= after ms)
unfolding consume_onto
consume_onto-after p ms [] = rw append-nil
consume_onto-after p ms (b ∷ bytes) = elim (Result-cases (consume_byte p [] b)) [
  | inl (e, failed) ↦ rw (consume_byte-after p ms b, failed)
  | inr ((q, new), done) ↦
      rw (consume_byte-after p ms b, done)
        (rw (consume_onto-after q (ms ++ new) bytes, consume_onto-after q new bytes)
          (after-after ms new (consume_onto q [] bytes)))
]

consume_onto-append :
    (p : Protocol) (ms : List Marker) (a b : Bytes)
    → consume_onto p ms (a ++ b) ≡ (consume_onto p ms a >>= λ (q, new). consume_onto q new b)
unfolding consume_onto
consume_onto-append p ms [] b = refl
consume_onto-append p ms (c ∷ a) b = elim (Result-cases (consume_byte p ms c)) [
  | inl (e, failed) ↦ rw failed
  | inr ((q, new), done) ↦ rw done (consume_onto-append q new a b)
]

-- Two calls with the parts of a text give the markers that one call with the whole text gives, in
-- the same order, and leave the same state; and if the one call throws, so do the two, the same
-- exception.
pub consume-append :
    (p : Protocol) (a b : Bytes)
    → consume p (a ++ b)
      ≡ (consume p a >>= λ (q, first). consume q b >>= λ (r, second). ok (r, first ++ second))
unfolding consume
consume-append p a b = rw (consume_onto-append p [] a b) (go (consume_onto p [] a))
  where
    go :
        (m : Result (Protocol × List Marker))
        → (m >>= λ (q, new). consume_onto q new b)
          ≡ (m >>= λ (q, first). consume_onto q [] b >>= λ (r, second). ok (r, first ++ second))
    go (ok (q, new)) = consume_onto-after q new b
    go (err e) = refl

-- What a call that succeeds does with its first byte.
pub record First (p q : Protocol) (b : ℕ) (bytes : Bytes) (ms : List Marker) : Type 0 where
  pub next : Protocol
  pub first : List Marker
  pub second : List Marker
  pub stepped : consume_byte p [] b ≡ ok (next, first)
  pub went_on : consume next bytes ≡ ok (q, second)
  pub joined : ms ≡ first ++ second

pub consume-First :
    (p q : Protocol) (b : ℕ) (bytes : Bytes) (ms : List Marker)
    → consume p (b ∷ bytes) ≡ ok (q, ms)
    → First p q b bytes ms
unfolding consume consume_onto
consume-First p q b bytes ms h =
    let ((r, first), stepped, later) =
      >>=-eq-ok (consume_byte p [] b) (λ (r, new). consume_onto r new bytes) h in
    let ((r', second), went_on, joined) =
      >>=-eq-ok (consume_onto r [] bytes) (after first)
        (sym (consume_onto-after r first bytes) ∙ later) in
    record {
      next = r;
      first = first;
      second = second;
      stepped = stepped;
      went_on = ground arith;
      joined = ground arith;
    }

pub consume-nil : (p : Protocol) → consume p [] ≡ ok (p, [])
unfolding consume consume_onto
consume-nil p = refl
