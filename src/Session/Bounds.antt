-- ===== src/Session/Bounds.antt =====
-- What `CommandProtocol` holds between two calls is bounded.
use whyrun.Common.{
  ℕ, ◌≤◌, ◌<◌, ◌≡◌, inl, inr, List, [], ◌∷◌, Bytes, ok, arith, length, length-append, All,
  All-append,
}
use whyrun.Session.Chunks.{consume-First, consume-nil}
use whyrun.Session.Steps.{consume_byte-cases}
use whyrun.Session.{Protocol, Marker, consume_byte, consume, maximum_field_bytes}

abbrev pub IsShort : Bytes → Type 0
IsShort f = length f ≤ maximum_field_bytes

pub record IsBounded (p : Protocol) : Type 0 where
  pub pending : IsShort p.pending_field
  pub short : All IsShort p.fields
  pub few : length p.fields < 4

consume_byte-IsBounded :
    (p q : Protocol) (b : ℕ) (ms : List Marker)
    → consume_byte p [] b ≡ ok (q, ms)
    → IsBounded p
    → IsBounded q
consume_byte-IsBounded p q b ms h v = elim (consume_byte-cases p q b ms h) [
  | inl k ↦ rw k.kept (record {
    pending = omega (arith, length-append p.pending_field (b ∷ []));
    short = v.short;
    few = v.few;
  })
  | inr (inl k) ↦ rw k.closed (record {
    pending = omega arith;
    short = All-append IsShort p.fields (p.pending_field ∷ []) v.short (v.pending, tt);
    few = omega (arith, length-append p.fields (p.pending_field ∷ []));
  })
  | inr (inr k) ↦ rw k.cleared (record { pending = omega arith; short = tt; few = omega arith })
]

-- After any call that does not throw, the pending field and each finished field have at most
-- 64 KiB, and there are at most three finished fields, if that was so before the call.
pub consume-IsBounded :
    (p q : Protocol) (bytes : Bytes) (ms : List Marker)
    → consume p bytes ≡ ok (q, ms)
    → IsBounded p
    → IsBounded q
consume-IsBounded p q [] ms h v = rw q_p v
  where
    q_p : q ≡ p
    q_p = ground (arith, consume-nil p)
consume-IsBounded p q (b ∷ bytes) ms h v =
    let f = consume-First p q b bytes ms h in
    consume-IsBounded f.next q bytes f.second f.went_on
      (consume_byte-IsBounded p f.next b f.first f.stepped v)
