-- ===== src/Session/Steps.antt =====
-- The three things that a byte can do to the protocol's state without an exception.
use whyrun.Common.{
  ℕ, ◌+◌, ◌≢◌, ◌≡◌, ◌⊎◌, inl, inr, List, [], ◌∷◌, ◌++◌, Bytes, ok, arith, Result-cases, length,
  Bool-cases, ◌==◌, length-append,
}
use whyrun.Session.{Protocol, Marker, consume_byte, decode_record, fresh, maximum_field_bytes}

-- It joins the pending field.
pub record Keeps (p q : Protocol) (b : ℕ) (ms : List Marker) : Type 0 where
  pub not_zero : b ≢ 0
  pub room : length p.pending_field ≢ maximum_field_bytes
  pub kept : q ≡ record p { pending_field = p.pending_field ++ b ∷ [] }
  pub nothing : ms ≡ []

-- It ends a field that is not the last of its record.
pub record Closes (p q : Protocol) (b : ℕ) (ms : List Marker) : Type 0 where
  pub is_zero : b ≡ 0
  pub not_four : length p.fields + 1 ≢ 4
  pub closed : q ≡ record { pending_field = []; fields = p.fields ++ p.pending_field ∷ [] }
  pub nothing : ms ≡ []

-- It ends a record.
pub record Decodes (p q : Protocol) (b : ℕ) (ms : List Marker) : Type 0 where
  pub is_zero : b ≡ 0
  pub four : length (p.fields ++ p.pending_field ∷ []) ≡ 4
  pub marker : Marker
  pub decodes : decode_record (p.fields ++ p.pending_field ∷ []) ≡ ok marker
  pub cleared : q ≡ fresh
  pub one : ms ≡ marker ∷ []

module _ (p q : Protocol) (b : ℕ) (ms : List Marker) where
  abbrev fields : List Bytes
  fields = p.fields ++ p.pending_field ∷ []

  decoded : length fields ≡ 4 → b ≡ 0 → consume_byte p [] b ≡ ok (q, ms) → Decodes p q b ms
  unfolding consume_byte
  decoded four zero h = elim (Result-cases (decode_record fields)) [
    | inl (e, failed) ↦ absurd (ground arith)
    | inr (m, done) ↦ record {
      is_zero = zero;
      four = four;
      marker = m;
      decodes = done;
      cleared = ground arith;
      one = ground arith;
    }
  ]

  pub consume_byte-cases :
      consume_byte p [] b ≡ ok (q, ms) → Keeps p q b ms ⊎ Closes p q b ms ⊎ Decodes p q b ms
  consume_byte-cases h = elim (Bool-cases (b == 0)) [
    | inr text ↦ inl (unfold consume_byte in ground arith)
    | inl zero ↦ elim (Bool-cases (length fields == 4)) [
      | inl four ↦ inr (inr (decoded (ground arith) (ground arith) h))
      | inr more ↦ inr (
          inl
            (unfold consume_byte in ground (arith, length-append p.fields (p.pending_field ∷ []))))
    ]
  ]
