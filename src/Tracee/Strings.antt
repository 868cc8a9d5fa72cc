-- ===== src/Tracee/Strings.antt =====
-- What `read_string` of src/ptrace_collector.cpp reads.
use whyrun.Tracee.{
  string_of, Kernel, push_word, peek_string, read_string, Holds, Faults, IsFaithful, has_zero,
}
use whyrun.Common.{
  ℕ, zero, suc, ◌+◌, ◌≤◌, ◌<◌, ◌≡◌, ◌≢◌, ◌⊎◌, inl, inr, refl, Bool, true, false, [], ◌∷◌, ◌++◌,
  Option, none, some, Bytes, Lacks, length, length-append, ltb, ◌==◌, arith, Bool-cases,
  Option-cases, sym, ap, ◌∙◌,
}
use whyrun.Endpoint.{until_zero}

-- A string at an address: it is what the memory holds there, without a 0, and it ends at the limit, in
-- front of a 0, or at a word of which a byte cannot be read.
pub record IsString (memory : ℕ → Option ℕ) (address max_length : ℕ) (s : Bytes) : Type 0 where
  pub holds : Holds memory address s
  pub no_zero : Lacks 0 s
  pub bounded : length s ≤ max_length
  pub ends :
      (length s ≡ max_length)
      ⊎ ((memory (address + length s) ≡ some 0) ⊎ Faults memory (address + length s))

module _ (memory : ℕ → Option ℕ) where
  moved :
      {address there : ℕ} (s : Bytes)
      → address ≡ there
      → Holds memory address s
      → Holds memory there s
  moved s same h = rw same at h

  pub Holds-append :
      (address : ℕ) (s t : Bytes)
      → Holds memory address s
      → Holds memory (address + length s) t
      → Holds memory address (s ++ t)
  unfolding Holds
  Holds-append address [] t h rest = moved t (omega arith) rest
  Holds-append address (b ∷ s) t (here, h) rest =
      (here, Holds-append (address + 1) s t h (moved t (omega arith) rest))

  Lacks-append : (s t : Bytes) → Lacks 0 s → Lacks 0 t → Lacks 0 (s ++ t)
  Lacks-append [] t h rest = rest
  Lacks-append (b ∷ s) t (here, h) rest = (here, Lacks-append s t h rest)

  -- What stands in front of the first 0 of a buffer.
  record Front (address : ℕ) (buffer s : Bytes) : Type 0 where
    holds : Holds memory address s
    no_zero : Lacks 0 s
    shorter : length s ≤ length buffer
    at_zero : has_zero buffer ≡ true → memory (address + length s) ≡ some 0
    at_end : has_zero buffer ≡ false → length s ≡ length buffer

  later_zero : (b : ℕ) (buffer : Bytes) → (b == 0) ≡ false → has_zero (b ∷ buffer) ≡ has_zero buffer
  later_zero b buffer nonzero = rw nonzero refl

  pub memory_at :
      {address there : ℕ} {b : Option ℕ} → address ≡ there → memory address ≡ b → memory there ≡ b
  memory_at same h = rw same at h

  until_zero-Front :
      (address : ℕ) (buffer : Bytes)
      → Holds memory address buffer
      → Front address buffer (until_zero buffer)
  unfolding until_zero Holds
  until_zero-Front address [] h = record {
    holds = tt;
    no_zero = tt;
    shorter = omega arith;
    at_zero = λ e. cc;
    at_end = λ e. refl;
  }
  until_zero-Front address (b ∷ buffer) (here, h) = elim (Bool-cases (b == 0)) [
    | inl zero_byte ↦ rw zero_byte (record {
      holds = tt;
      no_zero = tt;
      shorter = omega arith;
      at_zero = λ e. memory_at (omega arith) (here ∙ ap some (ground arith));
      at_end = λ e. cc;
    })
    | inr nonzero ↦
        let rest = until_zero-Front (address + 1) buffer h in
        rw nonzero (record {
          holds = (here, rest.holds);
          no_zero = ((λ e. ground arith), rest.no_zero);
          shorter = omega (arith, rest.shorter);
          at_zero =
              λ e. memory_at (omega arith) (rest.at_zero (sym (later_zero b buffer nonzero) ∙ e));
          at_end = λ e. omega (arith, rest.at_end (sym (later_zero b buffer nonzero) ∙ e));
        })
  ]

  module _ (address max_length : ℕ) where
    record Partial (s : Bytes) : Type 0 where
      holds : Holds memory address s
      no_zero : Lacks 0 s
      bounded : length s ≤ max_length

    abbrev Pushed : Bytes → Bytes → Bool × Bytes → Type 0
    Pushed word result (true, pushed) = IsString memory address max_length pushed
    Pushed word result (false, pushed) =
        Partial pushed × (length pushed ≡ length result + length word)

    longer :
        (byte : ℕ) (word result : Bytes) (p : Bool × Bytes)
        → Pushed word (result ++ byte ∷ []) p
        → Pushed (byte ∷ word) result p
    longer byte word result (true, pushed) is_string = is_string
    longer byte word result (false, pushed) (partial, grown) =
        (partial, omega (arith, length-append result (byte ∷ [])))

    more :
        (byte : ℕ) (result : Bytes)
        → Partial result
        → memory (address + length result) ≡ some byte
        → byte ≢ 0
        → length result ≢ max_length
        → Partial (result ++ byte ∷ [])
    unfolding Holds
    more byte result so_far here nonzero room = record {
      holds = Holds-append address result (byte ∷ []) so_far.holds (here, tt);
      no_zero = Lacks-append result (byte ∷ []) so_far.no_zero (nonzero, tt);
      bounded = omega (arith, length-append result (byte ∷ []), so_far.bounded, room);
    }

    push_word-Pushed :
        (word result : Bytes)
        → Partial result
        → Holds memory (address + length result) word
        → Pushed word result (push_word max_length word result)
    unfolding push_word Holds
    push_word-Pushed [] result so_far h = (so_far, omega arith)
    push_word-Pushed (byte ∷ word) result so_far (here, h) = elim (Bool-cases (byte == 0)) [
      | inl zero_byte ↦ rw zero_byte (record {
        holds = so_far.holds;
        no_zero = so_far.no_zero;
        bounded = so_far.bounded;
        ends = inr (inl (here ∙ ap some (ground arith)));
      })
      | inr nonzero ↦ elim (Bool-cases (length result == max_length)) [
        | inl full ↦
            rw (nonzero, full)
              (record {
                holds = so_far.holds;
                no_zero = so_far.no_zero;
                bounded = so_far.bounded;
                ends = inl (ground arith);
              })
        | inr room ↦
            rw (nonzero, room)
              (longer byte word result _ (
                push_word-Pushed word (result ++ byte ∷ [])
                  (more byte result so_far here (λ e. ground arith) (λ e. ground arith))
                  (moved word (omega (arith, length-append result (byte ∷ []))) h)))
      ]
    ]

    -- A round that has not returned has come to a limit at a multiple of eight.
    module _ (kernel : Kernel) (faithful : IsFaithful kernel memory) where
      abbrev Found : Option Bytes → Type 0
      Found found = (s : Bytes) × (found ≡ some s) × IsString memory address max_length s

      whole_string :
          (s : Bytes)
          → Partial s
          → (length s ≡ max_length)
            ⊎ ((memory (address + length s) ≡ some 0) ⊎ Faults memory (address + length s))
          → Found (some s)
      whole_string s so_far ends = (
        s,
        refl,
        record {
          holds = so_far.holds;
          no_zero = so_far.no_zero;
          bounded = so_far.bounded;
          ends = ends;
        },
      )

      -- Behind a word.
      goes_on :
          (rounds offset : ℕ) (word result : Bytes) (p : Bool × Bytes)
          → Pushed word result p
          → ((s : Bytes)
              → Partial s
              → length s ≡ length result + length word
              → Found (peek_string kernel rounds address max_length (offset + 8) s))
          → Found (elim p.0 [
            | true ↦ some p.1
            | false ↦ peek_string kernel rounds address max_length (offset + 8) p.1
          ])
      goes_on rounds offset word result (true, pushed) is_string next = (pushed, refl, is_string)
      goes_on rounds offset word result (false, pushed) (so_far, grown) next =
          next pushed so_far grown

      peek_string-Found :
          (rounds offset : ℕ) (result : Bytes)
          → Partial result
          → length result ≡ offset
          → max_length < rounds + offset
          → Found (peek_string kernel rounds address max_length offset result)
      unfolding peek_string
      peek_string-Found zero offset result so_far same enough =
          absurd (omega (arith, so_far.bounded))
      peek_string-Found (suc rounds) offset result so_far same enough =
          elim (Bool-cases (ltb offset max_length)) [
            | inl within ↦ elim (Option-cases (kernel.peek (address + offset))) [
              | inl failed ↦
                  rw (within, failed)
                    (whole_string result so_far
                      (inr (inr (rw same (faithful.faults (address + offset) failed)))))
              | inr (word, peeked) ↦
                  let (there, eight) = faithful.peeks (address + offset) word peeked in
                  rw (within, peeked)
                    (goes_on rounds offset word result (push_word max_length word result)
                      (push_word-Pushed word result so_far (rw same there))
                      (λ s partial grown.
                        peek_string-Found rounds (offset + 8) s partial (omega arith)
                          (omega arith)))
            ]
            | inr past ↦
                let ended : length result ≡ max_length = ground (arith, so_far.bounded) in
                rw past (whole_string result so_far (inl ended))
          ]

      nothing_read : Partial []
      unfolding Holds
      nothing_read = record { holds = tt; no_zero = tt; bounded = omega arith }

      buffer-Found :
          (buffer : Bytes)
          → Holds memory address buffer
          → length buffer ≤ max_length
          → (has_zero buffer ≡ true) ⊎ ((has_zero buffer ≡ false) × (length buffer ≡ max_length))
          → Found (some (until_zero buffer))
      buffer-Found buffer h fits stops =
          let first = until_zero-Front address buffer h in
          whole_string (until_zero buffer)
            (record {
              holds = first.holds;
              no_zero = first.no_zero;
              bounded = omega (arith, first.shorter);
            })
            (elim stops [
              | inl zero_byte ↦ inr (inl (first.at_zero zero_byte))
              | inr (nonzero, full) ↦ inl (first.at_end nonzero ∙ full)
            ])

      string_of-Found :
          (answer : Option Bytes)
          → kernel.vm_read address max_length ≡ answer
          → Found (string_of kernel address max_length answer)
      string_of-Found none same =
          peek_string-Found (max_length + 1) 0 [] nothing_read refl (omega arith)
      string_of-Found (some buffer) same =
          let (there, fits) = faithful.reads address max_length buffer same in
          elim (Bool-cases (has_zero buffer)) [
            | inl zero_byte ↦ rw zero_byte (buffer-Found buffer there fits (inl zero_byte))
            | inr nonzero ↦ elim (Bool-cases (length buffer == max_length)) [
              | inl full ↦
                  rw (nonzero, full) (buffer-Found buffer there fits (inr (nonzero, ground arith)))
              | inr short ↦
                  rw (nonzero, short)
                    (peek_string-Found (max_length + 1) 0 [] nothing_read refl (omega arith))
            ]
          ]

-- For a kernel that gives what the memory holds, `read_string` of an address that is not null returns:
-- the loop over the words ends. What it returns is a string in the memory: the bytes there, none of
-- them 0 and no more than the limit, up to the limit, to a 0, or to a word of eight bytes of which one
-- cannot be read.
pub read_string-IsString :
    (kernel : Kernel) (memory : ℕ → Option ℕ) (faithful : IsFaithful kernel memory)
    (address max_length : ℕ)
    → address ≢ 0
    → (s : Bytes) × (read_string kernel address max_length ≡ some s)
      × IsString memory address max_length s
unfolding read_string
read_string-IsString kernel memory faithful address max_length not_null =
    let is_address : (address == 0) ≡ false = ground arith in
    elim (Bool-cases (max_length == 0)) [
      | inl nothing ↦
          rw (is_address, nothing)
            (whole_string memory address max_length kernel faithful []
              (nothing_read memory address max_length kernel faithful) (inl (ground arith)))
      | inr some_length ↦
          rw (is_address, some_length)
            (string_of-Found memory address max_length kernel faithful
              (kernel.vm_read address max_length) refl)
    ]
