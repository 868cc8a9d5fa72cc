-- ===== src/Tracee/Blocks.antt =====
-- What `read_bytes` of src/ptrace_collector.cpp reads.
use whyrun.Tracee.Strings.{memory_at, Holds-append}
use whyrun.Common.{
  ℕ, zero, suc, ◌+◌, ◌≤◌, ◌<◌, ◌≡◌, ◌≢◌, inl, inr, refl, false, [], ◌∷◌, ◌++◌, Option, none, some,
  Bytes, length, length-append, ltb, ◌==◌, arith, Bool-cases, Option-cases, ap,
}
use whyrun.Tracee.{
  Kernel, first_bytes, copy_size, peek_bytes, bytes_of, read_bytes, Holds, IsFaithful,
}

-- The bytes of a block, or, in place of them, an address in it or in the word that stretches past its
-- end that cannot be read.
abbrev pub IsBlock : (ℕ → Option ℕ) → ℕ → ℕ → Option Bytes → Type 0
IsBlock memory address size none = (i : ℕ) × (i < size + 8) × (memory (address + i) ≡ none)
IsBlock memory address size (some block) = Holds memory address block × (length block ≡ size)

module _ (memory : ℕ → Option ℕ) where
  first_bytes-Holds :
      (n address : ℕ) (word : Bytes)
      → Holds memory address word
      → Holds memory address (first_bytes n word)
  unfolding Holds
  first_bytes-Holds zero address word h = tt
  first_bytes-Holds (suc n) address [] h = tt
  first_bytes-Holds (suc n) address (b ∷ word) (here, h) =
      (here, first_bytes-Holds n (address + 1) word h)

  length-first_bytes : (n : ℕ) (word : Bytes) → n ≤ length word → length (first_bytes n word) ≡ n
  length-first_bytes zero word h = refl
  length-first_bytes (suc n) [] h = absurd (omega arith)
  length-first_bytes (suc n) (b ∷ word) h = ap suc (length-first_bytes n word (omega arith))

  module _ (kernel : Kernel) (faithful : IsFaithful kernel memory) (address size : ℕ) where
    abbrev Found : Option (Option Bytes) → Type 0
    Found found = (block : Option Bytes) × (found ≡ some block) × IsBlock memory address size block

    peek_bytes-Found :
        (rounds offset : ℕ) (output : Bytes)
        → Holds memory address output
        → length output ≡ offset
        → offset ≤ size
        → size < rounds + offset
        → Found (peek_bytes kernel rounds address size offset output)
    unfolding peek_bytes
    peek_bytes-Found zero offset output h same within enough = absurd (omega arith)
    peek_bytes-Found (suc rounds) offset output h same within enough =
        elim (Bool-cases (ltb offset size)) [
          | inl more ↦ elim (Option-cases (kernel.peek (address + offset))) [
            | inl failed ↦
                let (i, small, gone) = faithful.faults (address + offset) failed in
                rw (more, failed)
                  (none, refl, (offset + i, ground arith, memory_at memory (omega arith) gone))
            | inr (word, peeked) ↦
                let (there, eight) = faithful.peeks (address + offset) word peeked in
                let copied =
                  length-first_bytes (copy_size size offset) word (ground (arith, eight)) in
                rw (more, peeked)
                  (peek_bytes-Found rounds (offset + copy_size size offset)
                    (output ++ first_bytes (copy_size size offset) word)
                    (Holds-append memory address output (first_bytes (copy_size size offset) word) h
                      (first_bytes-Holds (copy_size size offset) (address + length output) word
                        (rw same there)))
                    (omega (
                      arith,
                      copied,
                      length-append output (first_bytes (copy_size size offset) word),
                    ))
                    (ground arith) (ground arith))
          ]
          | inr past ↦ rw past (some output, refl, (h, ground arith))
        ]

    nothing_read : Holds memory address []
    unfolding Holds
    nothing_read = tt

    bytes_of-Found :
        (answer : Option Bytes)
        → kernel.vm_read address size ≡ answer
        → Found (bytes_of kernel address size answer)
    bytes_of-Found none same =
        peek_bytes-Found (size + 1) 0 [] nothing_read refl (omega arith) (omega arith)
    bytes_of-Found (some buffer) same = elim (Bool-cases (length buffer == size)) [
      | inl whole ↦
          rw whole (some buffer, refl, ((faithful.reads address size buffer same).0, ground arith))
      | inr short ↦
          rw short (peek_bytes-Found (size + 1) 0 [] nothing_read refl (omega arith) (omega arith))
    ]

    -- For a kernel that gives what the memory holds, `read_bytes` of an address that is not null and a
    -- size that is not 0 returns: the loop over the words ends. With `true` it has stored exactly the
    -- bytes that the memory holds there, as many as were asked for. With `false`, a byte of them, or of
    -- the word that stretches past their end, cannot be read.
    pub read_bytes-IsBlock :
        address ≢ 0
        → size ≢ 0
        → (block : Option Bytes) × (read_bytes kernel address size ≡ some block)
          × IsBlock memory address size block
    unfolding read_bytes
    read_bytes-IsBlock not_null some_size =
        let is_address : (address == 0) ≡ false = ground arith in
        let is_size : (size == 0) ≡ false = ground arith in
        rw (is_address, is_size) (bytes_of-Found (kernel.vm_read address size) refl)
