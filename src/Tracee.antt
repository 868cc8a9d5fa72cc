-- ===== src/Tracee.antt =====
-- `LinuxTraceeMemory` of src/ptrace_collector.cpp: how a string or a number of bytes is read out of a
-- stopped process.
pub mod Strings
pub mod Blocks
use whyrun.Common.{
  ℕ, zero, suc, ◌+◌, ◌-◌, ◌||◌, ◌≤◌, ◌<◌, ◌≡◌, Bool, true, false, List, [], ◌∷◌, ◌++◌, Option, none,
  some, Bytes, length, ltb, ◌==◌, if◌then◌else◌,
}
use whyrun.Endpoint.{until_zero}

-- The two calls by which the kernel reads the memory of one thread.
pub record Kernel : Type 0 where
  -- `process_vm_readv` of an address and a size: the bytes it has read, or `none` for -1
  pub vm_read : ℕ → ℕ → Option Bytes
  -- `PTRACE_PEEKDATA`: the eight bytes of the word, or `none` where it fails
  pub peek : ℕ → Option Bytes

abbrev pub has_zero : Bytes → Bool
has_zero [] = false
has_zero (b ∷ s) = b == 0 || has_zero s

-- The bytes of a word behind the result, and whether `read_string` returns at one of them.
unfoldable pub push_word : ℕ → Bytes → Bytes → Bool × Bytes
push_word max_length [] result = (false, result)
push_word max_length (byte ∷ word) result =
    let rest = push_word max_length word (result ++ byte ∷ []) in
    if byte == 0 || length result == max_length then (true, result) else rest

-- The first bytes of a word.
abbrev pub first_bytes : ℕ → Bytes → Bytes
first_bytes zero word = []
first_bytes (suc n) [] = []
first_bytes (suc n) (byte ∷ word) = byte ∷ first_bytes n word

-- `std::min(sizeof(word), size - offset)`
abbrev pub copy_size : ℕ → ℕ → ℕ
copy_size size offset = if ltb 8 (size - offset) then 8 else size - offset

module _ (kernel : Kernel) where
  -- The loop over the words. Each round goes on by eight bytes, so the rounds end with `max_length`.
  unfoldable pub peek_string : ℕ → ℕ → ℕ → ℕ → Bytes → Option Bytes
  peek_string zero address max_length offset result = none
  peek_string (suc rounds) address max_length offset result =
      if ltb offset max_length
      then elim (kernel.peek (address + offset)) [
        | none ↦ some result
        | some word ↦
            let (returned, pushed) = push_word max_length word result in
            elim returned [
              | true ↦ some pushed
              | false ↦ peek_string rounds address max_length (offset + 8) pushed
            ]
      ]
      else some result

  -- From the answer of `process_vm_readv` on. An empty one has no 0, and the size asked for is not 0.
  abbrev pub string_of : ℕ → ℕ → Option Bytes → Option Bytes
  string_of address max_length none = peek_string (max_length + 1) address max_length 0 []
  string_of address max_length (some buffer) =
      if has_zero buffer || length buffer == max_length
      then some (until_zero buffer)
      else peek_string (max_length + 1) address max_length 0 []

  unfoldable pub read_string : ℕ → ℕ → Option Bytes
  unfolding peek_string
  read_string address max_length =
      if address == 0 || max_length == 0
      then some []
      else string_of address max_length (kernel.vm_read address max_length)

  -- What `read_bytes` has written at the destination from `offset` on, or `none` where it returns
  -- `false`; the outer `none` is that the rounds are used up.
  unfoldable pub peek_bytes : ℕ → ℕ → ℕ → ℕ → Bytes → Option (Option Bytes)
  peek_bytes zero address size offset output = none
  peek_bytes (suc rounds) address size offset output =
      if ltb offset size
      then elim (kernel.peek (address + offset)) [
        | none ↦ some none
        | some word ↦
            let n = copy_size size offset in
            peek_bytes rounds address size (offset + n) (output ++ first_bytes n word)
      ]
      else some (some output)

  abbrev pub bytes_of : ℕ → ℕ → Option Bytes → Option (Option Bytes)
  bytes_of address size none = peek_bytes (size + 1) address size 0 []
  bytes_of address size (some buffer) =
      if length buffer == size then some (some buffer) else peek_bytes (size + 1) address size 0 []

  -- `destination` is not null: each caller hands over the address of a variable.
  unfoldable pub read_bytes : ℕ → ℕ → Option (Option Bytes)
  unfolding peek_bytes
  read_bytes address size =
      if address == 0 || size == 0
      then some none
      else bytes_of address size (kernel.vm_read address size)

-- What Linux documents of the two calls, for a memory that gives each address its byte or none: what
-- they read is there, and a word that cannot be read has a byte that cannot be.
unfoldable pub Holds : (ℕ → Option ℕ) → ℕ → Bytes → Type 0
Holds memory address [] = Unit
Holds memory address (b ∷ s) = (memory address ≡ some b) × Holds memory (address + 1) s

abbrev pub Faults : (ℕ → Option ℕ) → ℕ → Type 0
Faults memory address = (i : ℕ) × (i < 8) × (memory (address + i) ≡ none)

pub record IsFaithful (kernel : Kernel) (memory : ℕ → Option ℕ) : Type 0 where
  pub reads :
      (address size : ℕ) (buffer : Bytes)
      → kernel.vm_read address size ≡ some buffer
      → Holds memory address buffer × (length buffer ≤ size)
  pub peeks :
      (address : ℕ) (word : Bytes)
      → kernel.peek address ≡ some word
      → Holds memory address word × (length word ≡ 8)
  pub faults : (address : ℕ) → kernel.peek address ≡ none → Faults memory address
