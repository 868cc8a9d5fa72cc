-- ===== src/Tests/Tracing.antt =====
-- The memory of a stopped process, and the end of the threads that are left.
use whyrun.Common.{
  ok, ℕ, zero, suc, ◌+◌, ◌≡◌, refl, true, false, List, [], ◌∷◌, ◌++◌, map, Option, none, some,
  Bytes, codes, ltb, ◌==◌, ◌<◌, if◌then◌else◌, arith, length, ap, ◌⊎◌, Bool-cases, inl, inr,
}
use whyrun.Collector.Launch.Refusals.{Accounts, collect_request-Accounts}
use whyrun.Collector.Launch.{
  Launch, first_stopped, launch, first_stop, traced, collect_request, no_collection,
}
use whyrun.Collector.Guard.Reaping.{ends, all_requests, destroy_guard-reaps}
use whyrun.Collector.Guard.{kill, continue_killed, destroy_guard, reap}
use whyrun.Collector.{Wait, interrupted, exited, signaled, stopped, contains}
use whyrun.Tracee.Blocks.{IsBlock, read_bytes-IsBlock}
use whyrun.Tracee.Strings.{IsString, read_string-IsString}
use whyrun.Tracee.{
  Kernel, Holds, IsFaithful, push_word, peek_string, peek_bytes, read_string, read_bytes,
}

-- "aaa" at 1000, behind a 0 more of it, up to 1016.
abbrev byte_at : ℕ → ℕ
byte_at address = if address == 1003 then 0 else 97

abbrev memory : ℕ → Option ℕ
memory address = if ltb address 1016 then some (byte_at address) else none

abbrev bytes_from : ℕ → ℕ → Bytes
bytes_from zero address = []
bytes_from (suc n) address = byte_at address ∷ bytes_from n (address + 1)

-- `process_vm_readv` is not permitted.
abbrev kernel : Kernel
kernel = record {
  vm_read = λ address size. none;
  peek = λ address. if ltb (address + 7) 1016 then some (bytes_from 8 address) else none;
}

bytes_from-Holds :
    (n address : ℕ) → address + n < 1017 → Holds memory address (bytes_from n address)
unfolding Holds
bytes_from-Holds zero address small = tt
bytes_from-Holds (suc n) address small =
    (ground arith, bytes_from-Holds n (address + 1) (omega arith))

length-bytes_from : (n address : ℕ) → length (bytes_from n address) ≡ n
length-bytes_from zero address = refl
length-bytes_from (suc n) address = ap suc (length-bytes_from n (address + 1))

some-injective : (s t : Bytes) → some s ≡ some t → s ≡ t
some-injective s t e = cc

peeked :
    (address : ℕ)
    → (ltb (address + 7) 1016 ≡ true) ⊎ (ltb (address + 7) 1016 ≡ false)
    → (word : Bytes) → kernel.peek address ≡ some word
    → Holds memory address word × (length word ≡ 8)
peeked address (inl within) word h =
    let is_word : bytes_from 8 address ≡ word =
      some-injective (bytes_from 8 address) word (rw within at h) in
    rw (← is_word) ((bytes_from-Holds 8 address (ground arith), length-bytes_from 8 address))
peeked address (inr past) word h = absurd (ground arith)

kernel-IsFaithful : IsFaithful kernel memory
kernel-IsFaithful = record {
  reads = λ address size buffer h. cc;
  peeks = λ address word h. peeked address (Bool-cases (ltb (address + 7) 1016)) word h;
  faults = λ address h. (7, omega arith, ground arith);
}

-- The word behind the 0 does not count.
short_string : read_string kernel 1000 4096 ≡ some (codes "aaa")
unfolding read_string push_word peek_string
short_string = refl

-- The string ends in front of a word that stretches past the memory's end.
cut_string : read_string kernel 1004 4096 ≡ some (codes "aaaaaaaa")
unfolding read_string push_word peek_string
cut_string = refl

block : read_bytes kernel 1002 3 ≡ some (some (97 ∷ 0 ∷ 97 ∷ []))
unfolding read_bytes peek_bytes
block = refl

read_string-IsString_example :
    (s : Bytes) × (read_string kernel 1000 4096 ≡ some s) × IsString memory 1000 4096 s
read_string-IsString_example =
    read_string-IsString kernel memory kernel-IsFaithful 1000 4096 (λ e. omega arith)

read_bytes-IsBlock_example :
    (block : Option Bytes) × (read_bytes kernel 1002 3 ≡ some block) × IsBlock memory 1002 3 block
read_bytes-IsBlock_example =
    read_bytes-IsBlock memory kernel kernel-IsFaithful 1002 3 (λ e. omega arith) (λ e. omega arith)

abbrev answers : List Wait
answers = stopped 12 19 0 ∷ interrupted ∷ exited 11 0 ∷ signaled 12 9 ∷ exited 13 0 ∷ []

all_end : (tid : ℕ) → contains tid (11 ∷ 12 ∷ []) ≡ true → ends tid answers ≡ true
unfolding ends
all_end tid h = ground arith

destroy_guard-reaps_example :
    (taken rest : List Wait) × (answers ≡ taken ++ rest)
    × (destroy_guard true answers (11 ∷ 12 ∷ [])
        ≡ (some [], map kill (11 ∷ 12 ∷ []) ++ all_requests taken))
    × ((tid : ℕ) → contains tid (11 ∷ 12 ∷ []) ≡ true → ends tid taken ≡ true)
destroy_guard-reaps_example =
    destroy_guard-reaps answers (11 ∷ 12 ∷ []) all_end (refl, (refl, (refl, (refl, (refl, tt)))))

-- The thread that is none of them is not waited for.
two_threads :
    destroy_guard true answers (11 ∷ 12 ∷ [])
    ≡ (some [], kill 11 ∷ kill 12 ∷ continue_killed 12 ∷ [])
unfolding destroy_guard reap
two_threads = refl

-- The program could not be resumed.
abbrev launched : Launch
launched = record { forked = some 11; first = first_stopped; options_set = true; resumed = false }

not_resumed :
    collect_request (codes "ls" ∷ []) launched [] none none 0 [] 0 []
    ≡ ok (some no_collection, kill 11 ∷ [])
unfolding collect_request launch first_stop destroy_guard reap traced
not_resumed = refl

collect_request-Accounts_example :
    Accounts (codes "ls" ∷ []) launched [] none none 0 [] 0 [] (some no_collection) (kill 11 ∷ [])
collect_request-Accounts_example =
    collect_request-Accounts (codes "ls" ∷ []) launched [] none none 0 [] 0 [] (some no_collection)
      (kill 11 ∷ []) not_resumed
