-- ===== src/Collector/Guard.antt =====
-- `TraceeGuard` of src/ptrace_collector.cpp: what is done to the threads that still live when the
-- collector gives up.
pub mod Reaping
use whyrun.Collector.{
  Wait, interrupted, no_children, wait_failed, exited, signaled, stopped, continued, contains,
  erase_tid,
}
use whyrun.Common.{
  ℕ, ◌≡◌, ◌||◌, refl, ap, sym, ◌∙◌, Bool, true, false, not, List, [], ◌∷◌, ◌++◌, map, Option, none,
  some, ◌==◌, if◌then◌else◌, arith, is_empty, Bool-cases, inl, inr, All, append_assoc,
}

-- What the guard asks of the kernel for a thread: `kill`, or PTRACE_CONT, with SIGKILL.
pub data Request : Type 0 where
  kill continue_killed : ℕ → Request

-- What the loop asks for, by the answer of `waitpid`.
abbrev pub requests_for : Wait → List Request
requests_for (stopped tid stop_signal event) = continue_killed tid ∷ []
requests_for _ = []

-- The threads that are left, or none where the loop is left.
abbrev pub left_by : Wait → List ℕ → Option (List ℕ)
left_by no_children tids = none
left_by wait_failed tids = none
left_by (exited tid code) tids = some (erase_tid tid tids)
left_by (signaled tid sig) tids = some (erase_tid tid tids)
left_by _ tids = some tids

-- The loop, over the answers of `waitpid`: the threads that are left at its end, or none if it still
-- waits when the answers have come to an end, and what it has asked for.
unfoldable pub reap : List Wait → List ℕ → Option (List ℕ) × List Request
reap [] tids = (if is_empty tids then some tids else none, [])
reap (w ∷ ws) tids = if is_empty tids then (some tids, []) else elim (left_by w tids) [
  | none ↦ (some tids, [])
  | some left ↦ let (end, asked) = reap ws left in (end, requests_for w ++ asked)
]

-- The destructor.
unfoldable pub destroy_guard : Bool → List Wait → List ℕ → Option (List ℕ) × List Request
unfolding reap
destroy_guard active ws tids =
    if not active
    then (some tids, [])
    else let (end, asked) = reap ws tids in (end, map kill tids ++ asked)
