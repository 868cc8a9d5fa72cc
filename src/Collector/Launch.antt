-- ===== src/Collector/Launch.antt =====
-- `PtraceCollector::collect` in src/ptrace_collector.cpp as a whole: the fork of the program, its first
-- stop, the loop, and what becomes of the threads when it returns.
pub mod Refusals
use whyrun.Collector.Guard.{Request, kill, destroy_guard}
use whyrun.Collector.Loop.{
  Progress, over, returned, blocked, loop, started, Collection, collection_of,
}
use whyrun.Collector.{Wait, Answers}
use whyrun.Common.Int.{ℤ, negsuc}
use whyrun.Common.{
  ℕ, Bool, true, false, not, List, [], ◌∷◌, Option, none, some, if◌then◌else◌, Bytes, Result, ok,
  ◌>>=◌,
}

-- What `waitpid` says of the program in front of its first instruction.
pub data FirstStop : Type 0 where
  first_failed first_stopped first_ended : FirstStop

-- What the kernel answers until the loop begins.
pub record Launch : Type 0 where
  pub forked : Option ℕ
  pub first : FirstStop
  pub options_set : Bool
  pub resumed : Bool

-- The errors with which `collect` returns in front of the loop.
pub data Refusal : Type 0 where
  no_command fork_failed no_status no_first_stop options_refused resume_refused : Refusal

pub data Begin : Type 0 where
  refused : Refusal → Begin
  begun : ℕ → Begin

-- From the first stop on. `ws` are the answers to the guard.
unfoldable pub first_stop : ℕ → FirstStop → Launch → List Wait → Begin × List Request
unfolding destroy_guard
first_stop root first_failed a ws = (refused no_status, kill root ∷ [])
first_stop root first_ended a ws = (refused no_first_stop, [])
first_stop root first_stopped a ws =
    if not a.options_set
    then (refused options_refused, kill root ∷ [])
    else if not a.resumed
    then (refused resume_refused, (destroy_guard true ws (root ∷ [])).1)
    else (begun root, [])

unfoldable pub launch : List Bytes → Launch → List Wait → Begin × List Request
unfolding first_stop
launch [] a ws = (refused no_command, [])
launch (program ∷ arguments) a ws = elim a.forked [
  | none ↦ (refused fork_failed, [])
  | some root ↦ first_stop root a.first a ws
]

-- A `CollectionResult` as it is declared.
abbrev pub no_collection : Collection
no_collection = record { collector_ok = false; exit_code = negsuc 0; term_signal = 0; end_ns = 0 }

-- The guard at the end: `release` is called behind the loop only.
abbrev pub asked_at : Progress → List Wait → List Request
asked_at (over c) ws = (destroy_guard false ws c.live_tids).1
asked_at (returned f c) ws = (destroy_guard true ws c.live_tids).1
asked_at (blocked c) ws = []

-- What follows the launch.
unfoldable pub traced :
    Bytes
    → Option Bytes
    → Option ℤ
    → ℕ
    → List (Wait × Answers)
    → ℕ
    → List Wait
    → Begin × List Request
    → Result (Option Collection × List Request)
unfolding loop collection_of destroy_guard
traced cwd root_command channel_fd now ws end_ns later (refused r, asked) =
    ok (some no_collection, asked)
traced cwd root_command channel_fd now ws end_ns later (begun root, asked) =
    loop ws (started root cwd root_command channel_fd now) >>= λ p.
    collection_of channel_fd end_ns p >>= λ collection. ok (collection, asked_at p later)

-- `collect`: its result, and what it has asked of the kernel for threads that it leaves.
unfoldable pub collect_request :
    List Bytes
    → Launch
    → Bytes
    → Option Bytes
    → Option ℤ
    → ℕ
    → List (Wait × Answers)
    → ℕ
    → List Wait
    → Result (Option Collection × List Request)
unfolding launch traced
collect_request command a cwd root_command channel_fd now ws end_ns later =
    traced cwd root_command channel_fd now ws end_ns later (launch command a later)
