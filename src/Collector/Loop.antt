-- ===== src/Collector/Loop.antt =====
-- The loop, over the answers of the kernel in the order in which they come, and what `collect`
-- returns.
use whyrun.Channel.{tracking}
use whyrun.Collector.Turn.{turn}
use whyrun.Collector.{Collector, Wait, Answers, Failure, Round, again, leave, fail}
use whyrun.Common.Int.{ℤ, negsuc}
use whyrun.Common.Map.{empty}
use whyrun.Common.{
  ℕ, Bool, true, false, List, [], ◌∷◌, Option, none, some, ◌==◌, if◌then◌else◌, Bytes, Result, ok,
  ◌>>=◌,
}
use whyrun.Execution.Markers.{add_initial_process}
use whyrun.Execution.State.{initial}
use whyrun.Session.{fresh, finish}

-- How far the loop has come: it is over, `collect` has returned, or `waitpid` blocks.
pub data Progress : Type 0 where
  over : Collector → Progress
  returned : Failure → Collector → Progress
  blocked : Collector → Progress

abbrev pub none_live : List ℕ → Bool
none_live [] = true
none_live (tid ∷ tids) = false

unfoldable pub proceed : Round → (Collector → Result Progress) → Result Progress
proceed (again c) rest = rest c
proceed (leave c) rest = ok (over c)
proceed (fail f c) rest = ok (returned f c)

unfoldable pub loop : List (Wait × Answers) → Collector → Result Progress
unfolding proceed
loop [] c = ok (if none_live c.live_tids then over c else blocked c)
loop (w ∷ ws) c =
    if none_live c.live_tids then ok (over c) else turn c w >>= λ round. proceed round (loop ws)

-- The variables in front of the loop, with the shell stopped at its first instruction.
abbrev pub started : ℕ → Bytes → Option Bytes → Option ℤ → ℕ → Collector
started root_pid cwd root_command channel_fd now = record {
  root_pid = root_pid;
  execution = add_initial_process initial root_pid cwd root_command now;
  command_protocol = fresh;
  command_channel = tracking channel_fd;
  live_tids = root_pid ∷ [];
  configured_tids = λ t. t == root_pid;
  threads = empty;
  exit_code = negsuc 0;
  term_signal = 0;
  root_status_seen = false;
}

-- `CollectionResult`, without the texts of the errors.
pub record Collection : Type 0 where
  pub collector_ok : Bool
  pub exit_code : ℤ
  pub term_signal : ℕ
  pub end_ns : ℕ

abbrev pub result_at : Collector → Bool → ℕ → Collection
result_at c collector_ok end_ns = record {
  collector_ok = collector_ok;
  exit_code = c.exit_code;
  term_signal = c.term_signal;
  end_ns = end_ns;
}

-- What follows the loop.
unfoldable pub conclude : Option ℤ → ℕ → Collector → Result Collection
conclude none now c = ok (result_at c c.root_status_seen now)
conclude (some fd) now c =
    finish c.command_protocol >>= λ _. ok (result_at c c.root_status_seen now)

unfoldable pub collection_of : Option ℤ → ℕ → Progress → Result (Option Collection)
unfolding conclude
collection_of channel_fd now (over c) =
    conclude channel_fd now c >>= λ collection. ok (some collection)
collection_of channel_fd now (returned f c) = ok (some (result_at c false 0))
collection_of channel_fd now (blocked c) = ok none

-- `collect`, from the fork of the shell on. It gives `none` while the kernel owes it an answer.
unfoldable pub collect :
    ℕ → Bytes → Option Bytes → Option ℤ → ℕ → List (Wait × Answers) → ℕ → Result (Option Collection)
unfolding loop collection_of
collect root_pid cwd root_command channel_fd now ws end_ns =
    loop ws (started root_pid cwd root_command channel_fd now) >>= collection_of channel_fd end_ns
