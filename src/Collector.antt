-- ===== src/Collector.antt =====
-- The wait loop of `PtraceCollector::collect` in src/ptrace_collector.cpp.
pub mod Syscall
pub mod Turn
pub mod Loop
pub mod Calls
pub mod Frame
pub mod Recording
pub mod Pairing
pub mod Ending
pub mod Guard
pub mod Launch
use whyrun.Channel.{Aliases}
use whyrun.Common.Int.{ℤ}
use whyrun.Common.Map.{Map}
use whyrun.Common.{ℕ, ◌||◌, Bool, true, false, List, [], ◌∷◌, Option, ◌==◌, if◌then◌else◌}
use whyrun.Execution.State.{State}
use whyrun.Host.{Host}
use whyrun.Session.{Protocol}

-- `ThreadState`
pub record Thread : Type 0 where
  pub in_syscall : Bool
  pub syscall_number : ℕ
  pub args : List ℕ

abbrev pub new_thread : Thread
new_thread = record { in_syscall = false; syscall_number = 0; args = 0 ∷ 0 ∷ 0 ∷ 0 ∷ 0 ∷ 0 ∷ [] }

-- The variables of `collect` that the loop changes.
pub record Collector : Type 0 where
  pub root_pid : ℕ
  pub execution : State
  pub command_protocol : Protocol
  pub command_channel : Aliases
  pub live_tids : List ℕ
  pub configured_tids : ℕ → Bool
  pub threads : Map ℕ Thread
  pub exit_code : ℤ
  pub term_signal : ℕ
  pub root_status_seen : Bool

-- What `waitpid` returns, and the status taken apart.
pub data Wait : Type 0 where
  -- -1 with EINTR, with ECHILD, or with another error
  interrupted no_children wait_failed : Wait
  exited : ℕ → ℕ → Wait
  signaled : ℕ → ℕ → Wait
  -- the thread, the signal, and the ptrace event
  stopped : ℕ → ℕ → ℕ → Wait
  continued : ℕ → Wait

-- `user_regs_struct`, as far as it is used: `orig_rax`, the six arguments, and `rax`.
pub record Registers : Type 0 where
  pub orig_rax : ℕ
  pub args : List ℕ
  pub rax : ℤ

-- What PTRACE_GETREGS gives: the registers, ESRCH, or another error.
pub data RegistersAnswer : Type 0 where
  registers : Registers → RegistersAnswer
  no_such_process refused : RegistersAnswer

-- What the kernel answers in one round of the loop.
pub record Answers : Type 0 where
  pub host : Host
  pub now_ns : ℕ
  pub options_set : Bool
  pub registers : RegistersAnswer
  pub event_message : Option ℕ
  pub resumed : Bool

-- The errors with which `collect` returns.
pub data Failure : Type 0 where
  waitpid_failed : Failure
  set_options_failed registers_failed event_message_failed resume_failed : ℕ → Failure

-- How a round ends: the next one follows, the loop is left by `break`, or `collect` returns.
pub data Round : Type 0 where
  again : Collector → Round
  leave : Collector → Round
  fail : Failure → Collector → Round

-- The loop's variables at the end of a round.
abbrev pub at_end : Round → Collector
at_end (again c) = c
at_end (leave c) = c
at_end (fail f c) = c

-- `std::unordered_set<pid_t>`
abbrev pub contains : ℕ → List ℕ → Bool
contains tid [] = false
contains tid (t ∷ ts) = t == tid || contains tid ts

abbrev pub insert_tid : ℕ → List ℕ → List ℕ
insert_tid tid ts = if contains tid ts then ts else tid ∷ ts

abbrev pub erase_tid : ℕ → List ℕ → List ℕ
erase_tid tid [] = []
erase_tid tid (t ∷ ts) = if t == tid then erase_tid tid ts else t ∷ erase_tid tid ts
