-- ===== src/Execution/State.antt =====
-- include/whyrun/execution_state.hpp: the state that `ExecutionState` keeps, its lookups, and
-- `emit`. The sink is the list of the events emitted so far.
use whyrun.Common.Int.{ℤ, pos, negsuc}
use whyrun.Common.Map.{nat_key, int_key, Map, empty, assign}
use whyrun.Common.{
  ℕ, ◌+◌, ◌&&◌, not, Bool, false, List, [], ◌∷◌, ◌++◌, Option, none, some, ◌==◌, if◌then◌else◌,
  Bytes, leb,
}
use whyrun.Event.{Event}

pub data ResourceType : Type 0 where
  file socket pipe unknown : ResourceType

pub record Resource : Type 0 where
  pub type : ResourceType
  pub name : Bytes
  pub is_directory : Bool

pub record ProcessState : Type 0 where
  pub pid : ℕ
  pub parent_pid : ℕ
  pub executable : Bytes
  pub cwd : Bytes
  pub command_id : Option ℕ
  pub fd_table : Map ℤ Resource

abbrev pub new_process : ℕ → Bytes → ProcessState
new_process pid cwd = record {
  pid = pid;
  parent_pid = 0;
  executable = [];
  cwd = cwd;
  command_id = none;
  fd_table = empty;
}

pub record ActiveCommand : Type 0 where
  pub id : ℕ
  pub first_process_ns : Option ℕ
  pub started : Bool

pub record State : Type 0 where
  pub processes : Map ℕ ProcessState
  pub thread_to_process : Map ℕ ℕ
  pub active_command : Option ActiveCommand
  pub root_pid : ℕ
  pub emitted : List Event

-- `ExecutionState(sink, memory)`
abbrev pub initial : State
initial = record {
  processes = empty;
  thread_to_process = empty;
  active_command = none;
  root_pid = 0;
  emitted = [];
}

unfoldable pub process_for_thread : State → ℕ → ℕ
process_for_thread st tid = elim (st.thread_to_process tid) [ none ↦ tid | some pid ↦ pid ]

unfoldable pub find_process : State → ℕ → Option ProcessState
unfolding process_for_thread
find_process st tid = st.processes (process_for_thread st tid)

-- A write through the pointer that `find_process_for_thread` returned for `tid`.
unfoldable pub write_process : State → ℕ → ProcessState → State
unfolding process_for_thread
write_process st tid p = record st { processes = assign (process_for_thread st tid) p st.processes }

-- A command is armed and not started.
abbrev pub is_armed : Option ActiveCommand → Bool
is_armed none = false
is_armed (some a) = not a.started

-- A command is started.
abbrev pub is_started : Option ActiveCommand → Bool
is_started none = false
is_started (some a) = a.started

-- The id that `emit` gives to an event that has none, for the process of its thread.
unfoldable pub attribution : State → Option ProcessState → Option ℕ
attribution st none = none
attribution st (some p) =
    if p.pid == st.root_pid && is_armed st.active_command then none else p.command_id

attributed : State → Event → Option ℕ → Option ℕ
unfolding attribution find_process
attributed st event (some id) = some id
attributed st event none = attribution st (find_process st event.tid)

unfoldable pub emit : State → Event → State
unfolding attributed
emit st event = record st {
  emitted = st.emitted ++ record event { command_id = attributed st event event.command_id } ∷ [];
}

-- `syscall_errno`: 0, or the error number that the kernel encoded in the result.
abbrev pub max_errno : ℕ
max_errno = 4095

unfoldable pub syscall_errno : ℤ → ℤ
syscall_errno (pos n) = pos 0
syscall_errno (negsuc n) = if leb (n + 1) max_errno then pos (n + 1) else pos 0
