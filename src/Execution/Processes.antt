-- ===== src/Execution/Processes.antt =====
-- `on_process_exec`, `on_process_created`, `on_process_exit` and `forget_thread` of
-- src/execution_state.cpp.
use whyrun.Execution.Events.{plain_event, with_meta, with_command, has_bit_16}
use whyrun.Common.Int.{ℤ, pos}
use whyrun.Common.Map.{nat_key, assign, erase}
use whyrun.Common.Number.{to_string, int_to_string}
use whyrun.Common.{
  ℕ, ◌+◌, ◌&&◌, not, [], ◌++◌, Option, none, some, ◌==◌, if◌then◌else◌, Bytes, codes, is_empty,
  has_value,
}
use whyrun.Event.{Event, command_end, process_exec, process_fork, process_exit}
use whyrun.Execution.State.{
  ProcessState, new_process, ActiveCommand, State, process_for_thread, find_process, write_process,
  is_armed, is_started, emit,
}
use whyrun.Host.{Host}

-- `read_proc_link`
unfoldable pub read_proc_link : Host → ℕ → Bytes → Bytes
unfolding to_string
read_proc_link host pid name =
    elim (host.read_symlink (codes "/proc/" ++ to_string pid ++ codes "/" ++ name)) [
      | none ↦ []
      | some value ↦ value
    ]

unfoldable pub executable_of : Bytes → Bytes
executable_of link = if is_empty link then codes "<unknown>" else link

unfoldable pub exec_event : ProcessState → ℕ → Bytes → ℕ → Event
exec_event p tid executable ts =
    with_meta (codes "ppid") (to_string p.parent_pid)
      (plain_event ts p.pid tid process_exec executable (pos 0))

-- `on_process_exec` once the process is known.
unfoldable pub exec_process : Host → State → ℕ → ProcessState → ℕ → State
exec_process host st tid p ts =
    let executable = executable_of (read_proc_link host tid (codes "exe")) in
    emit (write_process st tid (record p { executable = executable }))
      (exec_event p tid executable ts)

unfoldable pub discovered : Host → State → ℕ → State
unfolding read_proc_link
discovered host st tid = record st {
  processes = assign tid (new_process tid (read_proc_link host tid (codes "cwd"))) st.processes;
  thread_to_process = assign tid tid st.thread_to_process;
}

unfoldable pub exec_of : Host → State → ℕ → Option ProcessState → ℕ → State
exec_of host st tid none ts =
    exec_process host (discovered host st tid) tid
      (new_process tid (read_proc_link host tid (codes "cwd"))) ts
exec_of host st tid (some p) ts = exec_process host st tid p ts

unfoldable pub on_process_exec : Host → State → ℕ → ℕ → State
on_process_exec host st tid ts = exec_of host st tid (find_process st tid) ts

abbrev pub event_fork : ℕ
event_fork = 1

abbrev pub event_vfork : ℕ
event_vfork = 2

abbrev pub event_clone : ℕ
event_clone = 3

unfoldable pub child_kind : ℕ → Bytes
child_kind e =
    if e == event_fork
    then codes "fork"
    else if e == event_vfork
    then codes "vfork"
    else if e == event_clone
    then codes "clone"
    else codes "unknown"

-- The time of the first process that the shell makes for an armed command.
unfoldable pub note_first_process : Option ActiveCommand → ℕ → Option ActiveCommand
note_first_process none ts = none
note_first_process (some a) ts =
    if not a.started && not (has_value a.first_process_ns)
    then some (record a { first_process_ns = some ts })
    else some a

-- A copy of the parent, its command and its descriptors included.
abbrev pub child_of : ProcessState → ℕ → ProcessState
child_of parent child_tid = record parent { pid = child_tid; parent_pid = parent.pid }

unfoldable pub child_added : State → ProcessState → ℕ → ℕ → State
child_added st parent child_tid ts = record st {
  processes = assign child_tid (child_of parent child_tid) st.processes;
  thread_to_process = assign child_tid child_tid st.thread_to_process;
  active_command =
      if parent.pid == st.root_pid
      then note_first_process st.active_command ts
      else st.active_command;
}

unfoldable pub fork_event : ProcessState → ℕ → ℕ → ℕ → ℕ → Event
fork_event parent parent_tid child_tid ptrace_event ts = with_command parent.command_id (
    with_meta (codes "executable") parent.executable (
      with_meta (codes "kind") (child_kind ptrace_event) (
        with_meta (codes "child_pid") (to_string child_tid) (
          plain_event ts parent.pid parent_tid process_fork (to_string child_tid)
            (pos child_tid)))))

unfoldable pub create_process : State → ℕ → ProcessState → ℕ → ℕ → ℕ → State
create_process st parent_tid parent child_tid ptrace_event ts =
    emit (child_added st parent child_tid ts)
      (fork_event parent parent_tid child_tid ptrace_event ts)

unfoldable pub created_by : State → ℕ → Option ProcessState → ℕ → ℕ → ℕ → ℕ → State
created_by st parent_tid none child_tid ptrace_event clone_flags ts = st
created_by st parent_tid (some parent) child_tid ptrace_event clone_flags ts =
    if ptrace_event == event_clone && has_bit_16 clone_flags
    then record st { thread_to_process = assign child_tid parent.pid st.thread_to_process }
    else create_process st parent_tid parent child_tid ptrace_event ts

unfoldable pub on_process_created : State → ℕ → ℕ → ℕ → ℕ → ℕ → State
on_process_created st parent_tid child_tid ptrace_event clone_flags ts =
    created_by st parent_tid (find_process st parent_tid) child_tid ptrace_event clone_flags ts

unfoldable pub forget_thread : State → ℕ → State
forget_thread st tid = record st { thread_to_process = erase tid st.thread_to_process }

unfoldable pub last_event : ProcessState → ℕ → ℤ → ℕ → Event
last_event p tid result ts =
    with_command p.command_id
      (with_meta (codes "cwd") p.cwd (plain_event ts p.pid tid command_end [] result))

-- The `command_end` of a command that is still open when the shell exits.
unfoldable pub close_command : State → ℕ → ProcessState → ℤ → ℕ → State
close_command st tid p result ts =
    if p.pid == st.root_pid && is_started st.active_command && has_value p.command_id
    then write_process (emit st (last_event p tid result ts)) tid (record p { command_id = none })
    else st

-- `process->command_id.reset()` for a root whose command has not started.
unfoldable pub unarmed : State → ProcessState → ProcessState
unarmed st p =
    if p.pid == st.root_pid && is_armed st.active_command then record p { command_id = none } else p

unfoldable pub exit_event : ProcessState → ℕ → ℤ → ℕ → ℤ → ℕ → Event
exit_event p tid exit_code term_signal result ts =
    with_meta (codes "term_signal") (to_string term_signal) (
      with_meta (codes "exit_code") (int_to_string exit_code)
        (plain_event ts p.pid tid process_exit p.executable result))

-- `128 + term_signal` for a process that a signal ended
abbrev pub result_of : ℤ → ℕ → ℤ
result_of exit_code term_signal = if term_signal == 0 then exit_code else pos (128 + term_signal)

-- The state when the event of the exit is out.
unfoldable pub exited : State → ℕ → ProcessState → ℤ → ℕ → ℕ → State
exited st tid p exit_code term_signal ts =
    emit (write_process st tid p)
      (exit_event p tid exit_code term_signal (result_of exit_code term_signal) ts)

-- With the shell, the active command is gone.
unfoldable pub retire : ProcessState → State → State
retire p st = record st {
  active_command = if p.pid == st.root_pid then none else st.active_command;
}

unfoldable pub exit_as : State → ℕ → ProcessState → ℤ → ℕ → ℕ → State
exit_as st tid p exit_code term_signal ts =
    forget_thread
      (retire p (
        close_command (exited st tid p exit_code term_signal ts) tid p
          (result_of exit_code term_signal) ts))
      tid

unfoldable pub exit_process : State → ℕ → ProcessState → ℤ → ℕ → ℕ → State
exit_process st tid found exit_code term_signal ts =
    exit_as st tid (unarmed st found) exit_code term_signal ts

unfoldable pub exit_of : State → ℕ → Option ProcessState → ℤ → ℕ → ℕ → State
exit_of st tid none exit_code term_signal ts = st
exit_of st tid (some p) exit_code term_signal ts = exit_process st tid p exit_code term_signal ts

unfoldable pub on_process_exit : State → ℕ → ℤ → ℕ → ℕ → State
on_process_exit st tid exit_code term_signal ts =
    if not (tid == process_for_thread st tid)
    then forget_thread st tid
    else exit_of st tid (find_process st tid) exit_code term_signal ts
