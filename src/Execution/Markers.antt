-- ===== src/Execution/Markers.antt =====
-- `add_initial_process` and `on_command_marker` of src/execution_state.cpp.
use whyrun.Execution.Events.{plain_event, with_meta, with_command}
use whyrun.Common.Int.{pos}
use whyrun.Common.Map.{nat_key, assign}
use whyrun.Common.Number.{to_string}
use whyrun.Common.{
  ℕ, ◌||◌, not, Bool, true, false, [], Option, none, some, ◌==◌, if◌then◌else◌, Bytes, codes,
  has_value, Result, ok, err, armed_before_end, start_mismatch, end_mismatch,
}
use whyrun.Event.{Event, command_start, command_end}
use whyrun.Execution.State.{
  ProcessState, new_process, ActiveCommand, State, find_process, write_process, emit,
}
use whyrun.Session.{MarkerType, arm, start, end, Marker}

abbrev pub start_event : ℕ → ℕ → ℕ → Bytes → Bytes → Bytes → ℕ → Event
start_event ts pid tid text cwd sequence id = with_command (some id) (
    with_meta (codes "sequence") sequence
      (with_meta (codes "cwd") cwd (plain_event ts pid tid command_start text (pos 0))))

-- The state with the process added, in front of the event.
unfoldable pub root_added : State → ℕ → Bytes → Option Bytes → ℕ → State
root_added st pid cwd root_command ts = record st {
  processes =
      assign pid
        (record (new_process pid cwd) {
          command_id = if has_value root_command then some 1 else none;
        })
        st.processes;
  thread_to_process = assign pid pid st.thread_to_process;
  root_pid = pid;
  active_command =
      if has_value root_command
      then some (record { id = 1; first_process_ns = some ts; started = true })
      else st.active_command;
}

unfoldable pub add_initial_process : State → ℕ → Bytes → Option Bytes → ℕ → State
unfolding root_added
add_initial_process st pid cwd none ts = root_added st pid cwd none ts
add_initial_process st pid cwd (some command) ts =
    emit (root_added st pid cwd (some command) ts)
      (start_event ts pid pid command cwd (codes "1") 1)

-- `command_id.has_value() && *command_id == id`
abbrev pub holds_id : Option ℕ → ℕ → Bool
holds_id none id = false
holds_id (some c) id = c == id

unfoldable pub arm_command : State → ℕ → ProcessState → Marker → Result State
unfolding write_process
arm_command st tid p marker =
    if has_value st.active_command || has_value p.command_id
    then err armed_before_end
    else ok (record (write_process st tid (record p { command_id = some marker.id })) {
      active_command = some (record { id = marker.id; first_process_ns = none; started = false });
    })

-- `value_or`
abbrev pub value_or : Option ℕ → ℕ → ℕ
value_or none d = d
value_or (some v) d = v

unfoldable pub start_command :
    State → ℕ → ProcessState → Marker → ℕ → Option ActiveCommand → Result State
unfolding emit
start_command st tid p marker ts none = err start_mismatch
start_command st tid p marker ts (some a) =
    if not (a.id == marker.id) || a.started || not (holds_id p.command_id marker.id)
    then err start_mismatch
    else ok (
        emit (record st { active_command = some (record a { started = true }) })
          (start_event (value_or a.first_process_ns ts) p.pid tid marker.text marker.cwd
            (to_string marker.id) marker.id))

unfoldable pub end_event : ProcessState → ℕ → Marker → ℕ → Event
end_event p tid marker ts =
    with_command (some marker.id) (
      with_meta (codes "cwd") marker.cwd (plain_event ts p.pid tid command_end [] marker.exit_code))

unfoldable pub end_command :
    State → ℕ → ProcessState → Marker → ℕ → Option ActiveCommand → Result State
unfolding emit write_process end_event
end_command st tid p marker ts none = err end_mismatch
end_command st tid p marker ts (some a) =
    if not (a.id == marker.id) || not a.started || not (holds_id p.command_id marker.id)
    then err end_mismatch
    else ok
        (record (write_process (emit st (end_event p tid marker ts)) tid
          (record p { command_id = none })) { active_command = none })

unfoldable pub root_marker : MarkerType → State → ℕ → ProcessState → Marker → ℕ → Result State
unfolding arm_command start_command end_command
root_marker arm st tid p marker ts = arm_command st tid p marker
root_marker start st tid p marker ts = start_command st tid p marker ts st.active_command
root_marker end st tid p marker ts = end_command st tid p marker ts st.active_command

unfoldable pub marker_of : State → ℕ → Option ProcessState → Marker → ℕ → Result State
unfolding root_marker
marker_of st tid none marker ts = ok st
marker_of st tid (some p) marker ts =
    if not (p.pid == st.root_pid) then ok st else root_marker marker.type st tid p marker ts

unfoldable pub on_command_marker : State → ℕ → Marker → ℕ → Result State
unfolding marker_of find_process
on_command_marker st tid marker ts = marker_of st tid (find_process st tid) marker ts
