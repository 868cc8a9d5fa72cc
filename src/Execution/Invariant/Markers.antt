-- ===== src/Execution/Invariant/Markers.antt =====
-- The command markers keep the invariant.
use whyrun.Execution.Markers.{
  start_event, end_event, value_or, arm_command, start_command, end_command, root_marker, marker_of,
  on_command_marker, holds_id,
}
use whyrun.Common.Map.{nat_key, assign}
use whyrun.Common.Number.{to_string}
use whyrun.Common.{
  ℕ, ◌≡◌, refl, ap, ◌∙◌, true, false, not, ◌||◌, Option, none, some, ◌==◌, arith, has_value, inl,
  inr, Bool-cases, Result, ok, err,
}
use whyrun.Execution.Invariant.{
  Inv, id_of, find_process-key, assign-IsKeyed, assign-IsMapped, assign-HasRoot_self,
}
use whyrun.Execution.Log.{IsBracketed, start-open_after, end-open_after}
use whyrun.Execution.State.{
  ProcessState, ActiveCommand, State, find_process, process_for_thread, write_process, emit,
}
use whyrun.Session.{Marker, MarkerType, arm, start, end}

-- `P` holds of the state that a call returns, if it returns.
abbrev pub Ensures : (State → Type 0) → Result State → Type 0
Ensures P (ok st) = P st
Ensures P (err e) = Unit

module _ (st : State) (tid : ℕ) (p : ProcessState) (marker : Marker) (v : Inv st)
    (found : find_process st tid ≡ some p) (is_root : p.pid ≡ st.root_pid) where
  root_key : process_for_thread st tid ≡ st.root_pid
  root_key = find_process-key st tid p v.keyed found ∙ is_root

  -- A write to the root that keeps its pid, with the new active command.
  write-Inv :
      (st' : State) (q : ProcessState)
      → q.pid ≡ p.pid
      → st'.processes ≡ assign st.root_pid q st.processes
      → st'.thread_to_process ≡ st.thread_to_process
      → st'.root_pid ≡ st.root_pid
      → q.command_id ≡ id_of st'.active_command
      → IsBracketed st'
      → Inv st'
  write-Inv st' q pid processes threads root command b = record {
    keyed = rw processes (assign-IsKeyed st.processes st.root_pid q v.keyed (pid ∙ is_root));
    mapped =
        rw (processes, threads)
          (assign-IsMapped st.processes st.root_pid q st.thread_to_process v.mapped);
    rooted =
        rw (processes, root)
          (assign-HasRoot_self st.processes st.root_pid q st'.active_command command);
    bracketed = b;
  }

  arm-Inv : Ensures Inv (arm_command st tid p marker)
  unfolding arm_command write_process
  arm-Inv = elim (Bool-cases (has_value st.active_command || has_value p.command_id)) [
    | inl busy ↦ rw busy tt
    | inr idle ↦ rw idle (
        write-Inv _ (record p { command_id = some marker.id }) refl
          (ap (λ k. assign k (record p { command_id = some marker.id }) st.processes) root_key) refl
          refl refl (ground arith))
  ]

  started-Inv :
      (ts : ℕ) (a : ActiveCommand)
      → st.active_command ≡ some a
      → not (a.id == marker.id) || a.started || not (holds_id p.command_id marker.id) ≡ false
      → Inv (
          emit
            (record st { active_command = some (record a { started = true }) })
            (start_event
              (value_or a.first_process_ns ts)
              p.pid
              tid
              marker.text
              marker.cwd
              (to_string marker.id)
              marker.id))
  unfolding emit
  started-Inv ts a e fits = record {
    keyed = v.keyed;
    mapped = v.mapped;
    rooted = record {
      process = v.rooted.process;
      known = v.rooted.known;
      agrees = v.rooted.agrees ∙ rw e;
    };
    bracketed =
        start-open_after st.emitted
          (start_event (value_or a.first_process_ns ts) p.pid tid marker.text marker.cwd
            (to_string marker.id) marker.id)
          marker.id (ground arith) refl refl
        ∙ ground arith;
  }

  start-Inv :
      (ts : ℕ) (a : Option ActiveCommand)
      → st.active_command ≡ a
      → Ensures Inv (start_command st tid p marker ts a)
  unfolding start_command
  start-Inv ts none e = tt
  start-Inv ts (some a) e =
      elim (Bool-cases
        (not (a.id == marker.id) || a.started || not (holds_id p.command_id marker.id))) [
          | inl refused ↦ rw refused tt
          | inr fits ↦ rw fits (started-Inv ts a e fits)
        ]

  ended-Inv :
      (ts : ℕ) (a : ActiveCommand)
      → st.active_command ≡ some a
      → not (a.id == marker.id) || not a.started || not (holds_id p.command_id marker.id) ≡ false
      → Inv
          (record (write_process
            (emit st (end_event p tid marker ts))
            tid
            (record p { command_id = none })) { active_command = none })
  unfolding emit write_process process_for_thread end_event
  ended-Inv ts a e fits =
      write-Inv
        (record (write_process (emit st (end_event p tid marker ts)) tid
          (record p { command_id = none })) { active_command = none })
        (record p { command_id = none }) refl
        (ap (λ k. assign k (record p { command_id = none }) st.processes) root_key) refl refl refl
        (end-open_after st.emitted (end_event p tid marker ts) marker.id (ground arith) refl refl)

  end-Inv :
      (ts : ℕ) (a : Option ActiveCommand)
      → st.active_command ≡ a
      → Ensures Inv (end_command st tid p marker ts a)
  unfolding end_command
  end-Inv ts none e = tt
  end-Inv ts (some a) e =
      elim (Bool-cases
        (not (a.id == marker.id) || not a.started || not (holds_id p.command_id marker.id))) [
          | inl refused ↦ rw refused tt
          | inr fits ↦ rw fits (ended-Inv ts a e fits)
        ]

  root_marker-Inv : (type : MarkerType) (ts : ℕ) → Ensures Inv (root_marker type st tid p marker ts)
  unfolding root_marker
  root_marker-Inv arm ts = arm-Inv
  root_marker-Inv start ts = start-Inv ts st.active_command refl
  root_marker-Inv end ts = end-Inv ts st.active_command refl

marker_of-Inv :
    (st : State) (tid : ℕ) (o : Option ProcessState) (marker : Marker) (ts : ℕ)
    → Inv st
    → find_process st tid ≡ o
    → Ensures Inv (marker_of st tid o marker ts)
unfolding marker_of
marker_of-Inv st tid none marker ts v found = v
marker_of-Inv st tid (some p) marker ts v found = elim (Bool-cases (p.pid == st.root_pid)) [
  | inl is_root ↦ rw is_root (root_marker-Inv st tid p marker v found (ground arith) marker.type ts)
  | inr other ↦ rw other v
]

pub on_command_marker-Inv :
    (st : State) (tid : ℕ) (marker : Marker) (ts : ℕ)
    → Inv st
    → Ensures Inv (on_command_marker st tid marker ts)
unfolding on_command_marker
on_command_marker-Inv st tid marker ts v =
    marker_of-Inv st tid (find_process st tid) marker ts v refl
