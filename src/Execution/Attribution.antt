-- ===== src/Execution/Attribution.antt =====
-- What the handlers of src/execution_state.cpp leave alone: the pid of the root, and which command
-- a process other than the root belongs to.
pub mod Processes
use whyrun.Execution.State.{
  is_started, ActiveCommand, ProcessState, State, find_process, process_for_thread, write_process,
  emit,
}
use whyrun.Execution.Processes.{
  last_event, result_of, exec_process, exec_of, discovered, on_process_exec, create_process,
  child_added, created_by, on_process_created, forget_thread, exit_process, exit_as, exit_of,
  on_process_exit, event_clone, close_command, unarmed, retire, exited,
}
use whyrun.Execution.Markers.{
  end_event, arm_command, start_command, end_command, root_marker, marker_of, on_command_marker,
  holds_id,
}
use whyrun.Common.Int.{ℤ}
use whyrun.Common.Map.{nat_key}
use whyrun.Common.{
  ℕ, ◌≡◌, ◌≢◌, refl, sym, ◌∙◌, true, false, not, ◌&&◌, ◌||◌, Option, none, some, ◌==◌, arith,
  has_value, inl, inr, Bool-cases,
}
use whyrun.Event.{Event}
use whyrun.Execution.Calls.{RawSyscall}
use whyrun.Execution.Effect.{identity, SameCommands, same_commands, write-SameCommands}
use whyrun.Execution.Events.{has_bit_16}
use whyrun.Execution.Invariant.{Inv, find_process-key}
use whyrun.Execution.Invariant.Markers.{Ensures}
use whyrun.Execution.Outcome.{on_syscall_exit-Outcome}
use whyrun.Execution.Syscalls.{on_syscall_exit}
use whyrun.Host.{Host}
use whyrun.Session.{Marker, MarkerType, arm, start, end}

-- The root's pid stays, and a process `k` that is known and not the root keeps its command.
pub record Keeps (k : ℕ) (st st' : State) : Type 0 where
  pub root : st'.root_pid ≡ st.root_pid
  pub who :
      k ≢ st.root_pid
      → has_value (st.processes k) ≡ true
      → identity (st'.processes k) ≡ identity (st.processes k)

pub emit_key :
    (st : State) (e : Event) (tid : ℕ)
    → process_for_thread (emit st e) tid ≡ process_for_thread st tid
unfolding emit process_for_thread
emit_key st e tid = refl

module _ (k : ℕ) where
  pub Keeps-refl : (st : State) → Keeps k st st
  Keeps-refl st = record { root = refl; who = λ ne known. refl }

  pub emit-Keeps : (st st' : State) (e : Event) → Keeps k st st' → Keeps k st (emit st' e)
  unfolding emit
  emit-Keeps st st' e h = record { root = h.root; who = h.who }

  pub forget-Keeps :
      (st st' : State) (tid : ℕ) → Keeps k st st' → Keeps k st (forget_thread st' tid)
  unfolding forget_thread
  forget-Keeps st st' tid h = record { root = h.root; who = h.who }

  pub SameCommands-Keeps : (st st' : State) → SameCommands st st' → Keeps k st st'
  SameCommands-Keeps st st' h = record { root = h.root; who = λ ne known. h.identities k }

  -- A write to the root.
  pub write_root-Keeps :
      (st st' : State) (tid : ℕ) (q : ProcessState)
      → process_for_thread st' tid ≡ st.root_pid
      → Keeps k st st'
      → Keeps k st (write_process st' tid q)
  unfolding write_process
  write_root-Keeps st st' tid q key h = record {
    root = h.root;
    who = λ ne known. ground (arith, h.who ne known);
  }

  module _ (st : State) (tid : ℕ) (p : ProcessState) (v : Inv st)
      (found : find_process st tid ≡ some p) where
    key : process_for_thread st tid ≡ p.pid
    key = find_process-key st tid p v.keyed found

    module _ (marker : Marker) (ts : ℕ) (is_root : p.pid ≡ st.root_pid) where
      arm-Keeps : Ensures (Keeps k st) (arm_command st tid p marker)
      unfolding arm_command
      arm-Keeps = elim (Bool-cases (has_value st.active_command || has_value p.command_id)) [
        | inl busy ↦ rw busy tt
        | inr idle ↦ rw idle (
            let w =
              write_root-Keeps st st tid (record p { command_id = some marker.id }) (key ∙ is_root)
                (Keeps-refl st) in
            record { root = w.root; who = w.who })
      ]

      start-Keeps :
          (a : Option ActiveCommand) → Ensures (Keeps k st) (start_command st tid p marker ts a)
      unfolding start_command
      start-Keeps none = tt
      start-Keeps (some a) =
          elim (Bool-cases
            (not (a.id == marker.id) || a.started || not (holds_id p.command_id marker.id))) [
              | inl refused ↦ rw refused tt
              | inr fits ↦ rw fits (unfold emit in record { root = refl; who = λ ne known. refl })
            ]

      end-Keeps :
          (a : Option ActiveCommand) → Ensures (Keeps k st) (end_command st tid p marker ts a)
      unfolding end_command
      end-Keeps none = tt
      end-Keeps (some a) =
          elim (Bool-cases
            (not (a.id == marker.id) || not a.started || not (holds_id p.command_id marker.id))) [
              | inl refused ↦ rw refused tt
              | inr fits ↦ rw fits (
                  let e = end_event p tid marker ts in
                  let w =
                    write_root-Keeps st (emit st e) tid (record p { command_id = none })
                      (emit_key st e tid ∙ key ∙ is_root) (emit-Keeps st st e (Keeps-refl st)) in
                  record { root = w.root; who = w.who })
            ]

      root_marker-Keeps :
          (type : MarkerType) → Ensures (Keeps k st) (root_marker type st tid p marker ts)
      unfolding root_marker
      root_marker-Keeps arm = arm-Keeps
      root_marker-Keeps start = start-Keeps st.active_command
      root_marker-Keeps end = end-Keeps st.active_command

    pub write-Keeps :
        (q : ProcessState)
        → q.pid ≡ p.pid
        → q.command_id ≡ p.command_id
        → Keeps k st (write_process st tid q)
    write-Keeps q pid command =
        SameCommands-Keeps st (write_process st tid q)
          (write-SameCommands st st tid p q found pid command (same_commands st))

    pub exited-Keeps :
        (code : ℤ) (sig ts : ℕ) → Keeps k st (exited st tid (unarmed st p) code sig ts)
    unfolding exited
    exited-Keeps code sig ts =
        emit-Keeps st (write_process st tid (unarmed st p)) _
          (elim (Bool-cases (p.pid == st.root_pid)) [
            | inl is_root ↦
                write_root-Keeps st st tid (unarmed st p) (key ∙ ground arith) (Keeps-refl st)
            | inr other ↦
                write-Keeps (unarmed st p) (unfold unarmed in rw other refl)
                  (unfold unarmed in rw other refl)
          ])

  marker_of-Keeps :
      (st : State) (tid : ℕ) (o : Option ProcessState) (marker : Marker) (ts : ℕ)
      → Inv st
      → find_process st tid ≡ o
      → Ensures (Keeps k st) (marker_of st tid o marker ts)
  unfolding marker_of
  marker_of-Keeps st tid none marker ts v found = Keeps-refl st
  marker_of-Keeps st tid (some p) marker ts v found = elim (Bool-cases (p.pid == st.root_pid)) [
    | inl is_root ↦
        rw is_root (root_marker-Keeps st tid p v found marker ts (ground arith) marker.type)
    | inr other ↦ rw other (Keeps-refl st)
  ]

  pub on_command_marker-Keeps :
      (st : State) (tid : ℕ) (marker : Marker) (ts : ℕ)
      → Inv st
      → Ensures (Keeps k st) (on_command_marker st tid marker ts)
  unfolding on_command_marker
  on_command_marker-Keeps st tid marker ts v =
      marker_of-Keeps st tid (find_process st tid) marker ts v refl
