-- ===== src/Execution/Invariant/Processes.antt =====
-- The process events keep the invariant.
use whyrun.Execution.Effect.{same_commands, write-SameCommands}
use whyrun.Execution.Invariant.{
  emit-Inv, Inv, id_of, find_process-key, assign-IsKeyed, assign-IsMapped, assign-HasRoot,
  thread-IsMapped, erase-IsMapped, SameCommands-Inv,
}
use whyrun.Execution.Events.{has_bit_16}
use whyrun.Execution.Processes.{
  exec_event, executable_of, child_added, child_of, fork_event, event_clone, exec_process, exec_of,
  discovered, on_process_exec, create_process, created_by, on_process_created, forget_thread,
  note_first_process, read_proc_link,
}
use whyrun.Common.Map.{nat_key, assign}
use whyrun.Common.{
  ℕ, ◌≡◌, ◌≢◌, refl, true, ◌&&◌, Option, none, some, ◌==◌, arith, has_value, inl, inr, Bool-cases,
  codes,
}
use whyrun.Execution.Log.{open_id_of}
use whyrun.Execution.State.{
  ProcessState, new_process, ActiveCommand, State, find_process, process_for_thread, write_process,
}
use whyrun.Host.{Host}

exec_process-Inv :
    (host : Host) (st : State) (tid : ℕ) (p : ProcessState) (ts : ℕ)
    → Inv st
    → find_process st tid ≡ some p
    → Inv (exec_process host st tid p ts)
unfolding exec_process
exec_process-Inv host st tid p ts v found =
    let executable = executable_of (read_proc_link host tid (codes "exe")) in
    let q : ProcessState = record p { executable = executable } in
    emit-Inv (write_process st tid q) (exec_event p tid executable ts) (unfold exec_event in refl) (
      SameCommands-Inv st (write_process st tid q)
        (write-SameCommands st st tid p q found refl refl (same_commands st))
        (unfold write_process in v.bracketed) v)

known_pid :
    (st : State) (tid : ℕ) (p : ProcessState)
    → Inv st
    → find_process st tid ≡ some p
    → has_value (st.processes p.pid) ≡ true
unfolding find_process
known_pid st tid p v found = ground (arith, find_process-key st tid p v.keyed found)

unknown-ne-root : (st : State) (tid : ℕ) → Inv st → find_process st tid ≡ none → tid ≢ st.root_pid
unfolding find_process process_for_thread
unknown-ne-root st tid v missing e =
    ground (arith, v.rooted.known, v.mapped tid (process_for_thread st tid))

discovered-Inv :
    (host : Host) (st : State) (tid : ℕ)
    → Inv st
    → find_process st tid ≡ none
    → Inv (discovered host st tid)
unfolding discovered
discovered-Inv host st tid v missing =
    let q = new_process tid (read_proc_link host tid (codes "cwd")) in
    record {
      keyed = assign-IsKeyed st.processes tid q v.keyed refl;
      mapped =
          thread-IsMapped st.thread_to_process (assign tid q st.processes) tid tid (ground arith)
            (assign-IsMapped st.processes tid q st.thread_to_process v.mapped);
      rooted =
          assign-HasRoot st.processes tid q st.root_pid st.active_command
            (unknown-ne-root st tid v missing) v.rooted;
      bracketed = v.bracketed;
    }

exec_of-Inv :
    (host : Host) (st : State) (tid : ℕ) (o : Option ProcessState) (ts : ℕ)
    → Inv st
    → find_process st tid ≡ o
    → Inv (exec_of host st tid o ts)
unfolding exec_of
exec_of-Inv host st tid none ts v found =
    exec_process-Inv host (discovered host st tid) tid
      (new_process tid (read_proc_link host tid (codes "cwd"))) ts
      (discovered-Inv host st tid v found)
      (unfold discovered find_process process_for_thread in ground arith)
exec_of-Inv host st tid (some p) ts v found = exec_process-Inv host st tid p ts v found

pub on_process_exec-Inv :
    (host : Host) (st : State) (tid ts : ℕ) → Inv st → Inv (on_process_exec host st tid ts)
unfolding on_process_exec
on_process_exec-Inv host st tid ts v = exec_of-Inv host st tid (find_process st tid) ts v refl

note_first_process-ids :
    (a : Option ActiveCommand) (ts : ℕ)
    → (id_of (note_first_process a ts) ≡ id_of a)
      × (open_id_of (note_first_process a ts) ≡ open_id_of a)
unfolding note_first_process
note_first_process-ids none ts = (refl, refl)
note_first_process-ids (some a) ts = (ground arith, ground arith)

child_added-Inv :
    (st : State) (parent : ProcessState) (child_tid ts : ℕ)
    → child_tid ≢ st.root_pid
    → Inv st
    → Inv (child_added st parent child_tid ts)
unfolding child_added
child_added-Inv st parent child_tid ts fresh v =
    let q = child_of parent child_tid in
    let ids = note_first_process-ids st.active_command ts in
    let r = assign-HasRoot st.processes child_tid q st.root_pid st.active_command fresh v.rooted in
    record {
      keyed = assign-IsKeyed st.processes child_tid q v.keyed refl;
      mapped =
          thread-IsMapped st.thread_to_process (assign child_tid q st.processes) child_tid child_tid
            (ground arith) (assign-IsMapped st.processes child_tid q st.thread_to_process v.mapped);
      rooted = record {
        process = r.process;
        known = r.known;
        agrees = ground (arith, r.agrees, ids);
      };
      bracketed = ground (arith, v.bracketed, ids);
    }

create_process-Inv :
    (st : State) (parent_tid : ℕ) (parent : ProcessState) (child_tid e ts : ℕ)
    → child_tid ≢ st.root_pid
    → Inv st
    → Inv (create_process st parent_tid parent child_tid e ts)
unfolding create_process
create_process-Inv st parent_tid parent child_tid e ts fresh v =
    emit-Inv (child_added st parent child_tid ts) (fork_event parent parent_tid child_tid e ts)
      (unfold fork_event in refl) (child_added-Inv st parent child_tid ts fresh v)

new_thread-Inv :
    (st : State) (parent_tid : ℕ) (parent : ProcessState) (child_tid : ℕ)
    → Inv st
    → find_process st parent_tid ≡ some parent
    → Inv (record st { thread_to_process = assign child_tid parent.pid st.thread_to_process })
new_thread-Inv st parent_tid parent child_tid v found = record {
  keyed = v.keyed;
  mapped =
      thread-IsMapped st.thread_to_process st.processes child_tid parent.pid
        (known_pid st parent_tid parent v found) v.mapped;
  rooted = v.rooted;
  bracketed = v.bracketed;
}

created_by-Inv :
    (st : State) (parent_tid : ℕ) (o : Option ProcessState) (child_tid e flags ts : ℕ)
    → child_tid ≢ st.root_pid
    → Inv st
    → find_process st parent_tid ≡ o
    → Inv (created_by st parent_tid o child_tid e flags ts)
unfolding created_by
created_by-Inv st parent_tid none child_tid e flags ts fresh v found = v
created_by-Inv st parent_tid (some parent) child_tid e flags ts fresh v found =
    elim (Bool-cases (e == event_clone && has_bit_16 flags)) [
      | inl thread ↦ rw thread (new_thread-Inv st parent_tid parent child_tid v found)
      | inr process ↦ rw process (create_process-Inv st parent_tid parent child_tid e ts fresh v)
    ]

pub on_process_created-Inv :
    (st : State) (parent_tid child_tid e flags ts : ℕ)
    → child_tid ≢ st.root_pid
    → Inv st
    → Inv (on_process_created st parent_tid child_tid e flags ts)
unfolding on_process_created
on_process_created-Inv st parent_tid child_tid e flags ts fresh v =
    created_by-Inv st parent_tid (find_process st parent_tid) child_tid e flags ts fresh v refl

pub forget_thread-Inv : (st : State) (tid : ℕ) → Inv st → Inv (forget_thread st tid)
unfolding forget_thread
forget_thread-Inv st tid v = record {
  keyed = v.keyed;
  mapped = erase-IsMapped st.thread_to_process st.processes tid v.mapped;
  rooted = v.rooted;
  bracketed = v.bracketed;
}
