-- ===== src/Execution/Attribution/Processes.antt =====
-- The same of the process events, of the system calls and of `forget_thread`.
use whyrun.Execution.Attribution.{
  Keeps, emit_key, Keeps-refl, emit-Keeps, forget-Keeps, SameCommands-Keeps, write_root-Keeps,
  write-Keeps, exited-Keeps,
}
use whyrun.Execution.State.{
  is_started, ProcessState, State, find_process, process_for_thread, write_process, emit,
}
use whyrun.Execution.Processes.{
  last_event, result_of, exec_process, exec_of, discovered, on_process_exec, create_process,
  child_added, created_by, on_process_created, forget_thread, exit_process, exit_as, exit_of,
  on_process_exit, event_clone, close_command, unarmed, retire, exited,
}
use whyrun.Common.Int.{ℤ}
use whyrun.Common.Map.{nat_key}
use whyrun.Common.{
  ℕ, ◌≡◌, ◌≢◌, refl, sym, ◌∙◌, false, ◌&&◌, Option, none, some, ◌==◌, arith, has_value, inl, inr,
  Bool-cases,
}
use whyrun.Execution.Calls.{RawSyscall}
use whyrun.Execution.Events.{has_bit_16}
use whyrun.Execution.Invariant.{Inv, find_process-key}
use whyrun.Execution.Outcome.{on_syscall_exit-Outcome}
use whyrun.Execution.Syscalls.{on_syscall_exit}
use whyrun.Host.{Host}

module _ (k : ℕ) where
  -- A process that is found only later is not one that is known.
  unknown-ne-known :
      (st : State) (tid : ℕ)
      → Inv st
      → find_process st tid ≡ none
      → has_value (st.processes tid) ≡ false
  unfolding find_process process_for_thread
  unknown-ne-known st tid v missing =
      ground (arith, missing, v.mapped tid (process_for_thread st tid))

  discovered-Keeps :
      (host : Host) (st : State) (tid : ℕ)
      → Inv st
      → find_process st tid ≡ none
      → Keeps k st (discovered host st tid)
  unfolding discovered
  discovered-Keeps host st tid v missing = record {
    root = refl;
    who = λ ne known. ground (arith, unknown-ne-known st tid v missing);
  }

  discovered_key :
      (host : Host) (st : State) (tid : ℕ) → process_for_thread (discovered host st tid) tid ≡ tid
  unfolding discovered process_for_thread
  discovered_key host st tid = ground arith

  exec_of-Keeps :
      (host : Host) (st : State) (tid : ℕ) (o : Option ProcessState) (ts : ℕ)
      → Inv st
      → find_process st tid ≡ o
      → Keeps k st (exec_of host st tid o ts)
  unfolding exec_of exec_process
  exec_of-Keeps host st tid none ts v found = emit-Keeps k st _ _ (
      let d = discovered-Keeps host st tid v found in
      unfold write_process in
      record {
        root = d.root;
        who = λ ne known.
            ground
              (arith, d.who ne known, unknown-ne-known st tid v found, discovered_key host st tid);
      })
  exec_of-Keeps host st tid (some p) ts v found =
      emit-Keeps k st _ _ (write-Keeps k st tid p v found _ refl refl)

  pub on_process_exec-Keeps :
      (host : Host) (st : State) (tid ts : ℕ) → Inv st → Keeps k st (on_process_exec host st tid ts)
  unfolding on_process_exec
  on_process_exec-Keeps host st tid ts v = exec_of-Keeps host st tid (find_process st tid) ts v refl

  created_by-Keeps :
      (st : State) (parent_tid : ℕ) (o : Option ProcessState) (child_tid e flags ts : ℕ)
      → child_tid ≢ k
      → Keeps k st (created_by st parent_tid o child_tid e flags ts)
  unfolding created_by create_process
  created_by-Keeps st parent_tid none child_tid e flags ts spared = Keeps-refl k st
  created_by-Keeps st parent_tid (some parent) child_tid e flags ts spared =
      elim (Bool-cases (e == event_clone && has_bit_16 flags)) [
        | inl thread ↦ rw thread (record { root = refl; who = λ ne known. refl })
        | inr process ↦ rw process (
            emit-Keeps k st (child_added st parent child_tid ts) _
              (unfold child_added in record { root = refl; who = λ ne known. ground arith }))
      ]

  pub on_process_created-Keeps :
      (st : State) (parent_tid child_tid e flags ts : ℕ)
      → child_tid ≢ k
      → Keeps k st (on_process_created st parent_tid child_tid e flags ts)
  unfolding on_process_created
  on_process_created-Keeps st parent_tid child_tid e flags ts spared =
      created_by-Keeps st parent_tid (find_process st parent_tid) child_tid e flags ts spared

  pub on_syscall_exit-Keeps :
      (host : Host) (st : State) (sc : RawSyscall) → Keeps k st (on_syscall_exit host st sc)
  on_syscall_exit-Keeps host st sc = elim (on_syscall_exit-Outcome host st sc) [
    | inl (_, same) ↦ rw same (Keeps-refl k st)
    | inr (p, _, o, _) ↦ SameCommands-Keeps k st (on_syscall_exit host st sc) o.effect.same
  ]

  pub forget_thread-Keeps : (st : State) (tid : ℕ) → Keeps k st (forget_thread st tid)
  forget_thread-Keeps st tid = forget-Keeps k st st tid (Keeps-refl k st)

  retire-Keeps : (st st' : State) (q : ProcessState) → Keeps k st st' → Keeps k st (retire q st')
  unfolding retire
  retire-Keeps st st' q h = record { root = h.root; who = h.who }

  close-Keeps :
      (st st' : State) (tid : ℕ) (q : ProcessState) (result : ℤ) (ts : ℕ)
      → process_for_thread st' tid ≡ q.pid
      → Keeps k st st'
      → Keeps k st (close_command st' tid q result ts)
  unfolding close_command
  close-Keeps st st' tid q result ts at h =
      let e = last_event q tid result ts in
      elim (Bool-cases
        (q.pid == st'.root_pid && is_started st'.active_command && has_value q.command_id)) [
          | inl closing ↦ rw closing (
              write_root-Keeps k st (emit st' e) tid (record q { command_id = none })
                (emit_key st' e tid ∙ ground (arith, h.root)) (emit-Keeps k st st' e h))
          | inr rests ↦ rw rests h
        ]

  exited_key :
      (st : State) (tid : ℕ) (q : ProcessState) (code : ℤ) (sig ts : ℕ)
      → process_for_thread (exited st tid q code sig ts) tid ≡ process_for_thread st tid
  unfolding exited emit write_process process_for_thread
  exited_key st tid q code sig ts = refl

  unarmed-pid : (st : State) (p : ProcessState) → (unarmed st p).pid ≡ p.pid
  unfolding unarmed
  unarmed-pid st p = ground arith

  exit_of-Keeps :
      (st : State) (tid : ℕ) (o : Option ProcessState) (code : ℤ) (sig ts : ℕ)
      → Inv st
      → find_process st tid ≡ o
      → Keeps k st (exit_of st tid o code sig ts)
  unfolding exit_of exit_process exit_as
  exit_of-Keeps st tid none code sig ts v found = Keeps-refl k st
  exit_of-Keeps st tid (some p) code sig ts v found =
      let q = unarmed st p in
      let out = exited st tid q code sig ts in
      let result = result_of code sig in
      let closed = close_command out tid q result ts in
      forget-Keeps k st (retire q closed) tid (
        retire-Keeps st closed q (
          close-Keeps st out tid q result ts
            (exited_key st tid q code sig ts
              ∙ find_process-key st tid p v.keyed found
              ∙ sym (unarmed-pid st p))
            (exited-Keeps k st tid p v found code sig ts)))

  pub on_process_exit-Keeps :
      (st : State) (tid : ℕ) (code : ℤ) (sig ts : ℕ)
      → Inv st
      → Keeps k st (on_process_exit st tid code sig ts)
  unfolding on_process_exit
  on_process_exit-Keeps st tid code sig ts v =
      elim (Bool-cases (tid == process_for_thread st tid)) [
        | inl leader ↦ rw leader (exit_of-Keeps st tid (find_process st tid) code sig ts v refl)
        | inr thread ↦ rw thread (forget_thread-Keeps st tid)
      ]
