-- ===== src/Execution/Invariant/Exit.antt =====
-- The end of a process or thread keeps the invariant.
use whyrun.Event.{Event}
use whyrun.Execution.Processes.{
  exited, retire, exit_as, result_of, forget_thread, exit_process, exit_of, on_process_exit,
  exit_event, close_command, unarmed, last_event,
}
use whyrun.Execution.Effect.{same_commands, write-SameCommands}
use whyrun.Common.Int.{ℤ}
use whyrun.Common.Map.{nat_key}
use whyrun.Common.{
  ℕ, ◌≡◌, refl, sym, ap, ◌∙◌, Bool, true, false, ◌&&◌, Option, none, some, ◌==◌, if◌then◌else◌,
  arith, has_value, inl, inr, Bool-cases,
}
use whyrun.Execution.Invariant.{
  Inv, id_of, find_process-key, SameCommands-Inv, emit-Inv, ended-Inv, IsSound, write-IsSound,
  emit-IsSound, emit-open_after, emit_end-open_after,
}
use whyrun.Execution.Invariant.Processes.{forget_thread-Inv}
use whyrun.Execution.Log.{open_after, open_id_of}
use whyrun.Execution.State.{
  ProcessState, ActiveCommand, State, find_process, process_for_thread, write_process, emit,
  is_started, is_armed,
}

module _ (st : State) (p : ProcessState) (other : (p.pid == st.root_pid) ≡ false) where
  unarmed-other : unarmed st p ≡ p
  unfolding unarmed
  unarmed-other = rw other

  close_command-other : (tid : ℕ) (result : ℤ) (ts : ℕ) → close_command st tid p result ts ≡ st
  unfolding close_command
  close_command-other tid result ts = rw other

  retire-other : retire p st ≡ st
  unfolding retire
  retire-other = rw other

module _ (st : State) (p : ProcessState) (is_root : (p.pid == st.root_pid) ≡ true) where
  retire-root : retire p st ≡ record st { active_command = none }
  unfolding retire
  retire-root = rw is_root

module _ (st : State) (tid : ℕ) (p : ProcessState) (v : Inv st)
    (found : find_process st tid ≡ some p) (code : ℤ) (sig ts : ℕ) where
  key : process_for_thread st tid ≡ p.pid
  key = find_process-key st tid p v.keyed found

  sound : IsSound st
  sound = record { keyed = v.keyed; mapped = v.mapped }

  exited-root : (q : ProcessState) → (exited st tid q code sig ts).root_pid ≡ st.root_pid
  unfolding exited emit write_process
  exited-root q = refl

  -- A process other than the shell's.
  other-eq :
      (p.pid == st.root_pid) ≡ false
      → exit_process st tid p code sig ts ≡ forget_thread (exited st tid p code sig ts) tid
  unfolding exit_process exit_as
  other-eq other =
      let far : (p.pid == (exited st tid p code sig ts).root_pid) ≡ false =
        rw (exited-root p) other in
      rw (
        unarmed-other st p other,
        close_command-other (exited st tid p code sig ts) p far tid (result_of code sig) ts,
        retire-other (exited st tid p code sig ts) p far,
      )

  other-Inv : (p.pid == st.root_pid) ≡ false → Inv (exit_process st tid p code sig ts)
  other-Inv other =
      let written =
        SameCommands-Inv st (write_process st tid p)
          (write-SameCommands st st tid p p found refl refl (same_commands st))
          (unfold write_process in v.bracketed) v in
      rw (other-eq other) (
        forget_thread-Inv (exited st tid p code sig ts) tid (
          unfold exited in emit-Inv (write_process st tid p) _ (unfold exit_event in refl) written))

  root_agrees : (p.pid == st.root_pid) ≡ true → p.command_id ≡ id_of st.active_command
  unfolding find_process
  root_agrees is_root = ground (arith, key, v.rooted.known, v.rooted.agrees)

  exited-IsSound : (q : ProcessState) → q.pid ≡ p.pid → IsSound (exited st tid q code sig ts)
  unfolding exited
  exited-IsSound q same =
      emit-IsSound (write_process st tid q) _ (write-IsSound st tid q (key ∙ sym same) sound)

  exited-open_after :
      (q : ProcessState)
      → open_after none (exited st tid q code sig ts).emitted ≡ some (open_id_of st.active_command)
  unfolding exited
  exited-open_after q =
      emit-open_after (write_process st tid q) _ (open_id_of st.active_command)
        (unfold exit_event in refl) (unfold write_process in v.bracketed)

  -- What the shell's process is when its event goes out.
  module _ (is_root : (p.pid == st.root_pid) ≡ true) where
    unarmed_facts :
        ((unarmed st p).pid ≡ p.pid)
        × ((unarmed st p).command_id
            ≡ (if is_armed st.active_command then none else id_of st.active_command))
    unfolding unarmed
    unarmed_facts = (ground arith, ground (arith, root_agrees is_root))

started_id :
    (a : Option ActiveCommand)
    → is_started a ≡ true
    → (id : ℕ) × ((if is_armed a then none else id_of a) ≡ some id) × (open_id_of a ≡ some id)
started_id none h = cc
started_id (some a) h = (a.id, ground arith, ground arith)

unstarted_id :
    (a : Option ActiveCommand)
    → is_started a ≡ false
    → ((if is_armed a then none else id_of a) ≡ none) × (open_id_of a ≡ none)
unstarted_id none h = (refl, refl)
unstarted_id (some a) h = (ground arith, ground arith)

close_command-root :
    (st : State) (tid : ℕ) (p : ProcessState) (result : ℤ) (ts : ℕ)
    → (close_command st tid p result ts).root_pid ≡ st.root_pid
unfolding close_command emit write_process
close_command-root st tid p result ts = ground arith

emit_key :
    (st : State) (e : Event) (tid : ℕ)
    → (process_for_thread (emit st e) tid ≡ process_for_thread st tid)
      × ((emit st e).root_pid ≡ st.root_pid)
unfolding emit process_for_thread
emit_key st e tid = (refl, refl)

written_root :
    (st : State) (tid : ℕ) (q : ProcessState)
    → process_for_thread st tid ≡ st.root_pid
    → (write_process st tid q).processes (write_process st tid q).root_pid ≡ some q
unfolding write_process
written_root st tid q e = ground arith

known_self :
    (st : State) (tid : ℕ) (q : ProcessState)
    → process_for_thread st tid ≡ st.root_pid
    → (write_process st tid q).processes st.root_pid ≡ some q
unfolding write_process
known_self st tid q e = ground arith

module _ (st : State) (tid : ℕ) (p : ProcessState) (v : Inv st)
    (found : find_process st tid ≡ some p) (code : ℤ) (sig ts : ℕ)
    (is_root : (p.pid == st.root_pid) ≡ true) where
  abbrev shell : ProcessState
  shell = unarmed st p

  abbrev out : State
  out = exited st tid shell code sig ts

  abbrev closing : Bool
  closing = shell.pid == out.root_pid && is_started out.active_command && has_value shell.command_id

  out_same : (out.root_pid ≡ st.root_pid) × (out.active_command ≡ st.active_command)
  unfolding exited emit write_process
  out_same = (refl, refl)

  out_key : process_for_thread out tid ≡ st.root_pid
  unfolding exited emit write_process process_for_thread
  out_key = key st tid p v found code sig ts ∙ ground arith

  out_known : out.processes st.root_pid ≡ some shell
  unfolding exited emit
  out_known = known_self st tid shell (key st tid p v found code sig ts ∙ ground arith)

  facts :
      (shell.pid ≡ p.pid)
      × (shell.command_id ≡ (if is_armed st.active_command then none else id_of st.active_command))
  facts = unarmed_facts st tid p v found code sig ts is_root

  out-IsSound : IsSound out
  out-IsSound = exited-IsSound st tid p v found code sig ts shell facts.0

  out_open : open_after none out.emitted ≡ some (open_id_of st.active_command)
  out_open = exited-open_after st tid p v found code sig ts shell

  at_root : shell.pid ≡ st.root_pid
  at_root = ground (arith, facts)

  close_started :
      closing ≡ true
      → Inv (record (close_command out tid shell (result_of code sig) ts) { active_command = none })
  unfolding close_command
  close_started c =
      let (id, command, opened) = started_id st.active_command (ground (arith, out_same)) in
      let e = last_event shell tid (result_of code sig) ts in
      let gone : ProcessState = record shell { command_id = none } in
      let k = emit_key out e tid in
      rw c (
        ended-Inv (write_process (emit out e) tid gone) tid gone
          (write-IsSound (emit out e) tid gone (k.0 ∙ out_key ∙ sym at_root)
            (emit-IsSound out e out-IsSound))
          (written_root (emit out e) tid gone (k.0 ∙ out_key ∙ sym (k.1 ∙ out_same.0))) refl
          (unfold write_process in
            emit_end-open_after out e id (unfold last_event in refl)
              (unfold last_event in facts.1 ∙ command) (out_open ∙ ap some opened)))

  not_started : closing ≡ false → is_started st.active_command ≡ false
  not_started c = elim (Bool-cases (is_started st.active_command)) [
    | inr rests ↦ rests
    | inl started ↦
        let (id, command, _) = started_id st.active_command started in
        absurd (ground (arith, out_same, at_root, facts, command))
  ]

  close_unstarted :
      closing ≡ false
      → Inv (record (close_command out tid shell (result_of code sig) ts) { active_command = none })
  unfolding close_command
  close_unstarted c =
      let (command, opened) = unstarted_id st.active_command (not_started c) in
      rw c (
        ended-Inv out tid shell out-IsSound (rw out_same.0 out_known) (facts.1 ∙ command)
          (out_open ∙ ap some opened))

  closed : State
  closed = close_command out tid shell (result_of code sig) ts

  still_root : (shell.pid == closed.root_pid) ≡ true
  unfolding closed
  still_root =
      ground (arith, close_command-root out tid shell (result_of code sig) ts, out_same, at_root)

  root-Inv : Inv (exit_process st tid p code sig ts)
  unfolding exit_process exit_as closed
  root-Inv = forget_thread-Inv (retire shell closed) tid (
      rw (retire-root closed shell still_root)
        (elim (Bool-cases closing) [ inl c ↦ close_started c | inr c ↦ close_unstarted c ]))

exit_of-Inv :
    (st : State) (tid : ℕ) (o : Option ProcessState) (code : ℤ) (sig ts : ℕ)
    → Inv st
    → find_process st tid ≡ o
    → Inv (exit_of st tid o code sig ts)
unfolding exit_of
exit_of-Inv st tid none code sig ts v found = v
exit_of-Inv st tid (some p) code sig ts v found = elim (Bool-cases (p.pid == st.root_pid)) [
  | inl shell ↦ root-Inv st tid p v found code sig ts shell
  | inr other ↦ other-Inv st tid p v found code sig ts other
]

pub on_process_exit-Inv :
    (st : State) (tid : ℕ) (code : ℤ) (sig ts : ℕ)
    → Inv st
    → Inv (on_process_exit st tid code sig ts)
unfolding on_process_exit
on_process_exit-Inv st tid code sig ts v = elim (Bool-cases (tid == process_for_thread st tid)) [
  | inl leader ↦ rw leader (exit_of-Inv st tid (find_process st tid) code sig ts v refl)
  | inr thread ↦ rw thread (forget_thread-Inv st tid v)
]
