-- ===== src/Execution/Run/Background.antt =====
-- A process that a command leaves in the background stays with that command.
use whyrun.Common.{
  ℕ, ◌≡◌, ◌≢◌, refl, ◌∙◌, true, false, ◌&&◌, List, Option, none, some, ◌==◌, arith, ok, All,
  has_value,
}
use whyrun.Common.Map.{nat_key}
use whyrun.Execution.Effect.{identity}
use whyrun.Execution.Events.{has_bit_16}
use whyrun.Execution.Invariant.{Inv}
use whyrun.Execution.Invariant.Processes.{on_process_created-Inv}
use whyrun.Execution.Attribution.Processes.{on_process_created-Keeps}
use whyrun.Execution.Processes.{
  on_process_created, created_by, create_process, child_added, event_clone,
}
use whyrun.Execution.Run.{run, run-Inv, run-identity, Call, Spares}
use whyrun.Execution.State.{ProcessState, State, find_process, attribution, emit}
use whyrun.Host.{Host}

-- The new process has the pid of the child and the command of its parent.
created-identity :
    (st : State) (parent_tid : ℕ) (parent : ProcessState) (child_tid e flags ts : ℕ)
    → find_process st parent_tid ≡ some parent
    → (e == event_clone && has_bit_16 flags) ≡ false
    → identity ((on_process_created st parent_tid child_tid e flags ts).processes child_tid)
      ≡ some (child_tid, parent.command_id)
unfolding on_process_created created_by create_process child_added emit
created-identity st parent_tid parent child_tid e flags ts found process =
    rw (found, process) (ground arith)

attribution-identity :
    (st : State) (o : Option ProcessState) (k : ℕ) (command : Option ℕ)
    → k ≢ st.root_pid
    → identity o ≡ some (k, command)
    → attribution st o ≡ command
unfolding attribution
attribution-identity st none k command ne e = absurd (ground arith)
attribution-identity st (some p) k command ne e = ground arith

identity-has_value :
    (o : Option ProcessState) {x : ℕ × Option ℕ} → identity o ≡ some x → has_value o ≡ true
identity-has_value none e = absurd (ground arith)
identity-has_value (some p) e = refl

-- In a state that meets the invariant, a new process that is not a thread and not the root belongs,
-- from its creation on, to the command that its parent belonged to at that moment. Whatever calls the
-- collector makes later, other commands that start and end included: as long as none of them throws
-- and the kernel gives the pids of the process and of the root to no new process, the command of the
-- process, which is also what `emit` gives to an event of the process, stays the same.
pub created-attribution :
    (st : State) (parent_tid : ℕ) (parent : ProcessState) (child_tid e flags ts : ℕ)
    (cs : List (Host × Call)) (st' : State)
    → Inv st
    → find_process st parent_tid ≡ some parent
    → (e == event_clone && has_bit_16 flags) ≡ false
    → child_tid ≢ st.root_pid
    → All (Spares child_tid) cs
    → All (Spares st.root_pid) cs
    → run (on_process_created st parent_tid child_tid e flags ts) cs ≡ ok st'
    → (identity (st'.processes child_tid) ≡ some (child_tid, parent.command_id))
      × (attribution st' (st'.processes child_tid) ≡ parent.command_id)
created-attribution st parent_tid parent child_tid e flags ts cs st' v found process ne spared fresh
      h =
    let made = on_process_created st parent_tid child_tid e flags ts in
    let born = created-identity st parent_tid parent child_tid e flags ts found process in
    let root = (on_process_created-Keeps st.root_pid st parent_tid child_tid e flags ts ne).root in
    let there = identity-has_value (made.processes child_tid) born in
    let sound = on_process_created-Inv st parent_tid child_tid e flags ts ne v in
    let same =
      run-identity cs child_tid st.root_pid made st' root ne spared fresh sound there h ∙ born in
    let still = (run-Inv cs st.root_pid made st' root fresh sound h).0 in
    (
      same,
      attribution-identity st' (st'.processes child_tid) child_tid parent.command_id (rw still ne)
          same,
    )
