-- ===== src/Execution/Invariant.antt =====
-- What holds of the state of `ExecutionState` between two of its handlers.
pub mod Markers
pub mod Exit
pub mod Processes
use whyrun.Event.{Event, command_end}
use whyrun.Execution.Effect.{
  is_command_event, SameCommands, identity, Records, nothing, one, Effect,
}
use whyrun.Execution.Log.{open_after, end-open_after, IsBracketed, other-open_after, open_id_of}
use whyrun.Common.Map.{Map, nat_key, assign, erase}
use whyrun.Common.{
  ℕ, ◌≡◌, ◌≢◌, refl, sym, ◌∙◌, Bool, true, false, not, ◌&&◌, List, [], ◌∷◌, ◌++◌, append-nil,
  Option, none, some, ◌==◌, ==_iff, if◌then◌else◌, Bytes, arith, has_value, inl, inr, Bool-cases,
}
use whyrun.Execution.Calls.{RawSyscall}
use whyrun.Execution.State.{
  ProcessState, ActiveCommand, State, process_for_thread, find_process, write_process, emit,
}

-- A process is stored under its own pid.
abbrev pub IsKeyed : Map ℕ ProcessState → Type 0
IsKeyed m = (k : ℕ) (p : ProcessState) → m k ≡ some p → p.pid ≡ k

-- A known thread belongs to a known process.
abbrev pub IsMapped : Map ℕ ℕ → Map ℕ ProcessState → Type 0
IsMapped threads m = (t k : ℕ) → threads t ≡ some k → has_value (m k) ≡ true

abbrev pub id_of : Option ActiveCommand → Option ℕ
id_of none = none
id_of (some a) = some a.id

-- The root process is known, and it carries the id of the command that is armed or started.
pub record HasRoot (m : Map ℕ ProcessState) (root : ℕ) (active : Option ActiveCommand)
    : Type 0 where
  pub process : ProcessState
  pub known : m root ≡ some process
  pub agrees : process.command_id ≡ id_of active

pub record Inv (st : State) : Type 0 where
  pub keyed : IsKeyed st.processes
  pub mapped : IsMapped st.thread_to_process st.processes
  pub rooted : HasRoot st.processes st.root_pid st.active_command
  pub bracketed : IsBracketed st

module _ (m : Map ℕ ProcessState) (k : ℕ) (q : ProcessState) where
  pub assign-IsKeyed : IsKeyed m → q.pid ≡ k → IsKeyed (assign k q m)
  assign-IsKeyed h e j p found = ground (arith, h j p)

  pub assign-IsMapped : (threads : Map ℕ ℕ) → IsMapped threads m → IsMapped threads (assign k q m)
  assign-IsMapped threads h t j found = ground (arith, h t j)

  pub assign-HasRoot :
      (root : ℕ) (active : Option ActiveCommand)
      → k ≢ root
      → HasRoot m root active
      → HasRoot (assign k q m) root active
  assign-HasRoot root active ne h = record {
    process = h.process;
    known = ground (arith, h.known);
    agrees = h.agrees;
  }

  pub assign-HasRoot_self :
      (active : Option ActiveCommand)
      → q.command_id ≡ id_of active
      → HasRoot (assign k q m) k active
  assign-HasRoot_self active e = record { process = q; known = ground arith; agrees = e }

module _ (threads : Map ℕ ℕ) (m : Map ℕ ProcessState) (t : ℕ) where
  pub thread-IsMapped :
      (k : ℕ) → has_value (m k) ≡ true → IsMapped threads m → IsMapped (assign t k threads) m
  thread-IsMapped k known h s j found = ground (arith, h s j)

  pub erase-IsMapped : IsMapped threads m → IsMapped (erase t threads) m
  erase-IsMapped h s j found = ground (arith, h s j)

-- The process of a thread is stored under its pid.
pub find_process-key :
    (st : State) (tid : ℕ) (p : ProcessState)
    → IsKeyed st.processes
    → find_process st tid ≡ some p
    → process_for_thread st tid ≡ p.pid
unfolding find_process
find_process-key st tid p h found = sym (h (process_for_thread st tid) p found)

identity-some :
    (o o' : Option ProcessState) (p : ProcessState)
    → identity o' ≡ identity o
    → o' ≡ some p
    → (q : ProcessState) × (o ≡ some q) × (q.pid ≡ p.pid) × (q.command_id ≡ p.command_id)
identity-some none o' p e h = absurd (ground arith)
identity-some (some q) o' p e h = (q, refl, ground arith, ground arith)

pub has_value-identity :
    (o o' : Option ProcessState) → identity o' ≡ identity o → has_value o' ≡ has_value o
has_value-identity o o' e = ground arith

pub Records-IsBracketed :
    (sc : RawSyscall) (p : ProcessState) (st st' : State)
    → st'.active_command ≡ st.active_command
    → Records sc p st st'
    → IsBracketed st
    → IsBracketed st'
Records-IsBracketed sc p st st' same (nothing e) b = rw (e, same) b
Records-IsBracketed sc p st st' same (one e grown h c) b =
    rw (grown, same) (other-open_after st.emitted e (open_id_of st.active_command) b h.no_command)

-- What leaves the commands alone keeps the invariant.
pub SameCommands-Inv : (st st' : State) → SameCommands st st' → IsBracketed st' → Inv st → Inv st'
SameCommands-Inv st st' s b v = record {
  keyed = λ k p found.
      let (q, there, pid, _) =
        identity-some (st.processes k) (st'.processes k) p (s.identities k) found in
      sym pid ∙ v.keyed k q there;
  mapped = λ t k found.
      has_value-identity (st.processes k) (st'.processes k) (s.identities k)
      ∙ v.mapped t k (sym (λ i. s.threads i t) ∙ found);
  rooted =
      rw (s.root, s.active)
        (let r = v.rooted in
          let (q, there, _, command) =
            identity-some (st'.processes st.root_pid) (st.processes st.root_pid) r.process
              (sym (s.identities st.root_pid)) r.known in
          record { process = q; known = there; agrees = command ∙ r.agrees });
  bracketed = b;
}

-- The part of the invariant that does not speak of commands.
pub record IsSound (st : State) : Type 0 where
  pub keyed : IsKeyed st.processes
  pub mapped : IsMapped st.thread_to_process st.processes

pub write-IsSound :
    (st : State) (tid : ℕ) (q : ProcessState)
    → process_for_thread st tid ≡ q.pid
    → IsSound st
    → IsSound (write_process st tid q)
unfolding write_process
write-IsSound st tid q key v = record {
  keyed = assign-IsKeyed st.processes (process_for_thread st tid) q v.keyed (sym key);
  mapped = assign-IsMapped st.processes (process_for_thread st tid) q st.thread_to_process v.mapped;
}

pub emit-IsSound : (st : State) (e : Event) → IsSound st → IsSound (emit st e)
unfolding emit
emit-IsSound st e v = record { keyed = v.keyed; mapped = v.mapped }

pub emit-open_after :
    (st : State) (e : Event) (current : Option ℕ)
    → is_command_event e.type ≡ false
    → open_after none st.emitted ≡ some current
    → open_after none (emit st e).emitted ≡ some current
unfolding emit
emit-open_after st e current other b = other-open_after st.emitted _ current b other

pub emit_end-open_after :
    (st : State) (e : Event) (id : ℕ)
    → e.type ≡ command_end
    → e.command_id ≡ some id
    → open_after none st.emitted ≡ some (some id)
    → open_after none (emit st e).emitted ≡ some none
unfolding emit
emit_end-open_after st e id type command b = end-open_after st.emitted _ id b type (rw command)

pub emit-Inv : (st : State) (e : Event) → is_command_event e.type ≡ false → Inv st → Inv (emit st e)
unfolding emit
emit-Inv st e other v = record {
  keyed = v.keyed;
  mapped = v.mapped;
  rooted = v.rooted;
  bracketed = other-open_after st.emitted _ (open_id_of st.active_command) v.bracketed other;
}

-- When a command ends with the shell, nothing is armed or started any more.
pub ended-Inv :
    (st : State) (tid : ℕ) (q : ProcessState)
    → IsSound st
    → st.processes st.root_pid ≡ some q
    → q.command_id ≡ none
    → open_after none st.emitted ≡ some none
    → Inv (record st { active_command = none })
ended-Inv st tid q v known command b = record {
  keyed = v.keyed;
  mapped = v.mapped;
  rooted = record { process = q; known = known; agrees = command };
  bracketed = b;
}
