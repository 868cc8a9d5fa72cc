-- ===== src/Execution/Effect.antt =====
-- What a system call can do to the recorder's state: it may add one event, and it may rewrite the
-- descriptors and the working directory of the process that made it, and nothing else.
use whyrun.Common.Map.{nat_key}
use whyrun.Common.{
  ℕ, ◌≡◌, ◌≢◌, refl, Bool, true, false, [], ◌∷◌, ◌++◌, Option, none, some, Bytes, arith,
}
use whyrun.Event.{Event, EventType, command_start, command_end}
use whyrun.Execution.Calls.{RawSyscall, make_event}
use whyrun.Execution.State.{
  ProcessState, State, process_for_thread, find_process, write_process, attribution, emit,
  syscall_errno,
}

abbrev pub is_command_event : EventType → Bool
is_command_event command_start = true
is_command_event command_end = true
is_command_event _ = false

-- A process, as far as commands are concerned.
abbrev pub identity : Option ProcessState → Option (ℕ × Option ℕ)
identity none = none
identity (some p) = some (p.pid, p.command_id)

pub record SameCommands (st st' : State) : Type 0 where
  pub threads : st'.thread_to_process ≡ st.thread_to_process
  pub active : st'.active_command ≡ st.active_command
  pub root : st'.root_pid ≡ st.root_pid
  pub identities : (k : ℕ) → identity (st'.processes k) ≡ identity (st.processes k)

-- The facts about an event that come from its system call.
pub record IsOf (sc : RawSyscall) (p : ProcessState) (e : Event) : Type 0 where
  pub at_time : e.timestamp_ns ≡ sc.timestamp_ns
  pub of_process : e.pid ≡ p.pid
  pub of_thread : e.tid ≡ sc.tid
  pub with_result : e.result ≡ sc.result
  pub with_errno : e.errno_value ≡ syscall_errno sc.result
  pub no_command : is_command_event e.type ≡ false

pub record Effect (sc : RawSyscall) (p : ProcessState) (st st' : State) : Type 0 where
  pub same : SameCommands st st'
  pub others : (k : ℕ) → process_for_thread st sc.tid ≢ k → st'.processes k ≡ st.processes k

pub data Records (sc : RawSyscall) (p : ProcessState) (st st' : State) : Type 0 where
  nothing : st'.emitted ≡ st.emitted → Records sc p st st'
  one :
      (e : Event)
      → st'.emitted ≡ st.emitted ++ e ∷ []
      → IsOf sc p e
      → e.command_id ≡ attribution st (some p)
      → Records sc p st st'

pub process_for_thread-eq :
    (st st' : State) (tid : ℕ)
    → st'.thread_to_process ≡ st.thread_to_process
    → process_for_thread st' tid ≡ process_for_thread st tid
unfolding process_for_thread
process_for_thread-eq st st' tid e = rw e

pub same_commands : (st : State) → SameCommands st st
same_commands st = record { threads = refl; active = refl; root = refl; identities = λ k. refl }

pub write-SameCommands :
    (st st' : State) (tid : ℕ) (p q : ProcessState)
    → find_process st tid ≡ some p
    → q.pid ≡ p.pid
    → q.command_id ≡ p.command_id
    → SameCommands st st'
    → SameCommands st (write_process st' tid q)
unfolding write_process find_process process_for_thread
write-SameCommands st st' tid p q found pid command v = record {
  threads = v.threads;
  active = v.active;
  root = v.root;
  identities = λ k. ground (arith, process_for_thread-eq st st' tid v.threads, v.identities k);
}

module _ (sc : RawSyscall) (p : ProcessState) (st : State) where
  pub Effect-refl : Effect sc p st st
  Effect-refl = record { same = same_commands st; others = λ k h. refl }

  pub Effect-emit : (e : Event) → Effect sc p st (emit st e)
  unfolding emit
  Effect-emit e = record {
    same = record { threads = refl; active = refl; root = refl; identities = λ k. refl };
    others = λ k h. refl;
  }

  pub Effect-write :
      (st' : State) (q : ProcessState)
      → find_process st sc.tid ≡ some p
      → q.pid ≡ p.pid
      → q.command_id ≡ p.command_id
      → Effect sc p st st'
      → Effect sc p st (write_process st' sc.tid q)
  unfolding write_process find_process process_for_thread
  Effect-write st' q found pid command v = record {
    same = write-SameCommands st st' sc.tid p q found pid command v.same;
    others =
        λ k h. ground (arith, process_for_thread-eq st st' sc.tid v.same.threads, v.others k h);
  }

  pub IsOf-make_event :
      (type : EventType) (resource : Bytes)
      → is_command_event type ≡ false
      → IsOf sc p (make_event p sc type resource)
  unfolding make_event
  IsOf-make_event type resource h = record {
    at_time = refl;
    of_process = refl;
    of_thread = refl;
    with_result = refl;
    with_errno = refl;
    no_command = h;
  }
