-- ===== src/Execution/Run.antt =====
-- The calls that the collector makes of `ExecutionState`, one after another.
pub mod Background
use whyrun.Common.{
  codes, ℕ, ◌≡◌, ◌≢◌, refl, sym, ◌∙◌, Bool, true, false, List, [], ◌∷◌, ◌++◌, Option, none, some,
  ◌==◌, if◌then◌else◌, Bytes, arith, inl, inr, Result, ok, err, ◌>>=◌, All, >>=-eq-ok, has_value,
}
use whyrun.Execution.Effect.{identity, SameCommands, same_commands}
use whyrun.Execution.Invariant.{
  IsKeyed, IsMapped, HasRoot, has_value-identity, Inv, SameCommands-Inv, Records-IsBracketed,
  assign-IsKeyed, assign-IsMapped, assign-HasRoot_self, thread-IsMapped,
}
use whyrun.Execution.Log.{open_id_of, start-open_after, open_after}
use whyrun.Execution.Attribution.{Keeps, on_command_marker-Keeps}
use whyrun.Execution.Attribution.Processes.{
  on_process_exec-Keeps, on_process_created-Keeps, on_process_exit-Keeps, on_syscall_exit-Keeps,
  forget_thread-Keeps,
}
use whyrun.Common.Int.{ℤ}
use whyrun.Common.Map.{assign, nat_key, empty}
use whyrun.Execution.Calls.{RawSyscall}
use whyrun.Execution.Invariant.Exit.{on_process_exit-Inv}
use whyrun.Execution.Invariant.Markers.{Ensures, on_command_marker-Inv}
use whyrun.Execution.Invariant.Processes.{
  on_process_exec-Inv, on_process_created-Inv, forget_thread-Inv,
}
use whyrun.Execution.Markers.{add_initial_process, root_added, start_event, on_command_marker}
use whyrun.Execution.Outcome.{Outcome, on_syscall_exit-Outcome}
use whyrun.Execution.Processes.{on_process_exec, on_process_created, on_process_exit, forget_thread}
use whyrun.Execution.State.{State, initial, find_process, emit, new_process, ProcessState}
use whyrun.Execution.Syscalls.{on_syscall_exit}
use whyrun.Host.{Host}
use whyrun.Session.{Marker}

pub data Call : Type 0 where
  -- `on_command_marker(tid, marker, timestamp_ns)`
  marks : ℕ → Marker → ℕ → Call
  -- `on_process_exec(tid, timestamp_ns)`
  execs : ℕ → ℕ → Call
  -- `on_process_created(parent_tid, child_tid, ptrace_event, clone_flags, timestamp_ns)`
  creates : ℕ → ℕ → ℕ → ℕ → ℕ → Call
  -- `on_process_exit(tid, exit_code, term_signal, timestamp_ns)`
  exits : ℕ → ℤ → ℕ → ℕ → Call
  -- `on_syscall_exit(syscall)`
  returns : RawSyscall → Call
  -- `forget_thread(tid)`
  forgets : ℕ → Call

unfoldable pub step : State → Host × Call → Result State
step st (host, marks tid marker ts) = on_command_marker st tid marker ts
step st (host, execs tid ts) = ok (on_process_exec host st tid ts)
step st (host, creates parent child e flags ts) = ok (on_process_created st parent child e flags ts)
step st (host, exits tid code sig ts) = ok (on_process_exit st tid code sig ts)
step st (host, returns sc) = ok (on_syscall_exit host st sc)
step st (host, forgets tid) = ok (forget_thread st tid)

-- An exception ends the run.
unfoldable pub run : State → List (Host × Call) → Result State
unfolding step
run st [] = ok st
run st (c ∷ cs) = do next ← step st c; run next cs

-- The kernel gives no new process the pid `k`.
abbrev pub Spares : ℕ → Host × Call → Type 0
Spares k (host, creates parent child e flags ts) = child ≢ k
Spares k (host, _) = Unit

on_syscall_exit-Inv :
    (host : Host) (st : State) (sc : RawSyscall) → Inv st → Inv (on_syscall_exit host st sc)
on_syscall_exit-Inv host st sc v = elim (on_syscall_exit-Outcome host st sc) [
  | inl (_, same) ↦ rw same v
  | inr (p, found, o, _) ↦
      SameCommands-Inv st (on_syscall_exit host st sc) o.effect.same
        (Records-IsBracketed sc p st _ o.effect.same.active o.records v.bracketed) v
]

step-Inv : (st : State) (c : Host × Call) → Spares st.root_pid c → Inv st → Ensures Inv (step st c)
unfolding step
step-Inv st (host, marks tid marker ts) fresh v = on_command_marker-Inv st tid marker ts v
step-Inv st (host, execs tid ts) fresh v = on_process_exec-Inv host st tid ts v
step-Inv st (host, creates parent child e flags ts) fresh v =
    on_process_created-Inv st parent child e flags ts fresh v
step-Inv st (host, exits tid code sig ts) fresh v = on_process_exit-Inv st tid code sig ts v
step-Inv st (host, returns sc) fresh v = on_syscall_exit-Inv host st sc v
step-Inv st (host, forgets tid) fresh v = forget_thread-Inv st tid v

step-Keeps :
    (k : ℕ) (st : State) (c : Host × Call) → Spares k c → Inv st → Ensures (Keeps k st) (step st c)
unfolding step
step-Keeps k st (host, marks tid marker ts) fresh v = on_command_marker-Keeps k st tid marker ts v
step-Keeps k st (host, execs tid ts) fresh v = on_process_exec-Keeps k host st tid ts v
step-Keeps k st (host, creates parent child e flags ts) fresh v =
    on_process_created-Keeps k st parent child e flags ts fresh
step-Keeps k st (host, exits tid code sig ts) fresh v = on_process_exit-Keeps k st tid code sig ts v
step-Keeps k st (host, returns sc) fresh v = on_syscall_exit-Keeps k host st sc
step-Keeps k st (host, forgets tid) fresh v = forget_thread-Keeps k st tid

Ensures-ok : (P : State → Type 0) {st : State} (r : Result State) → Ensures P r → r ≡ ok st → P st
Ensures-ok P {st} (ok s) h e = let same : st ≡ s = ground arith in rw same h
Ensures-ok P (err x) h e = cc

-- From a state that meets the invariant, calls that give the root's pid to no new process lead to
-- states that meet it.
pub run-Inv :
    (cs : List (Host × Call)) (root : ℕ) (st st' : State)
    → st.root_pid ≡ root
    → All (Spares root) cs
    → Inv st
    → run st cs ≡ ok st'
    → (st'.root_pid ≡ root) × Inv st'
unfolding run
run-Inv [] root st st' is_root fresh v e =
    let same : st' ≡ st = ground arith in rw same (is_root, v)
run-Inv (c ∷ cs) root st st' is_root (spared, fresh) v e =
    let (next, stepped, rest) = >>=-eq-ok (step st c) (λ next. run next cs) e in
    let here : Spares st.root_pid c = rw is_root spared in
    let kept =
      Ensures-ok (Keeps st.root_pid st) (step st c) (step-Keeps st.root_pid st c here v) stepped in
    run-Inv cs root next st' (kept.root ∙ is_root) fresh
      (Ensures-ok Inv (step st c) (step-Inv st c here v) stepped) rest

module _ (pid : ℕ) (cwd : Bytes) (ts : ℕ) where
  added-IsKeyed :
      (root_command : Option Bytes) → IsKeyed (root_added initial pid cwd root_command ts).processes
  unfolding root_added
  added-IsKeyed root_command k p found = ground arith

  added-IsMapped :
      (root_command : Option Bytes)
      → IsMapped
          (root_added initial pid cwd root_command ts).thread_to_process
          (root_added initial pid cwd root_command ts).processes
  unfolding root_added
  added-IsMapped root_command t k found = ground arith

  added-HasRoot :
      (root_command : Option Bytes)
      → HasRoot
          (root_added initial pid cwd root_command ts).processes
          pid
          (root_added initial pid cwd root_command ts).active_command
  unfolding root_added
  added-HasRoot none = assign-HasRoot_self empty pid (new_process pid cwd) none refl
  added-HasRoot (some command) =
      assign-HasRoot_self empty pid (record (new_process pid cwd) { command_id = some 1 })
        (some (record { id = 1; first_process_ns = some ts; started = true })) refl

  -- The state in which the recording begins meets the invariant.
  add_initial_process-Inv :
      (root_command : Option Bytes) → Inv (add_initial_process initial pid cwd root_command ts)
  unfolding add_initial_process
  add_initial_process-Inv none = record {
    keyed = added-IsKeyed none;
    mapped = added-IsMapped none;
    rooted = unfold root_added in added-HasRoot none;
    bracketed = unfold root_added open_after in refl;
  }
  add_initial_process-Inv (some command) =
      unfold emit in
      record {
        keyed = added-IsKeyed (some command);
        mapped = added-IsMapped (some command);
        rooted = unfold root_added in added-HasRoot (some command);
        bracketed =
            unfold root_added in
            start-open_after [] (start_event ts pid pid command cwd (codes "1") 1) 1
              (unfold open_after in refl) refl refl;
      }

  add_initial_process-root :
      (root_command : Option Bytes)
      → (add_initial_process initial pid cwd root_command ts).root_pid ≡ pid
  unfolding add_initial_process root_added
  add_initial_process-root none = refl
  add_initial_process-root (some command) = unfold emit in refl

  -- Whatever calls the collector makes after `add_initial_process`, in whatever order, as long as the
  -- kernel gives the root's pid to no new process: when all of them return, the events emitted are
  -- well bracketed, the open command is the one that is active and started, every process is stored
  -- under its pid, every known thread belongs to a known process, and the root process is known and
  -- carries the id of the active command.
  pub recorded-Inv :
      (root_command : Option Bytes) (cs : List (Host × Call)) (st : State)
      → All (Spares pid) cs
      → run (add_initial_process initial pid cwd root_command ts) cs ≡ ok st
      → Inv st
  recorded-Inv root_command cs st fresh e =
      (run-Inv cs pid (add_initial_process initial pid cwd root_command ts) st
        (add_initial_process-root root_command) fresh (add_initial_process-Inv root_command) e).1

-- A process other than the root keeps the command that it belongs to.
pub run-identity :
    (cs : List (Host × Call)) (k root : ℕ) (st st' : State)
    → st.root_pid ≡ root
    → k ≢ root
    → All (Spares k) cs
    → All (Spares root) cs
    → Inv st
    → has_value (st.processes k) ≡ true
    → run st cs ≡ ok st'
    → identity (st'.processes k) ≡ identity (st.processes k)
unfolding run
run-identity [] k root st st' is_root ne spared fresh v known e =
    let same : st' ≡ st = ground arith in rw same refl
run-identity (c ∷ cs) k root st st' is_root ne (spares, spared) (free, fresh) v known e =
    let (next, stepped, rest) = >>=-eq-ok (step st c) (λ next. run next cs) e in
    let here : Spares st.root_pid c = rw is_root free in
    let kept = Ensures-ok (Keeps k st) (step st c) (step-Keeps k st c spares v) stepped in
    let same = kept.who (rw is_root ne) known in
    run-identity cs k root next st' (kept.root ∙ is_root) ne spared fresh
      (Ensures-ok Inv (step st c) (step-Inv st c here v) stepped)
      (has_value-identity (st.processes k) (next.processes k) same ∙ known) rest
    ∙ same
