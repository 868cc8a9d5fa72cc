-- ===== src/Tests/Recorder.antt =====
-- A recording of a shell that leaves a process in the background, as src/execution_state.cpp sees it.
use whyrun.Execution.State.{attribution}
use whyrun.Execution.Outcome.{IsGiven}
use whyrun.Execution.Phases.{IsForeign, on_command_marker-follows, view, view_of, follow, phase_of}
use whyrun.Common.Int.{int_of_long, int_of_word, pos}
use whyrun.Execution.Opens.{open_path}
use whyrun.Common.{
  ◌++◌, inr, Bool, true, false, ◌⊎◌, ℕ, ◌≡◌, refl, List, [], ◌∷◌, none, some, codes, Result, ok,
  err, All, arith,
}
use whyrun.Event.{Event, file_write}
use whyrun.Execution.Tracking.Names.{AllLeaveAlone, after_calls, open-transfer}
use whyrun.Execution.Calls.{nr_close, nr_write, RawSyscall, nr_open}
use whyrun.Execution.Processes.{
  created_by, create_process, child_added, note_first_process, on_process_exec, exec_of,
  exec_process, on_process_created, event_fork,
}
use whyrun.Execution.Syscalls.{on_syscall_exit}
use whyrun.Execution.Outcome.{Outcome, on_syscall_exit-Outcome}
use whyrun.Execution.Effect.{identity}
use whyrun.Execution.Run.Background.{created-attribution}
use whyrun.Execution.State.{ProcessState, new_process, find_process, attribution, State, initial}
use whyrun.Execution.Markers.{on_command_marker, add_initial_process}
use whyrun.Execution.Invariant.{Inv}
use whyrun.Execution.Run.{Call, marks, execs, creates, exits, returns, run, Spares, recorded-Inv}
use whyrun.Host.{Host}
use whyrun.Session.{Marker, MarkerType, arm, start, end}

abbrev host : Host
host = record {
  read_string = λ tid address. codes "notes";
  read_bytes = λ tid address size. none;
  read_symlink = λ path. some (codes "/bin/sleep");
  inet_ntop = λ family address. none;
}

abbrev marker : MarkerType → ℕ → Marker
marker type id = record {
  type = type;
  id = id;
  text = codes "sleep";
  cwd = codes "/";
  exit_code = pos 0;
}

abbrev opens : RawSyscall
opens = record { tid = 100; number = nr_open; args = 0 ∷ 0 ∷ []; result = pos 3; timestamp_ns = 9 }

abbrev before : List (Host × Call)
before = (host, marks 100 (marker arm 1) 1) ∷ []

abbrev later : List (Host × Call)
later =
    (host, marks 100 (marker start 1) 3)
    ∷ (host, execs 101 4)
    ∷ (host, marks 100 (marker end 1) 5)
    ∷ (host, marks 100 (marker arm 2) 6)
    ∷ (host, returns opens)
    ∷ (host, exits 101 (pos 0) 9 10)
    ∷ []

abbrev shell : State
shell = add_initial_process initial 100 (codes "/") none 0

abbrev state_of : Result State → State
state_of (ok st) = st
state_of (err e) = initial

abbrev waiting : State
waiting = state_of (run shell before)

abbrev is_ok : Result State → Bool
is_ok (ok st) = true
is_ok (err e) = false

succeeds : (r : Result State) → is_ok r ≡ true → r ≡ ok (state_of r)
succeeds (ok st) h = refl
succeeds (err e) h = cc

waiting-eq : run shell before ≡ ok waiting
waiting-eq = succeeds (run shell before) (unfold run on_command_marker add_initial_process in refl)

waiting-Inv : Inv waiting
waiting-Inv = recorded-Inv 100 (codes "/") 0 none before waiting (tt, tt) waiting-eq

abbrev shell_process : ProcessState
shell_process = record (new_process 100 (codes "/")) { command_id = some 1 }

abbrev recording : Result State
recording = run (on_process_created waiting 100 101 event_fork 0 2) later

recording-eq : recording ≡ ok (state_of recording)
recording-eq = succeeds recording (
    unfold run on_command_marker add_initial_process on_process_created created_by create_process
      child_added note_first_process on_process_exec exec_of exec_process in
    refl)

waiting-shell : find_process waiting 100 ≡ some shell_process
unfolding run on_command_marker add_initial_process
waiting-shell = refl

waiting-root : waiting.root_pid ≡ 100
unfolding run on_command_marker add_initial_process
waiting-root = refl

spared : (k : ℕ) → All (Spares k) later
spared k = (tt, (tt, (tt, (tt, (tt, (tt, tt))))))

created-attribution_example :
    (identity ((state_of recording).processes 101) ≡ some (101, some 1))
    × (attribution (state_of recording) ((state_of recording).processes 101) ≡ some 1)
created-attribution_example =
    created-attribution waiting 100 shell_process 101 event_fork 0 2 later (state_of recording)
      waiting-Inv waiting-shell refl (rw waiting-root (omega arith)) (spared 101)
      (spared waiting.root_pid) recording-eq

abbrev whole : List (Host × Call)
whole = (host, marks 100 (marker arm 1) 1) ∷ (host, creates 100 101 event_fork 0 2) ∷ later

recorded-Inv_example : Inv (state_of (run shell whole))
recorded-Inv_example =
    recorded-Inv 100 (codes "/") 0 none whole (state_of (run shell whole))
      (tt, (omega arith, spared 100))
      (succeeds (run shell whole) (
        unfold run on_command_marker add_initial_process on_process_created created_by
          create_process child_added note_first_process on_process_exec exec_of exec_process in
        refl))

-- The marker that starts the command.
on_command_marker-follows_example :
    ((p : ProcessState) × (find_process waiting 100 ≡ some p)
      × (p.pid ≡ waiting.root_pid)
      × (view_of (on_command_marker waiting 100 (marker start 1) 3)
          ≡ follow (view waiting) (phase_of waiting.active_command) start 1))
    ⊎ (IsForeign waiting 100 × (on_command_marker waiting 100 (marker start 1) 3 ≡ ok waiting))
on_command_marker-follows_example =
    on_command_marker-follows waiting 100 (marker start 1) 3 waiting-Inv

on_syscall_exit-Outcome_example :
    ((find_process waiting opens.tid ≡ none) × (on_syscall_exit host waiting opens ≡ waiting))
    ⊎ ((p : ProcessState) × (find_process waiting opens.tid ≡ some p)
        × Outcome opens p waiting (on_syscall_exit host waiting opens)
        × IsGiven waiting p (attribution waiting (some p)))
on_syscall_exit-Outcome_example = on_syscall_exit-Outcome host waiting opens

abbrev closes : RawSyscall
closes = record { tid = 100; number = nr_close; args = 5 ∷ []; result = pos 0; timestamp_ns = 10 }

abbrev writes : RawSyscall
writes = record {
  tid = 100;
  number = nr_write;
  args = 3 ∷ 0 ∷ 8 ∷ [];
  result = pos 8;
  timestamp_ns = 11;
}

-- `fstat` of the descriptor itself
abbrev stats : RawSyscall
stats = record { tid = 100; number = 5; args = 3 ∷ 0 ∷ []; result = pos 0; timestamp_ns = 10 }

abbrev between_calls : List (Host × RawSyscall)
between_calls = (host, closes) ∷ (host, stats) ∷ []

between_them : AllLeaveAlone (on_syscall_exit host waiting opens) 100 (pos 3) between_calls
unfolding int_of_long int_of_word
between_them = (
  inr ((λ e. refl), (λ e. refl)),
  (inr ((λ e. absurd (ground arith)), (λ e. absurd (ground arith))), tt),
)

open-transfer_example :
    (e : Event) × ((on_syscall_exit host
        (after_calls (on_syscall_exit host waiting opens) between_calls)
        writes).emitted
      ≡ (after_calls (on_syscall_exit host waiting opens) between_calls).emitted ++ e ∷ [])
    × (e.type ≡ file_write)
    × (e.resource ≡ open_path host opens shell_process)
    × (e.result ≡ pos 8)
open-transfer_example =
    open-transfer host host waiting opens writes shell_process 3 between_calls waiting-shell refl
      refl (omega arith) between_them refl (inr refl) (unfold int_of_word in refl)

recorded_path : open_path host opens shell_process ≡ codes "/notes"
unfolding open_path
recorded_path = refl
