-- ===== src/Tests/Loop.antt =====
-- The wait loop on the answers of a kernel.
use whyrun.Common.{
  if◌then◌else◌, ℕ, ◌≡◌, refl, ◌&&◌, ◌==◌, Bool, true, false, List, [], ◌∷◌, Option, none, some,
  codes, Result, ok, err, arith, inl,
}
use whyrun.Common.Int.{int_eq, int_of_long, pos, negsuc, int_of_word}
use whyrun.Collector.Pairing.Between.{after_round, Meanwhile, at_once, entry-exit}
use whyrun.Collector.{
  at_end, interrupted, Collector, Wait, exited, stopped, Registers, registers, Answers, Round,
  again,
}
use whyrun.Collector.Syscall.{syscall_stop, syscall_exit, command_report, exit_recorded, thread_of}
use whyrun.Channel.Kernel.{
  Table, Tracks, none_yet, one_more, Effect, IsQuiet, duplicated, observe_all, observe_all-Tracks,
  is_on,
}
use whyrun.Channel.{tracking, receives}
use whyrun.Collector.Ending.{Ends, collect-Ends}
use whyrun.Collector.Loop.{Progress, blocked, loop, started, collect}
use whyrun.Collector.Recording.{reached, loop-Inv}
use whyrun.Collector.Turn.{turn, syscall_trap, sigtrap}
use whyrun.Execution.Calls.{RawSyscall, nr_dup, nr_write, nr_open}
use whyrun.Execution.Invariant.{Inv}
use whyrun.Execution.Processes.{event_fork}
use whyrun.Execution.Syscalls.{on_syscall_exit}
use whyrun.Host.{Host}

abbrev host : Host
host = record {
  read_string = λ tid address. codes "notes";
  read_bytes = λ tid address size. none;
  read_symlink = λ path. none;
  inet_ntop = λ family address. none;
}

abbrev at_entry : Registers
at_entry = record { orig_rax = nr_open; args = 0 ∷ 0 ∷ 0 ∷ 0 ∷ 0 ∷ 0 ∷ []; rax = negsuc 37 }

abbrev at_exit : Registers
at_exit = record { orig_rax = nr_open; args = 9 ∷ 0 ∷ 0 ∷ 0 ∷ 0 ∷ 0 ∷ []; rax = pos 3 }

abbrev answers : Registers → Option ℕ → ℕ → Answers
answers r message now = record {
  host = host;
  now_ns = now;
  options_set = true;
  registers = registers r;
  event_message = message;
  resumed = true;
}

abbrev statuses : List (Wait × Answers)
statuses =
    (stopped 100 sigtrap event_fork, answers at_entry (some 101) 1)
    ∷ (stopped 101 syscall_trap 0, answers at_entry none 2)
    ∷ (stopped 101 syscall_trap 0, answers at_exit none 3)
    ∷ (exited 101 0, answers at_exit none 4)
    ∷ (exited 100 7, answers at_exit none 5)
    ∷ []

abbrev begun : Collector
begun = started 100 (codes "/") none none 0

abbrev progress : Result Progress → Progress
progress (ok p) = p
progress (err e) = blocked begun

abbrev is_ok : {A : Type 0} → Result A → Bool
is_ok (ok p) = true
is_ok (err e) = false

succeeds : (r : Result Progress) → is_ok r ≡ true → r ≡ ok (progress r)
succeeds (ok st) h = refl
succeeds (err e) h = cc

loop-Inv_example : Inv (reached (progress (loop statuses begun))).execution
loop-Inv_example =
    loop-Inv 100 (codes "/") none none 0 statuses (progress (loop statuses begun))
      (
        (λ e. ground (arith, e)),
        (
          (λ e. ground (arith, e)),
          ((λ e. ground (arith, e)), ((λ e. ground (arith, e)), ((λ e. ground (arith, e)), tt))),
        ),
      )
      (succeeds (loop statuses begun)
        (unfold loop turn syscall_stop syscall_exit command_report exit_recorded in refl))

collect-Ends_example : Ends 100 (pos 7) 0 statuses
collect-Ends_example =
    collect-Ends 100 (codes "/") none none 0 statuses 6
      (record { collector_ok = true; exit_code = pos 7; term_signal = 0; end_ns = 6 })
      (unfold collect loop turn syscall_stop syscall_exit command_report exit_recorded in refl) refl

abbrev at_round : Result Round → Collector
at_round (ok round) = at_end round
at_round (err e) = begun

abbrev inside : Collector
inside = at_round (turn begun (stopped 101 syscall_trap 0, answers at_entry none 2))

abbrev outside : Collector
outside = at_round (turn inside (stopped 101 syscall_trap 0, answers at_exit none 3))

inside-eq : turn begun (stopped 101 syscall_trap 0, answers at_entry none 2) ≡ ok (again inside)
unfolding turn syscall_stop
inside-eq = refl

outside-eq : turn inside (stopped 101 syscall_trap 0, answers at_exit none 3) ≡ ok (again outside)
unfolding turn syscall_stop syscall_exit command_report exit_recorded
outside-eq = refl

inside-root : inside.root_pid ≡ 100
unfolding turn syscall_stop
inside-root = refl

-- A signal interrupts `waitpid` between the two stops.
idle_round : turn inside (interrupted, answers at_exit none 9) ≡ ok (again inside)
unfolding turn
idle_round = refl

interval : Meanwhile 101 inside inside
interval = after_round interrupted (answers at_exit none 9) refl idle_round at_once

entry-exit_example :
    (inside.execution ≡ begun.execution)
    × (outside.execution
        ≡ on_syscall_exit host inside.execution (record {
          tid = 101;
          number = nr_open;
          args = 0 ∷ 0 ∷ 0 ∷ 0 ∷ 0 ∷ 0 ∷ [];
          result = pos 3;
          timestamp_ns = 3;
        }))
    × ((thread_of (outside.threads 101)).in_syscall ≡ false)
entry-exit_example =
    entry-exit begun inside inside outside (answers at_entry none 2) (answers at_exit none 3) 101 0
      0 at_entry at_exit refl refl refl (rw inside-root (omega arith)) inside-eq interval outside-eq

abbrev call : ℕ → ℕ → ℕ → RawSyscall
call number argument result = record {
  tid = 100;
  number = number;
  args = argument ∷ 0 ∷ [];
  result = pos result;
  timestamp_ns = 0;
}

-- The shell has its channel on descriptor 9 and copies it to 12.
abbrev before : Table
before k = if int_eq (pos 9) k then some 5 else none

abbrev behind : Table
behind k = if int_eq (pos 12) k then before (pos 9) else before k

before-Tracks : Tracks 5 (tracking (some (pos 9))) before
unfolding tracking
before-Tracks fd = ground arith

copied : Effect 5 (call nr_dup 9 12) before behind
unfolding int_of_long int_of_word
copied = duplicated refl (inl refl) refl

quiet : IsQuiet 5 (call nr_dup 9 12) before behind
quiet = record { closes = λ f. absurd (ground arith); others = λ h. absurd (ground arith) }

observe_all-Tracks_example :
    Tracks 5 (observe_all (tracking (some (pos 9))) (call nr_dup 9 12 ∷ [])) behind
    × (receives (observe_all (tracking (some (pos 9))) (call nr_dup 9 12 ∷ [])) (call nr_write 12 1)
        ≡ (nr_write == nr_write && is_on 5 (behind (int_of_word 12))))
observe_all-Tracks_example =
    observe_all-Tracks 5 (call nr_dup 9 12 ∷ []) (tracking (some (pos 9))) before behind
      (call nr_write 12 1) before-Tracks (one_more copied quiet none_yet)
