-- ===== src/Collector/Calls.antt =====
-- The loop changes the state of `ExecutionState` by calls of its handlers and by nothing else.
pub mod Rounds
use whyrun.Execution.Processes.{
  on_process_created, on_process_exec, on_process_exit, event_fork, event_vfork, event_clone,
}
use whyrun.Collector.{
  at_end, Thread, Collector, Wait, interrupted, no_children, wait_failed, exited, signaled, stopped,
  continued, Registers, RegistersAnswer, registers, no_such_process, refused, Answers, Failure,
  Round, again, leave, fail, insert_tid,
}
use whyrun.Collector.Syscall.{
  exit_recorded, on_markers, marked, read_report, reported, command_report, tracked, raw_syscall,
  syscall_exit, entered, thread_of, syscall_stop, resume, at_syscall, maximum_command_write,
}
use whyrun.Common.Map.{nat_key, assign}
use whyrun.Execution.Syscalls.{on_syscall_exit}
use whyrun.Channel.{receives}
use whyrun.Collector.Turn.{
  gone, clone_flags, created, at_event, at_stop, on_stop, turn, syscall_trap, sigtrap, event_exec,
}
use whyrun.Common.Int.{ℤ, pos, negsuc}
use whyrun.Common.{
  ℕ, ◌≡◌, ◌≢◌, refl, sym, ap, ◌∙◌, ◌&&◌, ◌||◌, not, Bool, true, false, List, [], ◌∷◌, ◌++◌, Option,
  none, some, ◌==◌, ltb, if◌then◌else◌, arith, Bytes, Result, ok, err, ◌>>=◌, >>=-eq-ok, All,
  All-append, inl, inr, Bool-cases, Result-cases, write_too_large,
}
use whyrun.Execution.Calls.{RawSyscall, arg}
use whyrun.Execution.Markers.{on_command_marker}
use whyrun.Execution.Run.{Call, marks, execs, creates, exits, returns, step, run, Spares}
use whyrun.Execution.State.{State}
use whyrun.Host.{Host}
use whyrun.Session.{Marker, Protocol, consume}

pub ok-injective : {A : Type 0} {x y : A} → ok x ≡ ok y → x ≡ y
ok-injective {A} {x} {y} h = ground arith

-- Calls that lead from one state to another, and give `k` to no new process.
pub record Leads (k : ℕ) (st st' : State) : Type 0 where
  pub calls : List (Host × Call)
  pub spare : All (Spares k) calls
  pub runs : run st calls ≡ ok st'

run-append :
    (cs ds : List (Host × Call)) (st : State)
    → run st (cs ++ ds) ≡ (run st cs >>= λ next. run next ds)
unfolding run
run-append [] ds st = refl
run-append (c ∷ cs) ds st = elim (Result-cases (step st c)) [
  | inl (e, thrown) ↦ rw thrown refl
  | inr (next, done) ↦ rw done (run-append cs ds next)
]

module _ (k : ℕ) where
  pub Leads-refl : (st : State) → Leads k st st
  Leads-refl st = record { calls = []; spare = tt; runs = unfold run in refl }

  pub Leads-trans : (st mid st' : State) → Leads k st mid → Leads k mid st' → Leads k st st'
  Leads-trans st mid st' a b = record {
    calls = a.calls ++ b.calls;
    spare = All-append (Spares k) a.calls b.calls a.spare b.spare;
    runs = run-append a.calls b.calls st ∙ rw a.runs b.runs;
  }

  pub Leads-call :
      (host : Host) (c : Call) (st st' : State)
      → Spares k (host, c)
      → step st (host, c) ≡ ok st'
      → Leads k st st'
  Leads-call host c st st' spared h = record {
    calls = (host, c) ∷ [];
    spare = (spared, tt);
    runs = unfold run in rw h refl;
  }

  on_markers-Leads :
      (host : Host) (ms : List Marker) (st : State) (tid ts : ℕ) (st' : State)
      → on_markers st tid ms ts ≡ ok st'
      → Leads k st st'
  unfolding on_markers
  on_markers-Leads host [] st tid ts st' h =
      let same : st' ≡ st = ground arith in rw same (Leads-refl st)
  on_markers-Leads host (m ∷ ms) st tid ts st' h =
      let (next, first, rest) =
        >>=-eq-ok (on_command_marker st tid m ts) (λ next. on_markers next tid ms ts) h in
      Leads-trans st next st' (Leads-call host (marks tid m ts) st next tt (unfold step in first))
        (on_markers-Leads host ms next tid ts st' rest)

  read_report-Leads :
      (host : Host) (c d : Collector) (tid ts : ℕ) (bytes : Option Bytes)
      → read_report c tid ts bytes ≡ ok d
      → Leads k c.execution d.execution
  unfolding read_report marked
  read_report-Leads host c d tid ts none h = cc
  read_report-Leads host c d tid ts (some bytes) h =
      let ((protocol, ms), decoded, rest) =
        >>=-eq-ok (consume c.command_protocol bytes) (marked c tid ts) h in
      let (st, told, last) =
        >>=-eq-ok (on_markers c.execution tid ms ts)
          (λ st. ok (record c { execution = st; command_protocol = protocol })) rest in
      let same : d.execution ≡ st = ground arith in
      rw same (on_markers-Leads host ms c.execution tid ts st told)

  reported-Leads :
      (c d : Collector) (a : Answers) (sc : RawSyscall) (count : ℕ)
      → reported c a sc count ≡ ok d
      → Leads k c.execution d.execution
  unfolding reported
  reported-Leads c d a sc count h = elim (Bool-cases (ltb maximum_command_write count)) [
    | inl long ↦ absurd (ground arith)
    | inr fits ↦
        read_report-Leads a.host c d sc.tid sc.timestamp_ns
          (a.host.read_bytes sc.tid (arg sc 1) count) (ground arith)
  ]

  command_report-Leads :
      (c d : Collector) (a : Answers) (sc : RawSyscall) (result : ℤ)
      → command_report c a sc result ≡ ok d
      → Leads k c.execution d.execution
  unfolding command_report
  command_report-Leads c d a sc (negsuc n) h =
      let same : d ≡ c = ground arith in rw same (Leads-refl c.execution)
  command_report-Leads c d a sc (pos count) h =
      elim (Bool-cases (sc.tid == c.root_pid && receives c.command_channel sc && ltb 0 count)) [
        | inl report ↦ reported-Leads c d a sc count (ground arith)
        | inr quiet ↦ let same : d ≡ c = ground arith in rw same (Leads-refl c.execution)
      ]

  tracked-execution : (c : Collector) (sc : RawSyscall) → (tracked c sc).execution ≡ c.execution
  tracked-execution c sc = ground arith

  exit_recorded-execution :
      (a : Answers) (sc : RawSyscall) (t : Thread) (c : Collector)
      → (exit_recorded a sc t c).execution ≡ on_syscall_exit a.host c.execution sc
  unfolding exit_recorded
  exit_recorded-execution a sc t c = rw (tracked-execution c sc) refl

  syscall_exit-Leads :
      (c d : Collector) (a : Answers) (tid : ℕ) (t : Thread) (r : Registers)
      → syscall_exit c a tid t r ≡ ok d
      → Leads k c.execution d.execution
  unfolding syscall_exit
  syscall_exit-Leads c d a tid t r h =
      let sc = raw_syscall tid t r a.now_ns in
      let (told, first, last) =
        >>=-eq-ok (command_report c a sc sc.result) (λ told. ok (exit_recorded a sc t told)) h in
      let same : d.execution ≡ on_syscall_exit a.host told.execution sc =
        ap (λ x. x.execution) (sym (ok-injective last)) ∙ exit_recorded-execution a sc t told in
      rw same (
        Leads-trans c.execution told.execution (on_syscall_exit a.host told.execution sc)
          (command_report-Leads c told a sc sc.result first)
          (Leads-call a.host (returns sc) told.execution (on_syscall_exit a.host told.execution sc)
            tt (unfold step in refl)))

  pub syscall_stop-Leads :
      (c d : Collector) (a : Answers) (tid : ℕ) (t : Thread) (r : Registers)
      → syscall_stop c a tid t r ≡ ok d
      → Leads k c.execution d.execution
  unfolding syscall_stop
  syscall_stop-Leads c d a tid t r h = elim (Bool-cases t.in_syscall) [
    | inl inside ↦ syscall_exit-Leads c d a tid t r (ground arith)
    | inr outside ↦
        let same : d.execution ≡ c.execution = ground arith in rw same (Leads-refl c.execution)
  ]
