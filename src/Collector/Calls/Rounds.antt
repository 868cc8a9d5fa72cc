-- ===== src/Collector/Calls/Rounds.antt =====
-- A whole round at a stop calls handlers of `ExecutionState` and nothing else.
use whyrun.Collector.Calls.{ok-injective, Leads, Leads-refl, Leads-call, syscall_stop-Leads}
use whyrun.Execution.Processes.{
  on_process_created, on_process_exec, event_fork, event_vfork, event_clone,
}
use whyrun.Collector.{
  at_end, Collector, RegistersAnswer, registers, no_such_process, refused, Answers, Round,
}
use whyrun.Common.Map.{nat_key}
use whyrun.Collector.Syscall.{thread_of, syscall_stop, resume, at_syscall}
use whyrun.Collector.Turn.{
  clone_flags, created, at_event, at_stop, syscall_trap, sigtrap, event_exec,
}
use whyrun.Common.{
  ℕ, ◌≡◌, ◌≢◌, refl, sym, ap, ◌&&◌, ◌||◌, not, Option, none, some, ◌==◌, arith, ok, >>=-eq-ok, inl,
  inr, Bool-cases,
}
use whyrun.Execution.Run.{execs, creates, step}

module _ (k : ℕ) where
  resume-at_end : (a : Answers) (tid : ℕ) (c : Collector) → at_end (resume a tid c) ≡ c
  resume-at_end a tid c = ground arith

  at_syscall-Leads :
      (c : Collector) (a : Answers) (tid : ℕ) (regs : RegistersAnswer) (round : Round)
      → at_syscall c a tid regs ≡ ok round
      → Leads k c.execution (at_end round).execution
  unfolding at_syscall
  at_syscall-Leads c a tid (registers r) round h =
      let (next, stopped_at, rest) =
        >>=-eq-ok (syscall_stop c a tid (thread_of (c.threads tid)) r)
          (λ next. ok (resume a tid next)) h in
      rw (sym (ok-injective rest), resume-at_end a tid next)
        (syscall_stop-Leads k c next a tid (thread_of (c.threads tid)) r stopped_at)
  at_syscall-Leads c a tid no_such_process round h =
      rw (sym (ok-injective h), resume-at_end a tid c) (Leads-refl k c.execution)
  at_syscall-Leads c a tid refused round h = rw (sym (ok-injective h)) (Leads-refl k c.execution)

  created-Leads :
      (c : Collector) (a : Answers) (tid event : ℕ) (message : Option ℕ)
      → message ≢ some k
      → Leads k c.execution (at_end (created c a tid event message)).execution
  unfolding created
  created-Leads c a tid event none spared = Leads-refl k c.execution
  created-Leads c a tid event (some child) spared = rw (resume-at_end a tid) (
      Leads-call k a.host (creates tid child event (clone_flags (c.threads tid)) a.now_ns)
        c.execution
        (on_process_created c.execution tid child event (clone_flags (c.threads tid)) a.now_ns)
        (λ same. spared (ap some same)) (unfold step in refl))

  at_event-Leads :
      (c : Collector) (a : Answers) (tid event : ℕ)
      → a.event_message ≢ some k
      → Leads k c.execution (at_end (at_event c a tid event)).execution
  unfolding at_event
  at_event-Leads c a tid event spared =
      elim (Bool-cases (event == event_fork || event == event_vfork || event == event_clone)) [
        | inl child ↦ rw child (created-Leads c a tid event a.event_message spared)
        | inr no_child ↦ elim (Bool-cases (event == event_exec)) [
          | inl exec ↦
              rw (no_child, exec, resume-at_end a tid)
                (Leads-call k a.host (execs tid a.now_ns) c.execution
                  (on_process_exec a.host c.execution tid a.now_ns) tt (unfold step in refl))
          | inr rests ↦ rw (no_child, rests, resume-at_end a tid c) (Leads-refl k c.execution)
        ]
      ]

  pub at_stop-Leads :
      (c : Collector) (a : Answers) (tid stop_signal event : ℕ) (round : Round)
      → a.event_message ≢ some k
      → at_stop c a tid stop_signal event ≡ ok round
      → Leads k c.execution (at_end round).execution
  unfolding at_stop
  at_stop-Leads c a tid stop_signal event round spared h =
      elim (Bool-cases (stop_signal == syscall_trap)) [
        | inl syscall ↦ at_syscall-Leads c a tid a.registers round (ground arith)
        | inr rest ↦ elim (Bool-cases (stop_signal == sigtrap && not (event == 0))) [
          | inl trap ↦
              let same : round ≡ at_event c a tid event = ground arith in
              rw same (at_event-Leads c a tid event spared)
          | inr signal ↦
              let same : round ≡ resume a tid c = ground arith in
              rw (same, resume-at_end a tid c) (Leads-refl k c.execution)
        ]
      ]
