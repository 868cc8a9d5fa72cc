-- ===== src/Collector/Frame/Rounds.antt =====
-- What a whole round at a stop leaves alone.
use whyrun.Collector.Frame.{Frame, Frame-refl, Frame-trans, syscall_stop-Frame}
use whyrun.Collector.Calls.{ok-injective}
use whyrun.Collector.Syscall.{thread_of, syscall_stop, resume, at_syscall}
use whyrun.Collector.Turn.{created, at_event, at_stop, on_stop, syscall_trap, sigtrap, event_exec}
use whyrun.Collector.{
  Collector, RegistersAnswer, registers, no_such_process, refused, Answers, Round, fail, at_end,
  insert_tid, set_options_failed,
}
use whyrun.Common.Map.{nat_key}
use whyrun.Common.{
  ℕ, ◌≡◌, refl, sym, ◌&&◌, ◌||◌, not, true, Option, none, some, ◌==◌, if◌then◌else◌, arith, ok,
  >>=-eq-ok, inl, inr, Bool-cases,
}
use whyrun.Execution.Processes.{event_fork, event_vfork, event_clone}

module _ (tid : ℕ) where
  -- A change of the recording, of the live threads or of the configured ones.
  apart :
      (c d : Collector)
      → d.root_pid ≡ c.root_pid
      → d.exit_code ≡ c.exit_code
      → d.term_signal ≡ c.term_signal
      → d.root_status_seen ≡ c.root_status_seen
      → d.threads ≡ c.threads
      → Frame tid c d
  apart c d root code signal seen threads = record {
    root = root;
    code = code;
    signal = signal;
    seen = seen;
    others = λ j ne. rw threads refl;
  }

  resume-Frame :
      (c d : Collector) (a : Answers) → Frame tid c d → Frame tid c (at_end (resume a tid d))
  resume-Frame c d a f = elim (Bool-cases a.resumed) [
    | inl resumed ↦ rw resumed f
    | inr lost ↦ rw lost f
  ]

  at_syscall-Frame :
      (c : Collector) (a : Answers) (regs : RegistersAnswer) (round : Round)
      → at_syscall c a tid regs ≡ ok round
      → Frame tid c (at_end round)
  unfolding at_syscall
  at_syscall-Frame c a (registers r) round h =
      let (next, stopped_at, rest) =
        >>=-eq-ok (syscall_stop c a tid (thread_of (c.threads tid)) r)
          (λ next. ok (resume a tid next)) h in
      rw (sym (ok-injective rest)) (
        resume-Frame c next a
          (syscall_stop-Frame tid c next a (thread_of (c.threads tid)) r stopped_at))
  at_syscall-Frame c a no_such_process round h =
      rw (sym (ok-injective h)) (resume-Frame c c a (Frame-refl tid c))
  at_syscall-Frame c a refused round h = rw (sym (ok-injective h)) (Frame-refl tid c)

  created-Frame :
      (c : Collector) (a : Answers) (event : ℕ) (message : Option ℕ)
      → Frame tid c (at_end (created c a tid event message))
  unfolding created
  created-Frame c a event none = Frame-refl tid c
  created-Frame c a event (some child) = resume-Frame c _ a (apart c _ refl refl refl refl refl)

  at_event-Frame :
      (c : Collector) (a : Answers) (event : ℕ) → Frame tid c (at_end (at_event c a tid event))
  unfolding at_event
  at_event-Frame c a event =
      elim (Bool-cases (event == event_fork || event == event_vfork || event == event_clone)) [
        | inl child ↦ rw child (created-Frame c a event a.event_message)
        | inr no_child ↦ elim (Bool-cases (event == event_exec)) [
          | inl exec ↦ rw (no_child, exec) (resume-Frame c _ a (apart c _ refl refl refl refl refl))
          | inr rests ↦ rw (no_child, rests) (resume-Frame c c a (Frame-refl tid c))
        ]
      ]

  at_stop-Frame :
      (c : Collector) (a : Answers) (stop_signal event : ℕ) (round : Round)
      → at_stop c a tid stop_signal event ≡ ok round
      → Frame tid c (at_end round)
  unfolding at_stop
  at_stop-Frame c a stop_signal event round h = elim (Bool-cases (stop_signal == syscall_trap)) [
    | inl syscall ↦ at_syscall-Frame c a a.registers round (ground arith)
    | inr rest ↦ elim (Bool-cases (stop_signal == sigtrap && not (event == 0))) [
      | inl trap ↦
          let same : round ≡ at_event c a tid event = ground arith in
          rw same (at_event-Frame c a event)
      | inr signal ↦
          let same : round ≡ resume a tid c = ground arith in
          rw same (resume-Frame c c a (Frame-refl tid c))
    ]
  ]

  pub on_stop-Frame :
      (c : Collector) (a : Answers) (stop_signal event : ℕ) (round : Round)
      → on_stop c a tid stop_signal event ≡ ok round
      → Frame tid c (at_end round)
  unfolding on_stop
  on_stop-Frame c a stop_signal event round h =
      let live : Collector = record c { live_tids = insert_tid tid c.live_tids } in
      let new : Collector = record live {
        configured_tids = λ t. if t == tid then true else c.configured_tids t;
      } in
      elim (Bool-cases (c.configured_tids tid)) [
        | inl known ↦
            Frame-trans tid c live (at_end round) (apart c live refl refl refl refl refl)
              (at_stop-Frame live a stop_signal event round (ground arith))
        | inr unknown ↦ elim (Bool-cases a.options_set) [
          | inl set ↦
              Frame-trans tid c new (at_end round) (apart c new refl refl refl refl refl)
                (at_stop-Frame new a stop_signal event round (ground arith))
          | inr unset ↦
              let same : round ≡ fail (set_options_failed tid) live = ground arith in
              rw same (apart c live refl refl refl refl refl)
        ]
      ]
