-- ===== src/Collector/Frame.antt =====
-- What a stop of one thread leaves alone: the other threads, and the result so far.
pub mod Rounds
use whyrun.Channel.{receives}
use whyrun.Collector.Calls.{ok-injective}
use whyrun.Collector.Syscall.{
  marked, read_report, reported, command_report, tracked, raw_syscall, syscall_exit, exit_recorded,
  entered, thread_of, syscall_stop, resume, at_syscall, maximum_command_write, on_markers,
}
use whyrun.Collector.Turn.{created, at_event, at_stop, on_stop, syscall_trap, sigtrap, event_exec}
use whyrun.Collector.{
  Thread, Collector, Registers, RegistersAnswer, registers, no_such_process, refused, Answers,
  Round, again, leave, fail, at_end, insert_tid, set_options_failed,
}
use whyrun.Common.Int.{ℤ, pos, negsuc}
use whyrun.Common.Map.{nat_key, assign}
use whyrun.Common.{
  ℕ, ◌≡◌, ◌≢◌, refl, sym, ap, ◌∙◌, ◌&&◌, ◌||◌, not, Bool, true, false, List, Option, none, some,
  ◌==◌, ltb, if◌then◌else◌, arith, Bytes, Result, ok, err, ◌>>=◌, >>=-eq-ok, inl, inr, Bool-cases,
}
use whyrun.Execution.Calls.{RawSyscall, arg}
use whyrun.Execution.Processes.{event_fork, event_vfork, event_clone}
use whyrun.Session.{Marker, Protocol, consume}

pub record Frame (tid : ℕ) (c d : Collector) : Type 0 where
  pub root : d.root_pid ≡ c.root_pid
  pub code : d.exit_code ≡ c.exit_code
  pub signal : d.term_signal ≡ c.term_signal
  pub seen : d.root_status_seen ≡ c.root_status_seen
  pub others : (j : ℕ) → j ≢ tid → d.threads j ≡ c.threads j

module _ (tid : ℕ) where
  pub Frame-refl : (c : Collector) → Frame tid c c
  Frame-refl c = record {
    root = refl;
    code = refl;
    signal = refl;
    seen = refl;
    others = λ j ne. refl;
  }

  pub Frame-trans : (c d e : Collector) → Frame tid c d → Frame tid d e → Frame tid c e
  Frame-trans c d e f g = record {
    root = g.root ∙ f.root;
    code = g.code ∙ f.code;
    signal = g.signal ∙ f.signal;
    seen = g.seen ∙ f.seen;
    others = λ j ne. g.others j ne ∙ f.others j ne;
  }

  read_report-Frame :
      (c d : Collector) (t ts : ℕ) (bytes : Option Bytes)
      → read_report c t ts bytes ≡ ok d
      → Frame tid c d
  unfolding read_report marked
  read_report-Frame c d t ts none h = cc
  read_report-Frame c d t ts (some bytes) h =
      let ((protocol, ms), decoded, rest) =
        >>=-eq-ok (consume c.command_protocol bytes) (marked c t ts) h in
      let (st, told, last) =
        >>=-eq-ok (on_markers c.execution t ms ts)
          (λ st. ok (record c { execution = st; command_protocol = protocol })) rest in
      let same = ok-injective last in
      rw (sym same)
        (record { root = refl; code = refl; signal = refl; seen = refl; others = λ j ne. refl })

  reported-Frame :
      (c d : Collector) (a : Answers) (sc : RawSyscall) (count : ℕ)
      → reported c a sc count ≡ ok d
      → Frame tid c d
  unfolding reported
  reported-Frame c d a sc count h = elim (Bool-cases (ltb maximum_command_write count)) [
    | inl long ↦ absurd (ground arith)
    | inr fits ↦
        read_report-Frame c d sc.tid sc.timestamp_ns (a.host.read_bytes sc.tid (arg sc 1) count)
          (ground arith)
  ]

  command_report-Frame :
      (c d : Collector) (a : Answers) (sc : RawSyscall) (result : ℤ)
      → command_report c a sc result ≡ ok d
      → Frame tid c d
  unfolding command_report
  command_report-Frame c d a sc (negsuc n) h =
      let same : d ≡ c = ground arith in rw same (Frame-refl c)
  command_report-Frame c d a sc (pos count) h =
      elim (Bool-cases (sc.tid == c.root_pid && receives c.command_channel sc && ltb 0 count)) [
        | inl report ↦ reported-Frame c d a sc count (ground arith)
        | inr quiet ↦ let same : d ≡ c = ground arith in rw same (Frame-refl c)
      ]

  tracked-Frame : (c : Collector) (sc : RawSyscall) → Frame tid c (tracked c sc)
  tracked-Frame c sc = elim (Bool-cases (sc.tid == c.root_pid)) [
    | inl hit ↦
        rw hit
          (record { root = refl; code = refl; signal = refl; seen = refl; others = λ j ne. refl })
    | inr other ↦ rw other (Frame-refl c)
  ]

  exit_recorded-Frame :
      (a : Answers) (sc : RawSyscall) (t : Thread) (c : Collector)
      → sc.tid ≡ tid
      → Frame tid c (exit_recorded a sc t c)
  unfolding exit_recorded
  exit_recorded-Frame a sc t c e =
      let f = tracked-Frame c sc in
      record {
        root = f.root;
        code = f.code;
        signal = f.signal;
        seen = f.seen;
        others = λ j ne. ground (arith, f.others j ne);
      }

  syscall_exit-Frame :
      (c d : Collector) (a : Answers) (t : Thread) (r : Registers)
      → syscall_exit c a tid t r ≡ ok d
      → Frame tid c d
  unfolding syscall_exit
  syscall_exit-Frame c d a t r h =
      let sc = raw_syscall tid t r a.now_ns in
      let (told, first, last) =
        >>=-eq-ok (command_report c a sc sc.result) (λ told. ok (exit_recorded a sc t told)) h in
      rw (sym (ok-injective last)) (
        Frame-trans c told (exit_recorded a sc t told)
          (command_report-Frame c told a sc sc.result first) (exit_recorded-Frame a sc t told refl))

  pub syscall_stop-Frame :
      (c d : Collector) (a : Answers) (t : Thread) (r : Registers)
      → syscall_stop c a tid t r ≡ ok d
      → Frame tid c d
  unfolding syscall_stop
  syscall_stop-Frame c d a t r h = elim (Bool-cases t.in_syscall) [
    | inl inside ↦ syscall_exit-Frame c d a t r (ground arith)
    | inr outside ↦
        let same : d ≡ record c { threads = assign tid (entered t r) c.threads } = ground arith in
        rw same (record {
          root = refl;
          code = refl;
          signal = refl;
          seen = refl;
          others = λ j ne. ground arith;
        })
  ]
