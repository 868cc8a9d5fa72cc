-- ===== src/Collector/Pairing.antt =====
-- The entry and the exit of a system call are put together for each thread by itself.
pub mod Between
use whyrun.Execution.Calls.{RawSyscall}
use whyrun.Collector.{
  waitpid_failed, Failure, Thread, Collector, Wait, interrupted, no_children, wait_failed, exited,
  signaled, stopped, continued, Registers, RegistersAnswer, registers, Answers, Round, again, leave,
  fail, at_end, insert_tid, set_options_failed,
}
use whyrun.Common.Map.{assign, nat_key}
use whyrun.Collector.Calls.{ok-injective}
use whyrun.Collector.Frame.{Frame}
use whyrun.Collector.Frame.Rounds.{on_stop-Frame}
use whyrun.Collector.Syscall.{
  command_report, tracked, raw_syscall, syscall_exit, exit_recorded, entered, thread_of,
  syscall_stop, resume, at_syscall,
}
use whyrun.Collector.Turn.{gone, at_stop, on_stop, turn, syscall_trap}
use whyrun.Common.Int.{ℤ, pos, negsuc}
use whyrun.Common.{
  ℕ, ◌≡◌, ◌≢◌, refl, sym, ap, ◌∙◌, ◌&&◌, Bool, true, false, List, [], ◌∷◌, Option, none, some, ◌==◌,
  if◌then◌else◌, arith, Result, ok, err, ◌>>=◌, >>=-eq-ok, inl, inr, Bool-cases,
}
use whyrun.Execution.Syscalls.{on_syscall_exit}

abbrev pub is_again : Round → Option Collector
is_again (again c) = some c
is_again (leave c) = none
is_again (fail f c) = none

pub again-injective : (c d : Collector) → again c ≡ again d → c ≡ d
again-injective c d h = ground (arith, ap is_again h)

pub failed-again : (f : Failure) (c d : Collector) → ok (fail f c) ≢ ok (again d)
failed-again f c d h = ground (arith, ap is_again (ok-injective h))

-- The state that a system call stop starts from: only the live and the configured threads differ.
pub record Ready (c : Collector) (a : Answers) (tid : ℕ) (r : Registers) (d : Collector)
    : Type 0 where
  pub base : Collector
  pub execution : base.execution ≡ c.execution
  pub threads : base.threads ≡ c.threads
  pub root : base.root_pid ≡ c.root_pid
  pub stops : syscall_stop base a tid (thread_of (base.threads tid)) r ≡ ok d

at_syscall-again :
    (c d : Collector) (a : Answers) (tid : ℕ) (r : Registers)
    → at_syscall c a tid (registers r) ≡ ok (again d)
    → syscall_stop c a tid (thread_of (c.threads tid)) r ≡ ok d
unfolding at_syscall
at_syscall-again c d a tid r h =
    let (next, stops, rest) =
      >>=-eq-ok (syscall_stop c a tid (thread_of (c.threads tid)) r)
        (λ next. ok (resume a tid next)) h in
    stops ∙ ap ok (resumed next (ok-injective rest))
  where
    resumed : (next : Collector) → resume a tid next ≡ again d → next ≡ d
    resumed next e = elim (Bool-cases a.resumed) [
      | inl well ↦ again-injective next d (ground arith)
      | inr lost ↦ absurd (ground (arith, ap is_again e))
    ]

pub on_stop-Ready :
    (c d : Collector) (a : Answers) (tid event : ℕ) (r : Registers)
    → a.registers ≡ registers r
    → on_stop c a tid syscall_trap event ≡ ok (again d)
    → Ready c a tid r d
unfolding on_stop at_stop
on_stop-Ready c d a tid event r answer h =
    let live : Collector = record c { live_tids = insert_tid tid c.live_tids } in
    let new : Collector = record live {
      configured_tids = λ t. if t == tid then true else c.configured_tids t;
    } in
    elim (Bool-cases (c.configured_tids tid)) [
      | inl known ↦ record {
        base = live;
        execution = refl;
        threads = refl;
        root = refl;
        stops = at_syscall-again live d a tid r (ground arith);
      }
      | inr unknown ↦ elim (Bool-cases a.options_set) [
        | inl set ↦ record {
          base = new;
          execution = refl;
          threads = refl;
          root = refl;
          stops = at_syscall-again new d a tid r (ground arith);
        }
        | inr unset ↦ absurd (failed-again (set_options_failed tid) live d (ground arith))
      ]
    ]

pub entry-threads :
    (c d : Collector) (a : Answers) (tid : ℕ) (r : Registers)
    → (thread_of (c.threads tid)).in_syscall ≡ false
    → Ready c a tid r d
    → (d.execution ≡ c.execution) × (d.threads tid ≡ some (entered (thread_of (c.threads tid)) r))
unfolding syscall_stop
entry-threads c d a tid r outside s =
    let t : Thread = thread_of (s.base.threads tid) in
    let same_thread : t ≡ thread_of (c.threads tid) = ap (λ m. thread_of (m tid)) s.threads in
    let e : d ≡ record s.base { threads = assign tid (entered t r) s.base.threads } =
      ground (arith, s.stops, same_thread) in
    (ap (λ x. x.execution) e ∙ s.execution, ap (λ x. x.threads tid) e ∙ ground (arith, same_thread))

quiet_report :
    (c : Collector) (a : Answers) (sc : RawSyscall) (result : ℤ)
    → sc.tid ≢ c.root_pid
    → command_report c a sc result ≡ ok c
unfolding command_report
quiet_report c a sc (pos n) ne = ground arith
quiet_report c a sc (negsuc n) ne = refl

quiet_stop :
    (c : Collector) (a : Answers) (tid : ℕ) (t : Thread) (r : Registers)
    → t.in_syscall ≡ true
    → tid ≢ c.root_pid
    → syscall_stop c a tid t r ≡ ok (exit_recorded a (raw_syscall tid t r a.now_ns) t c)
unfolding syscall_stop syscall_exit
quiet_stop c a tid t r inside ne =
    rw (inside, quiet_report c a (raw_syscall tid t r a.now_ns) r.rax ne) refl

quiet_exit :
    (c : Collector) (a : Answers) (sc : RawSyscall) (t : Thread)
    → sc.tid ≢ c.root_pid
    → ((exit_recorded a sc t c).execution ≡ on_syscall_exit a.host c.execution sc)
      × ((exit_recorded a sc t c).threads sc.tid ≡ some (record t { in_syscall = false }))
unfolding exit_recorded
quiet_exit c a sc t ne = (ground arith, ground arith)

pub exit-threads :
    (c d : Collector) (a : Answers) (tid : ℕ) (t : Thread) (r : Registers)
    → c.threads tid ≡ some t
    → t.in_syscall ≡ true
    → tid ≢ c.root_pid
    → Ready c a tid r d
    → (d.execution ≡ on_syscall_exit a.host c.execution (raw_syscall tid t r a.now_ns))
      × (d.threads tid ≡ some (record t { in_syscall = false }))
exit-threads c d a tid t r known inside ne s =
    let sc = raw_syscall tid t r a.now_ns in
    let same_thread : thread_of (s.base.threads tid) ≡ t =
      ap thread_of (ap (λ m. m tid) s.threads ∙ known) in
    let far : tid ≢ s.base.root_pid = λ e. ne (e ∙ s.root) in
    let e : d ≡ exit_recorded a sc t s.base = ok-injective (
      sym s.stops
      ∙ ap (λ x. syscall_stop s.base a tid x r) same_thread
      ∙ quiet_stop s.base a tid t r inside far) in
    let (execution, threads) = quiet_exit s.base a sc t far in
    (
      ap (λ x. x.execution) e ∙ execution ∙ ap (λ x. on_syscall_exit a.host x sc) s.execution,
      ap (λ x. x.threads tid) e ∙ threads,
    )
