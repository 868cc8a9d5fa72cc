-- ===== src/Collector/Pairing/Between.antt =====
-- What the rounds of other threads do between the entry and the exit of a system call.
use whyrun.Collector.Pairing.{
  is_again, again-injective, failed-again, on_stop-Ready, entry-threads, exit-threads,
}
use whyrun.Collector.{
  waitpid_failed, Thread, Collector, Wait, interrupted, no_children, wait_failed, exited, signaled,
  stopped, continued, Registers, registers, Answers, again,
}
use whyrun.Common.Map.{nat_key}
use whyrun.Collector.Calls.{ok-injective}
use whyrun.Collector.Frame.Rounds.{on_stop-Frame}
use whyrun.Collector.Syscall.{entered, thread_of}
use whyrun.Collector.Turn.{gone, turn, syscall_trap}
use whyrun.Common.Int.{ℤ, pos, negsuc}
use whyrun.Common.{ℕ, ◌≡◌, ◌≢◌, refl, sym, ap, ◌∙◌, Bool, false, ◌==◌, arith, ok}
use whyrun.Execution.Syscalls.{on_syscall_exit}

-- Rounds that are not about the thread.
abbrev pub is_about : ℕ → Wait → Bool
is_about tid (exited t code) = t == tid
is_about tid (signaled t sig) = t == tid
is_about tid (stopped t stop_signal event) = t == tid
is_about tid _ = false

pub data Meanwhile (tid : ℕ) : Collector → Collector → Type 0 where
  at_once : {c : Collector} → Meanwhile tid c c
  after_round :
      {c d e : Collector} (w : Wait) (a : Answers)
      → is_about tid w ≡ false
      → turn c (w, a) ≡ ok (again d)
      → Meanwhile tid d e
      → Meanwhile tid c e

gone-threads :
    (c : Collector) (a : Answers) (t : ℕ) (code : ℤ) (sig tid : ℕ)
    → (t == tid) ≡ false
    → (gone c a t code sig).threads tid ≡ c.threads tid
unfolding gone
gone-threads c a t code sig tid other = ground arith

turn-threads :
    (c d : Collector) (w : Wait) (a : Answers) (tid : ℕ)
    → is_about tid w ≡ false
    → turn c (w, a) ≡ ok (again d)
    → d.threads tid ≡ c.threads tid
unfolding turn
turn-threads c d interrupted a tid other h = ground (arith, again-injective c d (ok-injective h))
turn-threads c d no_children a tid other h = absurd (ground (arith, ap is_again (ok-injective h)))
turn-threads c d wait_failed a tid other h = absurd (failed-again waitpid_failed c d h)
turn-threads c d (exited t code) a tid other h =
    ap (λ x. x.threads tid) (sym (again-injective (gone c a t (pos code) 0) d (ok-injective h)))
    ∙ gone-threads c a t (pos code) 0 tid other
turn-threads c d (signaled t sig) a tid other h =
    ap (λ x. x.threads tid) (sym (again-injective (gone c a t (negsuc 0) sig) d (ok-injective h)))
    ∙ gone-threads c a t (negsuc 0) sig tid other
turn-threads c d (stopped t stop_signal event) a tid other h =
    (on_stop-Frame t c a stop_signal event (again d) h).others tid (ground arith)
turn-threads c d (continued t) a tid other h = ground (arith, again-injective c d (ok-injective h))

Meanwhile-threads : (tid : ℕ) (c d : Collector) → Meanwhile tid c d → d.threads tid ≡ c.threads tid
Meanwhile-threads tid c d at_once = refl
Meanwhile-threads tid c e (after_round {d = d} w a other h rest) =
    Meanwhile-threads tid d e rest ∙ turn-threads c d w a tid other h

-- A thread that is not in a system call stops at the entry of one and, whatever the other threads do
-- meanwhile, stops again: the recorder is told of one call, with the number and the arguments from
-- the registers at the entry and the result from those at the exit, and of no call at the entry;
-- the thread is then in no system call again. The thread is not the root's.
pub entry-exit :
    (c d e f : Collector) (a b : Answers) (tid entry_event exit_event : ℕ) (r s : Registers)
    → (thread_of (c.threads tid)).in_syscall ≡ false
    → a.registers ≡ registers r
    → b.registers ≡ registers s
    → tid ≢ e.root_pid
    → turn c (stopped tid syscall_trap entry_event, a) ≡ ok (again d)
    → Meanwhile tid d e
    → turn e (stopped tid syscall_trap exit_event, b) ≡ ok (again f)
    → (d.execution ≡ c.execution)
      × (f.execution
          ≡ on_syscall_exit b.host e.execution (record {
            tid = tid;
            number = r.orig_rax;
            args = r.args;
            result = s.rax;
            timestamp_ns = b.now_ns;
          }))
      × ((thread_of (f.threads tid)).in_syscall ≡ false)
unfolding turn
entry-exit c d e f a b tid entry_event exit_event r s outside entry_registers exit_registers ne h m
      g =
    let (execution, entered_with) =
      entry-threads c d a tid r outside (on_stop-Ready c d a tid entry_event r entry_registers h) in
    let t : Thread = entered (thread_of (c.threads tid)) r in
    let (told, left_with) =
      exit-threads e f b tid t s (Meanwhile-threads tid d e m ∙ entered_with) refl ne
        (on_stop-Ready e f b tid exit_event s exit_registers g) in
    (execution, told, ap (λ x. (thread_of x).in_syscall) left_with)
