-- ===== src/Collector/Turn.antt =====
-- One round of the loop.
use whyrun.Collector.Syscall.{at_syscall, resume}
use whyrun.Collector.{
  Thread, Collector, Wait, interrupted, no_children, wait_failed, exited, signaled, stopped,
  continued, Answers, waitpid_failed, set_options_failed, event_message_failed, Round, again, leave,
  fail, insert_tid, erase_tid,
}
use whyrun.Common.Int.{ℤ, pos, negsuc}
use whyrun.Common.Map.{nat_key, erase}
use whyrun.Common.{
  ℕ, ◌+◌, ◌&&◌, ◌||◌, not, true, false, Option, none, some, ◌==◌, if◌then◌else◌, get_or, Result, ok,
}
use whyrun.Execution.Processes.{
  on_process_exit, on_process_created, on_process_exec, event_fork, event_vfork, event_clone,
}

abbrev pub sigtrap : ℕ
sigtrap = 5

abbrev pub sigstop : ℕ
sigstop = 19

-- `SIGTRAP | 0x80`
abbrev pub syscall_trap : ℕ
syscall_trap = 133

abbrev pub event_exec : ℕ
event_exec = 4

-- A thread is gone.
unfoldable pub gone : Collector → Answers → ℕ → ℤ → ℕ → Collector
gone c a tid exit_code term_signal =
    let c' : Collector = record c {
      execution = on_process_exit c.execution tid exit_code term_signal a.now_ns;
      live_tids = erase_tid tid c.live_tids;
      configured_tids = λ t. if t == tid then false else c.configured_tids t;
      threads = erase tid c.threads;
    } in
    if tid == c.root_pid
    then record c' {
      exit_code = if term_signal == 0 then exit_code else pos (128 + term_signal);
      term_signal = term_signal;
      root_status_seen = true;
    }
    else c'

-- The first argument of the call that the thread is in.
abbrev pub clone_flags : Option Thread → ℕ
clone_flags none = 0
clone_flags (some t) = get_or t.args 0 0

unfoldable pub created : Collector → Answers → ℕ → ℕ → Option ℕ → Round
created c a tid event none = fail (event_message_failed tid) c
created c a tid event (some child) = resume a tid (record c {
  execution = on_process_created c.execution tid child event (clone_flags (c.threads tid)) a.now_ns;
  live_tids = insert_tid child c.live_tids;
})

-- A stop with a ptrace event.
unfoldable pub at_event : Collector → Answers → ℕ → ℕ → Round
unfolding created
at_event c a tid event =
    if event == event_fork || event == event_vfork || event == event_clone
    then created c a tid event a.event_message
    else if event == event_exec
    then resume a tid (record c { execution = on_process_exec a.host c.execution tid a.now_ns })
    else resume a tid c

unfoldable pub at_stop : Collector → Answers → ℕ → ℕ → ℕ → Result Round
unfolding at_syscall at_event
at_stop c a tid stop_signal event =
    if stop_signal == syscall_trap
    then at_syscall c a tid a.registers
    else if stop_signal == sigtrap && not (event == 0)
    then ok (at_event c a tid event)
    else ok (resume a tid c)

-- A thread is configured at its first stop.
unfoldable pub on_stop : Collector → Answers → ℕ → ℕ → ℕ → Result Round
unfolding at_stop
on_stop c a tid stop_signal event =
    let c' : Collector = record c { live_tids = insert_tid tid c.live_tids } in
    if c.configured_tids tid
    then at_stop c' a tid stop_signal event
    else if a.options_set
    then at_stop
        (record c' { configured_tids = λ t. if t == tid then true else c.configured_tids t }) a tid
        stop_signal event
    else ok (fail (set_options_failed tid) c')

unfoldable pub turn : Collector → Wait × Answers → Result Round
unfolding gone on_stop
turn c (interrupted, a) = ok (again c)
turn c (no_children, a) = ok (leave c)
turn c (wait_failed, a) = ok (fail waitpid_failed c)
turn c (exited tid code, a) = ok (again (gone c a tid (pos code) 0))
turn c (signaled tid sig, a) = ok (again (gone c a tid (negsuc 0) sig))
turn c (stopped tid stop_signal event, a) = on_stop c a tid stop_signal event
turn c (continued tid, a) = ok (again c)
