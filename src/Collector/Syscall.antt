-- ===== src/Collector/Syscall.antt =====
-- The stops of a thread at the entry and at the exit of a system call.
use whyrun.Channel.{receives, observe}
use whyrun.Collector.{
  Thread, new_thread, Collector, Registers, RegistersAnswer, registers, no_such_process, refused,
  Answers, registers_failed, resume_failed, Round, again, fail,
}
use whyrun.Common.Int.{ℤ, pos, negsuc}
use whyrun.Common.Map.{nat_key, assign}
use whyrun.Common.{
  ℕ, ◌&&◌, ◌*◌, true, false, List, [], ◌∷◌, Option, none, some, ◌==◌, ltb, if◌then◌else◌, Bytes,
  Result, ok, err, ◌>>=◌, write_too_large, unreadable_marker,
}
use whyrun.Execution.Calls.{RawSyscall, arg}
use whyrun.Execution.Markers.{on_command_marker}
use whyrun.Execution.State.{State}
use whyrun.Execution.Syscalls.{on_syscall_exit}
use whyrun.Session.{Marker, Protocol, consume}

abbrev pub maximum_command_write : ℕ
maximum_command_write = 65 * 1024

-- The loop over the markers of one write.
unfoldable pub on_markers : State → ℕ → List Marker → ℕ → Result State
on_markers st tid [] ts = ok st
on_markers st tid (m ∷ ms) ts = do next ← on_command_marker st tid m ts; on_markers next tid ms ts

unfoldable pub marked : Collector → ℕ → ℕ → Protocol × List Marker → Result Collector
marked c tid ts (protocol, markers) = do
  st ← on_markers c.execution tid markers ts
  ok (record c { execution = st; command_protocol = protocol })

unfoldable pub read_report : Collector → ℕ → ℕ → Option Bytes → Result Collector
read_report c tid ts none = err unreadable_marker
read_report c tid ts (some bytes) = do
  decoded ← consume c.command_protocol bytes
  marked c tid ts decoded

-- A `write` of the root that returned `count`, which is above 0.
unfoldable pub reported : Collector → Answers → RawSyscall → ℕ → Result Collector
reported c a sc count =
    if ltb maximum_command_write count
    then err write_too_large
    else read_report c sc.tid sc.timestamp_ns (a.host.read_bytes sc.tid (arg sc 1) count)

unfoldable pub command_report : Collector → Answers → RawSyscall → ℤ → Result Collector
command_report c a sc (negsuc n) = ok c
command_report c a sc (pos count) =
    if sc.tid == c.root_pid && receives c.command_channel sc && ltb 0 count
    then reported c a sc count
    else ok c

-- The channel's tracker sees the calls of the root.
abbrev pub tracked : Collector → RawSyscall → Collector
tracked c sc =
    if sc.tid == c.root_pid then record c { command_channel = observe c.command_channel sc } else c

abbrev pub raw_syscall : ℕ → Thread → Registers → ℕ → RawSyscall
raw_syscall tid t r now = record {
  tid = tid;
  number = t.syscall_number;
  args = t.args;
  result = r.rax;
  timestamp_ns = now;
}

-- The end of the call, behind the report.
unfoldable pub exit_recorded : Answers → RawSyscall → Thread → Collector → Collector
exit_recorded a sc t told =
    let seen = tracked told sc in
    record seen {
      execution = on_syscall_exit a.host seen.execution sc;
      threads = assign sc.tid (record t { in_syscall = false }) seen.threads;
    }

unfoldable pub syscall_exit : Collector → Answers → ℕ → Thread → Registers → Result Collector
syscall_exit c a tid t r =
    let sc = raw_syscall tid t r a.now_ns in
    do told ← command_report c a sc sc.result; ok (exit_recorded a sc t told)

abbrev pub entered : Thread → Registers → Thread
entered t r = record t { in_syscall = true; syscall_number = r.orig_rax; args = r.args }

-- `threads[tid]`
abbrev pub thread_of : Option Thread → Thread
thread_of none = new_thread
thread_of (some t) = t

unfoldable pub syscall_stop : Collector → Answers → ℕ → Thread → Registers → Result Collector
syscall_stop c a tid t r =
    if t.in_syscall
    then syscall_exit c a tid t r
    else ok (record c { threads = assign tid (entered t r) c.threads })

abbrev pub resume : Answers → ℕ → Collector → Round
resume a tid c = if a.resumed then again c else fail (resume_failed tid) c

unfoldable pub at_syscall : Collector → Answers → ℕ → RegistersAnswer → Result Round
at_syscall c a tid (registers r) = do
  next ← syscall_stop c a tid (thread_of (c.threads tid)) r
  ok (resume a tid next)
at_syscall c a tid no_such_process = ok (resume a tid c)
at_syscall c a tid refused = ok (fail (registers_failed tid) c)
