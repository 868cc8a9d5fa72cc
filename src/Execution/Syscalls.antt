-- ===== src/Execution/Syscalls.antt =====
-- `on_syscall_exit` of src/execution_state.cpp.
use whyrun.Execution.Calls.{
  RawSyscall, nr_read, nr_write, nr_open, nr_close, nr_dup, nr_dup2, nr_socket, nr_connect,
  nr_chdir, nr_fchdir, nr_openat, nr_dup3, nr_openat2,
}
use whyrun.Execution.Opens.{on_open, on_openat}
use whyrun.Execution.Descriptors.{
  on_transfer, on_close, on_dup, on_socket, on_connect, on_chdir, on_fchdir,
}
use whyrun.Common.Int.{pos, int_eq}
use whyrun.Common.Map.{int_key}
use whyrun.Common.{◌||◌, ◌&&◌, Option, none, some, ◌==◌, if◌then◌else◌}
use whyrun.Execution.State.{ProcessState, State, find_process}
use whyrun.Host.{Host}

-- The tests of `on_syscall_exit`, in their order.
unfoldable pub dispatch : Host → State → RawSyscall → ProcessState → State
unfolding on_open on_openat on_transfer on_close on_dup on_socket on_connect on_chdir on_fchdir
dispatch host st sc p =
    if sc.number == nr_open
    then on_open host st sc p
    else if sc.number == nr_openat || sc.number == nr_openat2
    then on_openat host st sc p
    else if sc.number == nr_read || sc.number == nr_write
    then on_transfer st sc p
    else if sc.number == nr_close
    then on_close st sc p
    else if sc.number == nr_dup || sc.number == nr_dup2 || sc.number == nr_dup3
    then on_dup st sc p
    else if sc.number == nr_socket
    then on_socket st sc p
    else if sc.number == nr_connect
    then on_connect host st sc p
    else if sc.number == nr_chdir && int_eq sc.result (pos 0)
    then on_chdir host st sc p
    else if sc.number == nr_fchdir && int_eq sc.result (pos 0)
    then on_fchdir st sc p
    else st

unfoldable pub syscall_of : Host → State → RawSyscall → Option ProcessState → State
unfolding dispatch
syscall_of host st sc none = st
syscall_of host st sc (some p) = dispatch host st sc p

unfoldable pub on_syscall_exit : Host → State → RawSyscall → State
unfolding syscall_of find_process
on_syscall_exit host st sc = syscall_of host st sc (find_process st sc.tid)
