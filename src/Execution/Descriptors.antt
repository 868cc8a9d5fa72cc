-- ===== src/Execution/Descriptors.antt =====
-- The other branches of `on_syscall_exit`.
use whyrun.Execution.Calls.{
  RawSyscall, arg, nr_read, at_fdcwd, is_file, is_socket, resolve_path, make_event,
}
use whyrun.Execution.Opens.{opened}
use whyrun.Common.Int.{pos, is_negative, int_eq, int_of_word, int_of_long}
use whyrun.Common.Map.{int_key, assign, erase}
use whyrun.Common.Number.{to_string, int_to_string}
use whyrun.Common.{not, false, Option, none, some, ◌==◌, if◌then◌else◌, Bytes, codes, is_empty}
use whyrun.Endpoint.{SocketEndpoint, socket_endpoint}
use whyrun.Event.{Event, file_read, file_write}
use whyrun.Execution.Events.{with_meta}
use whyrun.Execution.State.{socket, Resource, ProcessState, State, write_process, emit}
use whyrun.Host.{Host}

unfoldable pub transfer_event : RawSyscall → ProcessState → Bytes → Event
unfolding make_event
transfer_event sc p name = with_meta (codes "requested_bytes") (to_string (arg sc 2)) (
    with_meta (codes "fd") (int_to_string (int_of_word (arg sc 0)))
      (make_event p sc (if sc.number == nr_read then file_read else file_write) name))

unfoldable pub transfer_of : State → RawSyscall → ProcessState → Option Resource → State
unfolding transfer_event
transfer_of st sc p none = st
transfer_of st sc p (some r) = if not (is_file r) then st else emit st (transfer_event sc p r.name)

-- `read` and `write`
unfoldable pub on_transfer : State → RawSyscall → ProcessState → State
unfolding transfer_of
on_transfer st sc p = transfer_of st sc p (p.fd_table (int_of_word (arg sc 0)))

unfoldable pub on_close : State → RawSyscall → ProcessState → State
on_close st sc p =
    if int_eq sc.result (pos 0)
    then write_process st sc.tid (record p { fd_table = erase (int_of_word (arg sc 0)) p.fd_table })
    else st

unfoldable pub dup_of : State → RawSyscall → ProcessState → Option Resource → State
dup_of st sc p none =
    write_process st sc.tid (record p { fd_table = erase (int_of_long sc.result) p.fd_table })
dup_of st sc p (some r) = opened st sc p r

unfoldable pub on_dup : State → RawSyscall → ProcessState → State
unfolding dup_of
on_dup st sc p =
    if is_negative sc.result then st else dup_of st sc p (p.fd_table (int_of_word (arg sc 0)))

unfoldable pub on_socket : State → RawSyscall → ProcessState → State
on_socket st sc p =
    if not (is_negative sc.result)
    then opened st sc p (record { type = socket; name = codes "<socket>"; is_directory = false })
    else st

-- The socket takes the name of its peer.
unfoldable pub rename_socket : State → RawSyscall → ProcessState → Bytes → Option Resource → State
rename_socket st sc p name none = st
rename_socket st sc p name (some r) =
    if is_socket r
    then write_process st sc.tid (record p {
      fd_table = assign (int_of_word (arg sc 0)) (record r { name = name }) p.fd_table;
    })
    else st

unfoldable pub connect_event : RawSyscall → ProcessState → SocketEndpoint → Event
unfolding make_event
connect_event sc p endpoint = with_meta (codes "family") endpoint.family_name (
    with_meta (codes "fd") (int_to_string (int_of_word (arg sc 0))) (
      with_meta (codes "operation") (codes "connect")
        (make_event p sc endpoint.event_type endpoint.resource)))

unfoldable pub connect_to : State → RawSyscall → ProcessState → Option SocketEndpoint → State
unfolding connect_event rename_socket
connect_to st sc p none = st
connect_to st sc p (some endpoint) =
    rename_socket (emit st (connect_event sc p endpoint)) sc p endpoint.resource
      (p.fd_table (int_of_word (arg sc 0)))

unfoldable pub on_connect : Host → State → RawSyscall → ProcessState → State
unfolding connect_to
on_connect host st sc p = connect_to st sc p (socket_endpoint host sc.tid (arg sc 1) (arg sc 2))

unfoldable pub on_chdir : Host → State → RawSyscall → ProcessState → State
unfolding resolve_path
on_chdir host st sc p =
    let raw = host.read_string sc.tid (arg sc 0) in
    if is_empty raw
    then st
    else write_process st sc.tid (record p { cwd = resolve_path p at_fdcwd raw })

unfoldable pub fchdir_to : State → RawSyscall → ProcessState → Option Resource → State
fchdir_to st sc p none = st
fchdir_to st sc p (some r) =
    if is_file r then write_process st sc.tid (record p { cwd = r.name }) else st

unfoldable pub on_fchdir : State → RawSyscall → ProcessState → State
unfolding fchdir_to
on_fchdir st sc p = fchdir_to st sc p (p.fd_table (int_of_word (arg sc 0)))
