-- ===== src/Execution/Opens.antt =====
-- The branches of `on_syscall_exit` for `open`, `openat` and `openat2`.
use whyrun.Execution.Calls.{
  RawSyscall, arg, nr_openat, nr_openat2, at_fdcwd, resolve_path, make_event,
}
use whyrun.Common.Int.{is_negative, int_of_word, int_of_long}
use whyrun.Common.Map.{int_key, assign}
use whyrun.Common.Number.{to_string, int_to_string}
use whyrun.Common.{
  ℕ, ◌+◌, ◌*◌, not, [], ◌∷◌, none, some, ◌==◌, if◌then◌else◌, Bytes, codes, is_empty, get_or,
}
use whyrun.Endpoint.{unreadable_address}
use whyrun.Event.{Event, file_open}
use whyrun.Execution.Events.{with_meta, has_bit_16}
use whyrun.Execution.State.{file, Resource, ProcessState, State, write_process, emit}
use whyrun.Host.{Host}

-- The path that an opening call was given, or the address if nothing can be read there.
unfoldable pub given_path : Host → RawSyscall → ℕ → Bytes
unfolding unreadable_address
given_path host sc address =
    let raw = host.read_string sc.tid address in
    if is_empty raw then unreadable_address address else raw

-- The descriptor table with `r` under the descriptor that the call returned.
abbrev pub opened : State → RawSyscall → ProcessState → Resource → State
opened st sc p r =
    write_process st sc.tid (record p { fd_table = assign (int_of_long sc.result) r p.fd_table })

abbrev pub file_resource : Bytes → ℕ → Resource
file_resource path flags = record { type = file; name = path; is_directory = has_bit_16 flags }

-- The event goes out first; the descriptor is entered if the call succeeded.
unfoldable pub record_open : State → RawSyscall → ProcessState → Event → Resource → State
record_open st sc p event r =
    let recorded = emit st event in
    if not (is_negative sc.result) then opened recorded sc p r else recorded

unfoldable pub open_path : Host → RawSyscall → ProcessState → Bytes
unfolding given_path resolve_path
open_path host sc p = resolve_path p at_fdcwd (given_path host sc (arg sc 0))

unfoldable pub open_event : Host → RawSyscall → ProcessState → Event
unfolding make_event
open_event host sc p =
    with_meta (codes "flags") (int_to_string (int_of_word (arg sc 1))) (
      with_meta (codes "operation") (codes "open")
        (make_event p sc file_open (open_path host sc p)))

unfoldable pub on_open : Host → State → RawSyscall → ProcessState → State
unfolding record_open open_event open_path
on_open host st sc p =
    record_open st sc p (open_event host sc p) (file_resource (open_path host sc p) (arg sc 1))

-- The number in the eight bytes of `open_how::flags`.
unfoldable pub little_endian_64 : Bytes → ℕ
little_endian_64 [] = 0
little_endian_64 (b ∷ s) = b + 256 * little_endian_64 s

abbrev pub sizeof_open_how : ℕ
sizeof_open_how = 24

abbrev pub first_eight : Bytes → Bytes
first_eight s =
    get_or s 0 0
    ∷ get_or s 1 0
    ∷ get_or s 2 0
    ∷ get_or s 3 0
    ∷ get_or s 4 0
    ∷ get_or s 5 0
    ∷ get_or s 6 0
    ∷ get_or s 7 0
    ∷ []

unfoldable pub openat_flags : Host → RawSyscall → ℕ
unfolding little_endian_64
openat_flags host sc =
    if sc.number == nr_openat2
    then elim (host.read_bytes sc.tid (arg sc 2) sizeof_open_how) [
      | none ↦ 0
      | some how ↦ little_endian_64 (first_eight how)
    ]
    else arg sc 2

unfoldable pub openat_path : Host → RawSyscall → ProcessState → Bytes
unfolding given_path resolve_path
openat_path host sc p = resolve_path p (int_of_word (arg sc 0)) (given_path host sc (arg sc 1))

unfoldable pub openat_event : Host → RawSyscall → ProcessState → Event
unfolding make_event
openat_event host sc p = with_meta (codes "dirfd") (int_to_string (int_of_word (arg sc 0))) (
    with_meta (codes "flags") (to_string (openat_flags host sc)) (
      with_meta (codes "operation")
        (if sc.number == nr_openat then codes "openat" else codes "openat2")
        (make_event p sc file_open (openat_path host sc p))))

unfoldable pub on_openat : Host → State → RawSyscall → ProcessState → State
unfolding record_open openat_event openat_path openat_flags
on_openat host st sc p =
    record_open st sc p (openat_event host sc p)
      (file_resource (openat_path host sc p) (openat_flags host sc))
