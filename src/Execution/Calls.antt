-- ===== src/Execution/Calls.antt =====
-- `RawSyscall`, `resolve_path` and `make_event` of src/execution_state.cpp, and the numbers of the
-- system calls, which are those of Linux x86_64, where every `#ifdef __NR_…` holds.
use whyrun.Common.Int.{ℤ, negsuc, int_eq}
use whyrun.Common.Map.{int_key}
use whyrun.Common.Number.{int_to_string}
use whyrun.Common.{
  ℕ, ◌&&◌, Bool, true, false, List, [], ◌++◌, Option, none, some, if◌then◌else◌, Bytes, codes,
  is_empty, get_or,
}
use whyrun.Event.{Event, EventType}
use whyrun.Execution.State.{file, socket, Resource, ProcessState, syscall_errno}
use whyrun.Path.{is_absolute, joined, normalize_path}

-- `RawSyscall`; the recorder does not read `pid` again.
pub record RawSyscall : Type 0 where
  pub tid : ℕ
  pub number : ℕ
  pub args : List ℕ
  pub result : ℤ
  pub timestamp_ns : ℕ

abbrev pub arg : RawSyscall → ℕ → ℕ
arg sc i = get_or sc.args i 0

abbrev pub nr_read : ℕ
nr_read = 0

abbrev pub nr_write : ℕ
nr_write = 1

abbrev pub nr_open : ℕ
nr_open = 2

abbrev pub nr_close : ℕ
nr_close = 3

abbrev pub nr_dup : ℕ
nr_dup = 32

abbrev pub nr_dup2 : ℕ
nr_dup2 = 33

abbrev pub nr_socket : ℕ
nr_socket = 41

abbrev pub nr_connect : ℕ
nr_connect = 42

abbrev pub nr_fcntl : ℕ
nr_fcntl = 72

abbrev pub nr_chdir : ℕ
nr_chdir = 80

abbrev pub nr_fchdir : ℕ
nr_fchdir = 81

abbrev pub nr_openat : ℕ
nr_openat = 257

abbrev pub nr_dup3 : ℕ
nr_dup3 = 292

abbrev pub nr_openat2 : ℕ
nr_openat2 = 437

-- AT_FDCWD is -100.
abbrev pub at_fdcwd : ℤ
at_fdcwd = negsuc 99

abbrev pub is_file : Resource → Bool
is_file r = elim r.type [ file ↦ true | _ ↦ false ]

abbrev pub is_socket : Resource → Bool
is_socket r = elim r.type [ socket ↦ true | _ ↦ false ]

unfoldable pub unknown_base : ℤ → Bytes → Bytes
unfolding int_to_string
unknown_base dirfd path = codes "<dirfd:" ++ int_to_string dirfd ++ codes ">/" ++ path

-- A path relative to the resource that a descriptor is open on, if it is.
unfoldable pub below_descriptor : ℤ → Bytes → Option Resource → Bytes
unfolding unknown_base joined normalize_path
below_descriptor dirfd path none = unknown_base dirfd path
below_descriptor dirfd path (some r) =
    if is_file r && r.is_directory
    then normalize_path (joined r.name path)
    else unknown_base dirfd path

unfoldable pub resolve_path : ProcessState → ℤ → Bytes → Bytes
unfolding below_descriptor normalize_path joined
resolve_path p dirfd path =
    if is_empty path
    then path
    else if is_absolute path
    then normalize_path path
    else if int_eq dirfd at_fdcwd
    then normalize_path (joined p.cwd path)
    else below_descriptor dirfd path (p.fd_table dirfd)

-- `make_event`
unfoldable pub make_event : ProcessState → RawSyscall → EventType → Bytes → Event
unfolding syscall_errno
make_event p sc type resource = record {
  timestamp_ns = sc.timestamp_ns;
  pid = p.pid;
  tid = sc.tid;
  type = type;
  resource = resource;
  result = sc.result;
  errno_value = syscall_errno sc.result;
  metadata = [];
  command_id = none;
}
