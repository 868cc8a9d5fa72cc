-- ===== src/Channel.antt =====
-- `CommandChannelTracker` of src/ptrace_collector.cpp: which descriptors of the shell are the
-- channel that its reports go through.
pub mod Kernel
use whyrun.Common.Int.{ℤ, pos, is_negative, int_eq, int_of_word, int_of_long}
use whyrun.Common.{ℕ, ◌&&◌, ◌||◌, not, Bool, true, false, Option, none, some, ◌==◌, if◌then◌else◌}
use whyrun.Execution.Calls.{RawSyscall, arg, nr_write, nr_close, nr_dup, nr_dup2, nr_dup3, nr_fcntl}

-- `std::unordered_set<int>`
abbrev pub Aliases : Type 0
Aliases = ℤ → Bool

abbrev pub insert : ℤ → Aliases → Aliases
insert fd aliases k = if int_eq fd k then true else aliases k

abbrev pub remove : ℤ → Aliases → Aliases
remove fd aliases k = if int_eq fd k then false else aliases k

-- `CommandChannelTracker(channel_fd)`
unfoldable pub tracking : Option ℤ → Aliases
tracking none k = false
tracking (some fd) k = int_eq fd k

unfoldable pub receives : Aliases → RawSyscall → Bool
receives aliases sc = sc.number == nr_write && aliases (int_of_word (arg sc 0))

unfoldable pub assign_alias : ℤ → Bool → Aliases → Aliases
assign_alias fd is_alias aliases = if is_alias then insert fd aliases else remove fd aliases

abbrev pub f_dupfd : ℕ
f_dupfd = 0

abbrev pub f_dupfd_cloexec : ℕ
f_dupfd_cloexec = 1030

-- `fcntl` with `F_DUPFD` or `F_DUPFD_CLOEXEC`
abbrev pub duplicates : RawSyscall → Bool
duplicates sc = sc.number == nr_fcntl && (arg sc 1 == f_dupfd || arg sc 1 == f_dupfd_cloexec)

unfoldable pub observe : Aliases → RawSyscall → Aliases
unfolding assign_alias
observe aliases sc =
    let source = int_of_word (arg sc 0) in
    let destination = int_of_word (arg sc 1) in
    if is_negative sc.result
    then aliases
    else if sc.number == nr_close
    then remove source aliases
    else if sc.number == nr_dup
    then assign_alias (int_of_long sc.result) (aliases source) aliases
    else if sc.number == nr_dup2 || sc.number == nr_dup3
    then (if not (int_eq source destination)
        then assign_alias destination (aliases source) aliases
        else aliases)
    else if duplicates sc
    then assign_alias (int_of_long sc.result) (aliases source) aliases
    else aliases
