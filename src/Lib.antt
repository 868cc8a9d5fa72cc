-- ===== src/Lib.antt =====
-- WhyRun records what a command, or a session of commands, does on Linux: it traces the processes
-- with ptrace, turns their system calls into events, gives each event to the command that it belongs
-- to, and keeps all of it in a capsule that it can show and compare.
--
-- The parts, and the files that model them:
--
--   include/whyrun/event.hpp, src/event.cpp           Event.antt: `Event`, `EventType`
--   include/whyrun/session.hpp, src/bash_session.cpp  Session.antt: `CommandProtocol` (`Protocol`,
--     `consume`, `finish`, `decode_record`). The two Bash functions of the same file write what the
--     protocol reads; their `printf` sequences are `Report` and `stream` in Session/Report.antt.
--   include/whyrun/execution_state.hpp, src/execution_state.cpp
--     Execution.antt and its children: `ExecutionState`. `State` (Execution/State.antt) has the
--     members of the class, with the sink as the list of the events emitted. Each public operation is
--     a function of its name: Execution/Markers.antt (`add_initial_process`, `on_command_marker`),
--     Execution/Processes.antt (`on_process_exec`, `on_process_created`, `on_process_exit`,
--     `forget_thread`), and Execution/Syscalls.antt (`on_syscall_exit`), whose branches stand in
--     Execution/Opens.antt and Execution/Descriptors.antt. The free functions of the file are in
--     Path.antt (`normalize_path`) and Endpoint.antt (`render_unix_name`, `socket_endpoint`).
--   src/ptrace_collector.cpp                          Channel.antt: `CommandChannelTracker`;
--     Collector.antt and its children: the wait loop of `PtraceCollector::collect`. The loop reads
--     the write calls of the shell that go to the channel, hands their bytes to `CommandProtocol` and
--     the markers to `ExecutionState`, and calls the other handlers at the other stops.
--     Collector/Guard.antt: `TraceeGuard` (`destroy_guard`). Collector/Launch.antt: the launch, and
--     `collect` as a whole (`collect_request`). Tracee.antt: `LinuxTraceeMemory`
--     (`read_string`, `read_bytes`).
--   include/whyrun/store.hpp, src/sqlite_store.cpp    Store.antt and its children: `shell_quote`,
--     `format_command`; Store/Json.antt and Store/Metadata.antt: `json_escape`, `metadata_json`;
--     Store/Paths.antt: `default_capsule_path`, `temporary_capsule_path`; Store/Tables.antt: the schema
--     and what each statement does to it; Store/Writer.antt: `CapsuleWriter` (`write_header` is the
--     constructor, `emit`, `finish`, `destroy`). The readers by which the texts are judged
--     (Store/ShellReader.antt, and in Store/Json.antt and Store/Metadata.antt) and the sums over the
--     events (Store/Activity.antt) are not of the program.
--   src/capsule_reader.hpp                            Reader.antt: `ReadDatabase` (`open_capsule`),
--     `ReadStatement` (`prepare`, `next`, `text`), `validate_schema`
--   src/show.cpp                                      Show.antt: the sections of `show`, with their
--     queries; Show/Capsule.antt: the headers, the timeline, and `show_capsule`. The queries by their
--     parts (Show/Capsule/Restricted.antt) and the columns of a file (Show/Totals.antt) are not of the
--     program: the texts of the source are judged by them.
--   src/diff.cpp                                      Diff/Load.antt: `load_summary`, `diff_capsules`;
--     Diff.antt: the comparison of two summaries
--   src/main.cpp, include/whyrun/commands.hpp         CommandLine.antt: what is done for the arguments;
--     CommandLine/Record.antt: the body of `record_command` behind the arguments, with
--     `TemporaryCapsuleGuard` and `publish_capsule` (`record_body`, `record_guarded`)
--
-- Common.antt holds what the files share. Tests.antt holds runs at concrete inputs.
--
-- How the code is read:
--   - A function that may throw returns a `Result`; each `throw` has its own error, and the text of its
--     message is not kept. After an exception the collector gives up, so no state is kept either.
--   - A string is a list of bytes. A pointer into `processes_` that is written through is the process
--     as it was read, and a write back under the key that it was found by (`write_process`).
--   - An `unordered_map` or `unordered_set` that is only looked up in is a function; `live_tids` is a
--     list, since the loop asks whether it is empty. The metadata of an event is an association list
--     whose order means nothing.
--   - Casts to `int` are written out (`int_of_word`, `int_of_long`). Process ids and the numbers of
--     system calls are natural numbers, those of Linux x86_64.
--   - The kernel, the memory of the tracees, symbolic links and `inet_ntop` are parameters: `Host`, and
--     for the loop the list of `Wait` and `Answers`, one for each round. A recording whose list has
--     come to its end waits in `waitpid`. The loop is by recursion on that list, so it takes no fuel.
--   - `std::to_string` runs on fuel, one more than the number: each digit divides it by ten. The JSON
--     reader runs on fuel that counts the entries of an object.
--
--   - SQLite is a parameter. The writer runs over `Sqlite` (Store/Sqlite.antt), whose laws `IsLawful`
--     are what SQLite documents of transactions; `memory` is an instance of both. What a statement of
--     the writer does to the rows is `effect`. The sum of a column that leaves 64 bits is no result of
--     a statement in the model: SQLite turns it into a floating-point number. The reader runs over
--     `Reading`, which answers the text of a query with a sequence of rows.
--   - The output of `show` and `diff` is a list of bytes beside the result. An exception keeps what has
--     been printed before it.
--   - `World` has what `record` asks of the system: the clock, directories, the results of copies and
--     removals, and what the collector emits and returns. `Files` has the capsules by their paths. The
--     program that is recorded runs once the writer is constructed, and may do anything to the files
--     (`touched`), to the temporary one and SQLite's journal beside it too. The journal is removed when
--     the database is closed.
--   - The two loops that look for a free path run on fuel, one more than the number of the paths that
--     exist, which is enough while fewer than 2 ^ 32 - 2 do: the number in the name is an `unsigned int`.
--
--   - The two loops of `LinuxTraceeMemory` run on fuel, one more than the bytes asked for: each round
--     reads at least one. `Kernel` has the two system calls, and `IsFaithful` what Linux documents.
--
-- What is not modelled: what the forked child does until `execvp`, and `BashSession` (system calls
-- only); what the guard finds at an exception inside the loop, since no state is kept behind one; the
-- help texts of src/main.cpp; the local time in the name of a capsule and the three decimals of the
-- milliseconds in the timeline (parameters); and the signal that a resumed thread is given, which no
-- state depends on.
pub mod Common
pub mod Event
pub mod Session
pub mod Host
pub mod Endpoint
pub mod Path
pub mod Execution
pub mod Channel
pub mod Collector
pub mod Store
pub mod Reader
pub mod Show
pub mod Diff
pub mod CommandLine
pub mod Tracee
pub mod Tests
