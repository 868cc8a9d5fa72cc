-- ===== src/Show.antt =====
-- src/show.cpp: what `show` prints of a capsule.
pub mod Capsule
pub mod Text
pub mod Rows
pub mod Totals
use whyrun.Common.Int.{ℤ, pos, int_eq, int_of_long}
use whyrun.Common.Number.{int_to_string}
use whyrun.Common.Output.{Output, print, fail, give, ◌>>=◌, ◌>>◌}
use whyrun.Common.{
  ℕ, ◌+◌, ◌-◌, not, Bool, true, false, List, [], ◌∷◌, ◌++◌, Option, none, some, Bytes, codes, equal,
  is_empty, drop, length, ◌==◌, ltb, leb, if◌then◌else◌, missing_run, missing_command,
}
use whyrun.Reader.{Cursor, Reading, prepare, next, text, each_row}

-- The errors that have a name here, with their numbers on Linux.
abbrev errno_names : List (ℕ × Bytes)
errno_names =
    (13, codes "EACCES")
    ∷ (98, codes "EADDRINUSE")
    ∷ (99, codes "EADDRNOTAVAIL")
    ∷ (111, codes "ECONNREFUSED")
    ∷ (104, codes "ECONNRESET")
    ∷ (17, codes "EEXIST")
    ∷ (115, codes "EINPROGRESS")
    ∷ (22, codes "EINVAL")
    ∷ (21, codes "EISDIR")
    ∷ (24, codes "EMFILE")
    ∷ (101, codes "ENETUNREACH")
    ∷ (2, codes "ENOENT")
    ∷ (20, codes "ENOTDIR")
    ∷ (1, codes "EPERM")
    ∷ (32, codes "EPIPE")
    ∷ (110, codes "ETIMEDOUT")
    ∷ []

unfoldable pub named_errno : List (ℕ × Bytes) → ℤ → Bytes
unfolding int_to_string
named_errno [] value = codes "ERRNO_" ++ int_to_string value
named_errno ((number, name) ∷ names) value =
    if int_eq (pos number) value then name else named_errno names value

-- The `switch`
unfoldable pub errno_name : ℤ → Bytes
unfolding named_errno
errno_name value = named_errno errno_names value

-- `std::optional<std::int64_t>`
abbrev pub CommandFilter : Type 0
CommandFilter = Option ℤ

abbrev pub id_text : Bytes → ℤ → Bytes
id_text prefix id = prefix ++ codes "command_id=" ++ int_to_string id

unfoldable pub command_clause : CommandFilter → Bytes
unfolding int_to_string
command_clause none = []
command_clause (some id) = codes " AND " ++ id_text [] id

-- A newline is followed by the indentation.
unfoldable pub print_command_text : Bytes → Bytes → Bytes
print_command_text [] indent = []
print_command_text (c ∷ s) indent =
    let rest = print_command_text s indent in
    if c == b'\n' then b'\n' ∷ (indent ++ rest) else c ∷ rest

abbrev pub newline : Bytes
newline = b'\n' ∷ []

unfoldable pub file_query : Bool → CommandFilter → Bytes
unfolding command_clause
file_query read none =
    codes "SELECT path, "
    ++ (if read then codes "read_calls, bytes_read" else codes "write_calls, bytes_written")
    ++ codes " FROM file_activity WHERE "
    ++ (if read then codes "read_calls" else codes "write_calls")
    ++ codes ">0 ORDER BY path"
file_query read (some id) =
    codes "SELECT resource, COUNT(*), COALESCE(SUM(CASE WHEN result>0 THEN result ELSE 0 END), 0) "
    ++ codes "FROM events WHERE type='"
    ++ (if read then codes "file_read" else codes "file_write")
    ++ codes "'"
    ++ command_clause (some id)
    ++ codes " GROUP BY resource ORDER BY resource"

unfoldable pub network_query : CommandFilter → Bytes
unfolding int_to_string
network_query none =
    codes "SELECT endpoint, connect_count, success_count, failure_count, "
    ++ codes "last_errno FROM network_activity ORDER BY endpoint"
network_query (some id) =
    codes "SELECT e.resource, COUNT(*), SUM(CASE WHEN e.errno_value=0 THEN 1 ELSE 0 END), "
    ++ codes "SUM(CASE WHEN e.errno_value>0 THEN 1 ELSE 0 END), "
    ++ codes "COALESCE((SELECT e2.errno_value FROM events e2 "
    ++ codes "WHERE e2.type='network_connect' AND "
    ++ id_text (codes "e2.") id
    ++ codes " AND e2.resource=e.resource ORDER BY e2.timestamp_ns DESC, e2.id DESC "
    ++ codes "LIMIT 1), 0) FROM events e WHERE e.type='network_connect' AND "
    ++ id_text (codes "e.") id
    ++ codes " GROUP BY e.resource ORDER BY e.resource"

abbrev last_text : ℤ → Bytes
last_text errno =
    if int_eq errno (pos 0) then [] else codes ", last " ++ errno_name (int_of_long errno)

unfoldable pub ipc_query : CommandFilter → Bytes
unfolding command_clause
ipc_query command_id =
    codes "SELECT resource, COUNT(*), SUM(CASE WHEN errno_value=0 THEN 1 ELSE 0 END), "
    ++ codes "SUM(CASE WHEN errno_value>0 THEN 1 ELSE 0 END) "
    ++ codes "FROM events WHERE type='local_ipc_connect'"
    ++ command_clause command_id
    ++ codes " GROUP BY resource ORDER BY resource"

-- `ends_with`
abbrev ends_with : Bytes → Bytes → Bool
ends_with s suffix =
    if leb (length suffix) (length s)
    then equal (drop (length s - length suffix) s) suffix
    else false

-- What stands behind the first underscore; the whole, where there is none.
unfoldable pub after_underscore : Bytes → Option Bytes
after_underscore [] = none
after_underscore (c ∷ s) = if c == b'_' then some s else after_underscore s

abbrev or_whole : Bytes → Option Bytes → Bytes
or_whole operation none = operation
or_whole operation (some rest) = rest

unfoldable pub operation_text : Bytes → Bytes
unfolding equal after_underscore
operation_text operation =
    if ends_with operation (codes "_connect")
    then codes "connect"
    else or_whole operation (after_underscore operation)

abbrev times_text : ℤ → Bytes → Bytes
times_text (pos n) text = if ltb 1 n then codes " (" ++ text ++ codes " times)" else []
times_text n text = []

unfoldable pub errors_query : CommandFilter → Bytes
unfolding command_clause
errors_query command_id =
    codes "SELECT resource, type, errno_value, COUNT(*) FROM events WHERE errno_value>0"
    ++ command_clause command_id
    ++ codes " GROUP BY resource, type, errno_value ORDER BY resource, type, errno_value"

abbrev commands_query : Bytes
commands_query = codes "SELECT sequence, command, exit_code FROM commands ORDER BY sequence"

-- A line for each row of a query, or the text for none.
module _ (lib : Reading) where
  abbrev pub line_step : (lib.Row → Bytes) → lib.Row → Bool → Output Bool
  line_step line r any = print (line r) >> give true

  abbrev or_text : Bytes → Bool → Output Unit
  or_text empty any = if not any then print empty else give tt

  unfoldable pub list_rows : lib.Database → Bytes → (lib.Row → Bytes) → Bytes → Output Unit
  unfolding prepare each_row
  list_rows database sql line empty = prepare lib database sql >>= λ c.
      each_row lib (line_step line) c false >>= λ any. or_text empty any >> print newline

  abbrev integer_text : lib.Row → ℕ → Bytes
  integer_text r column = int_to_string (lib.column_int64 r column)

  unfoldable pub file_line : lib.Row → Bytes
  unfolding text int_to_string
  file_line r =
      codes "    "
      ++ text lib r 0
      ++ codes " ("
      ++ integer_text r 1
      ++ codes " calls, "
      ++ integer_text r 2
      ++ codes " bytes)"
      ++ newline

  abbrev files_of_mode : lib.Database → CommandFilter → Bytes → Bool → Output Unit
  files_of_mode database command_id mode read =
      print (codes "  " ++ mode ++ newline)
      >> list_rows database (file_query read command_id) file_line (codes "    none" ++ newline)

  unfoldable pub show_files : lib.Database → CommandFilter → Output Unit
  show_files database command_id =
      print (codes "Files" ++ newline)
      >> files_of_mode database command_id (codes "READ") true
      >> files_of_mode database command_id (codes "WRITE") false

  abbrev attempts_text : lib.Row → Bytes
  attempts_text r =
      codes "  "
      ++ text lib r 0
      ++ codes " ("
      ++ integer_text r 1
      ++ codes " attempts, "
      ++ integer_text r 2
      ++ codes " succeeded, "
      ++ integer_text r 3
      ++ codes " failed"

  unfoldable pub network_line : lib.Row → Bytes
  unfolding text int_to_string errno_name
  network_line r = attempts_text r ++ last_text (lib.column_int64 r 4) ++ codes ")" ++ newline

  unfoldable pub show_network : lib.Database → CommandFilter → Output Unit
  show_network database command_id =
      print (codes "Network" ++ newline)
      >> list_rows database (network_query command_id) network_line (codes "  none" ++ newline)

  unfoldable pub ipc_line : lib.Row → Bytes
  unfolding text int_to_string
  ipc_line r = attempts_text r ++ codes ")" ++ newline

  unfoldable pub show_local_ipc : lib.Database → CommandFilter → Output Unit
  show_local_ipc database command_id =
      print (codes "Local IPC" ++ newline)
      >> list_rows database (ipc_query command_id) ipc_line (codes "  none" ++ newline)

  unfoldable pub error_line : lib.Row → Bytes
  unfolding text int_to_string errno_name operation_text
  error_line r =
      codes "  "
      ++ text lib r 0
      ++ newline
      ++ codes "    "
      ++ operation_text (text lib r 1)
      ++ codes " -> "
      ++ errno_name (int_of_long (lib.column_int64 r 2))
      ++ times_text (lib.column_int64 r 3) (integer_text r 3)
      ++ newline

  unfoldable pub show_errors : lib.Database → CommandFilter → Output Unit
  show_errors database command_id =
      print (codes "Errors" ++ newline)
      >> list_rows database (errors_query command_id) error_line (codes "  none" ++ newline)

  unfoldable pub command_line : lib.Row → Bytes
  unfolding text int_to_string print_command_text
  command_line r =
      codes "  "
      ++ integer_text r 0
      ++ codes "  "
      ++ print_command_text (text lib r 1) (codes "     ")
      ++ (if lib.column_is_null r 2
          then codes " (incomplete)"
          else codes " (exit " ++ integer_text r 2 ++ codes ")")
      ++ newline

  unfoldable pub show_commands : lib.Database → Output Unit
  show_commands database =
      print (codes "Commands" ++ newline)
      >> list_rows database commands_query command_line (codes "  none" ++ newline)
