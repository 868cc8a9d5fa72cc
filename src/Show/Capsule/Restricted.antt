-- ===== src/Show/Capsule/Restricted.antt =====
-- Queries over the events of one command, apart from the texts in src/show.cpp: the text of such a query
-- has a condition for the command on everything that it reads from `events`.
use whyrun.Common.Int.{ℤ, int_eq}
use whyrun.Common.Number.{int_to_string}
use whyrun.Common.{
  Bool, false, List, [], ◌∷◌, ◌++◌, Option, none, some, Bytes, codes, if◌then◌else◌,
}
use whyrun.Event.{EventType, event_type_name}
use whyrun.Store.Tables.{EventRow}

-- How the table is called in the query.
pub data Alias : Type 0 where
  unnamed outer inner : Alias

abbrev alias_text : Alias → Bytes
alias_text unnamed = []
alias_text outer = codes " e"
alias_text inner = codes " e2"

abbrev prefix : Alias → Bytes
prefix unnamed = []
prefix outer = codes "e."
prefix inner = codes "e2."

-- What else is asked of an event.
pub data Condition : Type 0 where
  of_type : EventType → Condition
  with_error any : Condition

unfoldable pub condition_text : Alias → Condition → Bytes
unfolding event_type_name
condition_text a (of_type type) =
    prefix a ++ (codes "type='" ++ (event_type_name type ++ codes "'"))
condition_text a with_error = prefix a ++ codes "errno_value>0"
condition_text a any = codes "1=1"

-- The number of the row in the table, which the events of other commands change, is none of them.
pub data Field : Type 0 where
  timestamp_ns pid tid type resource result errno_value : Field

abbrev field_text : Field → Bytes
field_text timestamp_ns = codes "timestamp_ns"
field_text pid = codes "pid"
field_text tid = codes "tid"
field_text type = codes "type"
field_text resource = codes "resource"
field_text result = codes "result"
field_text errno_value = codes "errno_value"

abbrev fields_text : Alias → List Field → Bytes
fields_text a [] = []
fields_text a (f ∷ []) = prefix a ++ field_text f
fields_text a (f ∷ g ∷ fields) =
    prefix a ++ (field_text f ++ (codes ", " ++ fields_text a (g ∷ fields)))

-- What is computed from the events of a group.
pub data Sum : Type 0 where
  calls bytes successes failures : Sum

abbrev sum_text : Alias → Sum → Bytes
sum_text a calls = codes "COUNT(*)"
sum_text a bytes =
    codes "COALESCE(SUM(CASE WHEN "
    ++ (prefix a ++ (codes "result>0 THEN " ++ (prefix a ++ codes "result ELSE 0 END), 0)")))
sum_text a successes =
    codes "SUM(CASE WHEN " ++ (prefix a ++ codes "errno_value=0 THEN 1 ELSE 0 END)")
sum_text a failures =
    codes "SUM(CASE WHEN " ++ (prefix a ++ codes "errno_value>0 THEN 1 ELSE 0 END)")

abbrev sums_text : Alias → List Sum → Bytes
sums_text a [] = []
sums_text a (s ∷ sums) = codes ", " ++ (sum_text a s ++ sums_text a sums)

-- The events of the command.
abbrev events_text : ℤ → Alias → Condition → Bytes
events_text id a condition =
    codes " FROM events"
    ++ (alias_text a
        ++ (codes " WHERE "
            ++ (condition_text a condition
                ++ (codes " AND " ++ (prefix a ++ (codes "command_id=" ++ int_to_string id))))))

abbrev groups_text : Alias → List Field → Bytes
groups_text a fields =
    codes " GROUP BY " ++ (fields_text a fields ++ (codes " ORDER BY " ++ fields_text a fields))

-- The number of values, the events in time, the events in groups, or those of each resource with a field
-- of the newest.
pub data Query : Type 0 where
  counted : Field → Condition → Query
  in_time : List Field → Condition → Query
  grouped : List Field → List Sum → Condition → Query
  with_newest : List Sum → Field → Condition → Query

unfoldable pub query_text : ℤ → Query → Bytes
query_text id (counted f condition) =
    codes "SELECT COUNT(DISTINCT "
    ++ (field_text f ++ (codes ")" ++ events_text id unnamed condition))
query_text id (in_time fields condition) =
    codes "SELECT "
    ++ (fields_text unnamed fields
        ++ (events_text id unnamed condition
            ++ codes
                " ORDER BY timestamp_ns, CASE type WHEN 'command_start' THEN 0 ELSE 1 END, id"))
query_text id (grouped fields sums condition) =
    codes "SELECT "
    ++ (fields_text unnamed fields
        ++ (sums_text unnamed sums
            ++ (events_text id unnamed condition ++ groups_text unnamed fields)))
query_text id (with_newest sums f condition) =
    codes "SELECT e.resource"
    ++ (sums_text outer sums
        ++ (codes ", COALESCE((SELECT e2."
            ++ (field_text f
                ++ (events_text id inner condition
                    ++ (codes
                          " AND e2.resource=e.resource ORDER BY e2.timestamp_ns DESC, e2.id DESC LIMIT 1), 0)"
                        ++ (events_text id outer condition
                            ++ groups_text outer (resource ∷ [])))))))

abbrev is_of_command : ℤ → Option ℤ → Bool
is_of_command id none = false
is_of_command id (some k) = int_eq k id

-- The events of a command.
unfoldable pub of_command : ℤ → List EventRow → List EventRow
of_command id [] = []
of_command id (row ∷ rows) =
    let rest = of_command id rows in if is_of_command id row.command_id then row ∷ rest else rest
