-- ===== src/Store/Activity/Commands.antt =====
-- The rows of `commands`.
use mathlib.Core.Option
use whyrun.Common.Int.{ℤ, int_eq}
use whyrun.Common.Map.{int_key}
use whyrun.Common.{
  ◌≡◌, ◌&&◌, refl, sym, Bool, true, false, List, [], ◌∷◌, Option, none, some, Bytes, codes, equal,
  if◌then◌else◌, arith,
}
use whyrun.Store.Tables.{
  EventRow, CommandRow, Tables, find_row, update_row, find_row-update_row, effect, insert_command,
  changed, conflict, new_command, end_command,
}

abbrev start : Bytes
start = codes "command_start"

abbrev end_type : Bytes
end_type = codes "command_end"

abbrev names : ℤ → Option ℤ → Bool
names id none = false
names id (some i) = int_eq i id

-- What the events say of a command: `none` if it has not started, and else its exit code, if it has
-- ended.
unfoldable pub command_state : ℤ → List EventRow → Option (Option ℤ)
command_state id [] = none
command_state id (row ∷ rows) =
    if names id row.command_id && equal row.type start
    then some none
    else if names id row.command_id && equal row.type end_type
    then Option.map (λ _. some row.result) (command_state id rows)
    else command_state id rows

abbrev pub exit_code_of : CommandRow → Option ℤ
exit_code_of row = row.exit_code

abbrev pub CommandsAgree : Tables → Type 0
CommandsAgree t =
    (id : ℤ)
    → Option.map exit_code_of (find_row (λ (r : CommandRow). r.id) id t.commands)
      ≡ command_state id t.events

pub command_state-other :
    (id : ℤ) (row : EventRow) (rows : List EventRow)
    → equal row.type start ≡ false
    → equal row.type end_type ≡ false
    → command_state id (row ∷ rows) ≡ command_state id rows
unfolding command_state
command_state-other id row rows not_start not_end = rw (not_start, not_end) (ground arith)

unless_conflict :
    (b : Bool) (t u : Tables) → (if b then conflict else changed t) ≡ changed u → t ≡ u
unless_conflict true t u says = cc
unless_conflict false t u says = cc

module _ (end_ns : ℤ) (end_cwd : Bytes) (result : ℤ) where
  ended :
      (hit : Bool) (old : Option CommandRow) (state : Option (Option ℤ))
      → Option.map exit_code_of old ≡ state
      → Option.map exit_code_of
          (if hit then Option.map (end_command end_ns end_cwd result) old else old)
        ≡ (if hit && false
            then some none
            else if hit && true
            then Option.map (λ _. some result) state
            else state)
  ended true none state agrees = rw (← agrees)
  ended true (some row) state agrees = rw (← agrees)
  ended false old state agrees = agrees

module _ (t : Tables) (row : EventRow) (agree : CommandsAgree t) (id : ℤ)
    (of_id : row.command_id ≡ some id) where
  abbrev added : Tables
  added = record t { events = row ∷ t.events }

  -- The row of the command is added, unless there is one.
  pub start-CommandsAgree :
      equal row.type start ≡ true
      → (sequence shell_pid : ℤ) (command cwd : Bytes) (start_ns : ℤ) (u : Tables)
      → effect (insert_command id sequence shell_pid command cwd start_ns) added ≡ changed u
      → (u ≡ record added {
        commands = new_command id sequence shell_pid command cwd start_ns ∷ t.commands;
      })
        × CommandsAgree u
  unfolding effect find_row command_state
  start-CommandsAgree starts sequence shell_pid command cwd start_ns u says =
      let same = unless_conflict _ _ u says in
      (sym same, rw (← same) (λ i. rw (of_id, starts) (ground (arith, agree i))))

  -- The end of the command is written into its row, if there is one.
  pub end-CommandsAgree :
      equal row.type end_type ≡ true
      → equal row.type start ≡ false
      → (end_ns : ℤ) (end_cwd : Bytes)
      → CommandsAgree (record added {
        commands =
            update_row
              (λ (r : CommandRow). r.id)
              id
              (end_command end_ns end_cwd row.result)
              t.commands;
      })
  unfolding command_state
  end-CommandsAgree ends not_start end_ns end_cwd i =
      rw
        (
          find_row-update_row (λ (r : CommandRow). r.id) i id
              (end_command end_ns end_cwd row.result) t.commands (λ r. refl),
          of_id,
          ends,
          not_start,
        )
        (ended end_ns end_cwd row.result (int_eq id i) _ _ (agree i))
