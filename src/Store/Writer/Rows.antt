-- ===== src/Store/Writer/Rows.antt =====
-- What the statements of `emit` in src/sqlite_store.cpp do to tables that agree with the events.

use whyrun.Common.{
  ◌⊎◌, if◌then◌else◌, Bool, false, ◌≡◌, refl, sym, ◌∙◌, true, List, ◌∷◌, Bytes, codes, equal, ok,
  >>=-eq-ok, inl, inr,
}
use whyrun.Store.Tables.{
  insert_command, conflict, update_row, CommandRow, end_command, update_command, Tables, EventRow,
  ProcessRow, Statement, effect, changed,
}
use whyrun.Store.Writer.{exec_row, fork_row, exit_row, number_of}
use whyrun.Common.Map.{int_key}
use whyrun.Store.Activity.Files.{FilesAgree, file_total-other}
use whyrun.Collector.Calls.{ok-injective}
use whyrun.Common.Int.{ℤ}
use whyrun.Event.{Event}
use whyrun.Store.Activity.Commands.{CommandsAgree, command_state-other}
use whyrun.Store.Activity.Network.{NetworkAgrees, network_total-other}

pub record Agrees (t : Tables) : Type 0 where
  pub files : FilesAgree t
  pub network : NetworkAgrees t
  pub commands : CommandsAgree t

module _ (t : Tables) (row : EventRow) (agree : Agrees t) where
  -- The tables behind an event that changes only the processes.
  abbrev with_processes : List ProcessRow → Tables
  with_processes processes = record t { events = row ∷ t.events; processes = processes }

  pub processes-Agrees :
      (processes : List ProcessRow)
      → equal row.type (codes "file_read") ≡ false
      → equal row.type (codes "file_write") ≡ false
      → equal row.type (codes "network_connect") ≡ false
      → equal row.type (codes "command_start") ≡ false
      → equal row.type (codes "command_end") ≡ false
      → Agrees (with_processes processes)
  processes-Agrees processes not_read not_write not_connect not_start not_end = record {
    files = λ path. agree.files path ∙ sym (file_total-other path row t.events not_read not_write);
    network = λ endpoint.
        agree.network endpoint ∙ sym (network_total-other endpoint row t.events not_connect);
    commands =
        λ id. agree.commands id ∙ sym (command_state-other id row t.events not_start not_end);
  }

-- The statements that change only the processes.
abbrev pub OnlyProcesses : Statement → Type 0
OnlyProcesses s =
    (t : Tables)
    → (processes : List ProcessRow) × (effect s t ≡ changed (record t { processes = processes }))

pub exec_row-OnlyProcesses :
    (event : Event) (s : Statement) → exec_row event ≡ ok s → OnlyProcesses s
unfolding exec_row effect
exec_row-OnlyProcesses event s read t =
    let (ppid, _, same) = >>=-eq-ok (number_of event.metadata (codes "ppid") (codes "0")) _ read in
    rw (← ok-injective same) (_, refl)

pub fork_row-OnlyProcesses :
    (event : Event) (s : Statement) → fork_row event ≡ ok s → OnlyProcesses s
unfolding fork_row effect
fork_row-OnlyProcesses event s read t =
    let (child, _, same) =
      >>=-eq-ok (number_of event.metadata (codes "child_pid") (codes "0")) _ read in
    rw (← ok-injective same) (_, refl)

pub exit_row-OnlyProcesses :
    (event : Event) (s : Statement) → exit_row event ≡ ok s → OnlyProcesses s
unfolding exit_row effect
exit_row-OnlyProcesses event s read t =
    let (code, _, more) =
      >>=-eq-ok (number_of event.metadata (codes "exit_code") (codes "-1")) _ read in
    let (sig, _, same) =
      >>=-eq-ok (number_of event.metadata (codes "term_signal") (codes "0")) _ more in
    rw (← ok-injective same) (_, refl)

conflict_or_changed :
    (b : Bool) (t : Tables)
    → ((if b then conflict else changed t) ≡ conflict)
      ⊎ ((u : Tables) × ((if b then conflict else changed t) ≡ changed u))
conflict_or_changed true t = inl refl
conflict_or_changed false t = inr (t, refl)

pub insert_command-effect :
    (id sequence shell_pid : ℤ) (command cwd : Bytes) (start_ns : ℤ) (t : Tables)
    → (effect (insert_command id sequence shell_pid command cwd start_ns) t ≡ conflict)
      ⊎ ((v : Tables) × (effect (insert_command id sequence shell_pid command cwd start_ns) t
            ≡ changed v))
unfolding effect
insert_command-effect id sequence shell_pid command cwd start_ns t = conflict_or_changed _ _

pub true_is_false : ◌≡◌ {A = Bool} true false → ⊥
true_is_false h = cc

pub effect-end :
    (end_ns : ℤ) (end_cwd : Bytes) (exit_code id : ℤ) (t : Tables)
    → effect (update_command end_ns end_cwd exit_code id) t
      ≡ changed (record t {
        commands =
            update_row
              (λ (r : CommandRow). r.id)
              id
              (end_command end_ns end_cwd exit_code)
              t.commands;
      })
unfolding effect
effect-end end_ns end_cwd exit_code id t = refl
