-- ===== src/CommandLine.antt =====
-- src/main.cpp: what the program does for its arguments.
pub mod Show
pub mod Record
use whyrun.Common.Int.{ℤ, pos, is_negative}
use whyrun.Common.Number.{Errc, success, Parsed, from_chars_signed}
use whyrun.Common.{
  ℕ, ◌-◌, ◌^◌, ◌&&◌, ◌||◌, not, Bool, true, false, List, [], ◌∷◌, Option, none, some, Bytes, codes,
  equal, has_value, is_empty, if◌then◌else◌, ◌==◌,
}

-- `ShowOptions`
pub record ShowOptions : Type 0 where
  pub events : Bool
  pub command_id : Option ℤ

abbrev pub no_options : ShowOptions
no_options = record { events = false; command_id = none }

-- The ways in which the arguments are refused, with exit code 2.
pub data Usage : Type 0 where
  no_command unknown_command : Usage
  help_arguments version_arguments too_many_topics unknown_topic : Usage
  record_arguments diff_arguments : Usage
  show_needs_path command_twice command_without_id invalid_command_id unknown_option : Usage

pub data Options : Type 0 where
  accepted : ShowOptions → Options
  refused : Usage → Options

abbrev pub succeeded : Errc → Bool
succeeded success = true
succeeded _ = false

abbrev pub is_positive : ℤ → Bool
is_positive (pos n) = not (n == 0)
is_positive v = false

-- `std::from_chars` into an `int64_t`, and the tests behind it.
unfoldable pub parse_command_id : Bytes → Option ℤ
parse_command_id value =
    let parsed = from_chars_signed (2 ^ 63 - 1) value in
    if not (succeeded parsed.ec) || not (is_empty parsed.rest) || not (is_positive parsed.value)
    then none
    else some parsed.value

abbrev with_id : ShowOptions → Option ℤ → Options
with_id o none = refused invalid_command_id
with_id o (some id) = accepted (record o { command_id = some id })

-- `--command` with the argument behind it.
unfoldable pub take_command_id : ShowOptions → Bytes → Options
unfolding parse_command_id
take_command_id o value =
    if has_value o.command_id then refused command_twice else with_id o (parse_command_id value)

-- The loop over the options of `show`.
unfoldable pub show_options : ShowOptions → List Bytes → Options
unfolding equal take_command_id
show_options o [] = accepted o
show_options o (option ∷ []) =
    if equal option (codes "--events")
    then accepted (record o { events = true })
    else if equal option (codes "--command")
    then (if has_value o.command_id then refused command_twice else refused command_without_id)
    else refused unknown_option
show_options o (option ∷ value ∷ rest) =
    let with_events = show_options (record o { events = true }) (value ∷ rest) in
    if equal option (codes "--events")
    then with_events
    else if equal option (codes "--command")
    then elim (take_command_id o value) [
      | accepted next ↦ show_options next rest
      | refused usage ↦ refused usage
    ]
    else refused unknown_option

-- What the program goes on to do.
pub data Action : Type 0 where
  usage : Usage → Action
  general_help : Action
  command_help : Bytes → Action
  version : Action
  record_session : Action
  record_program : List Bytes → Action
  show_capsule : Bytes → ShowOptions → Action
  diff_capsules : Bytes → Bytes → Action

abbrev is_help_flag : Bytes → Bool
is_help_flag value = equal value (codes "--help") || equal value (codes "-h")

-- The arguments behind the name of the command, in each of the following.
unfoldable pub help_command : List Bytes → Action
unfolding equal
help_command [] = general_help
help_command (topic ∷ []) =
    if is_help_flag topic
    then general_help
    else if equal topic (codes "record")
        || equal topic (codes "show")
        || equal topic (codes "diff")
        || equal topic (codes "help")
        || equal topic (codes "version")
    then command_help topic
    else usage unknown_topic
help_command (topic ∷ more) = usage too_many_topics

unfoldable pub record_command : List Bytes → Action
unfolding equal
record_command [] = record_session
record_command (dashes ∷ []) = usage record_arguments
record_command (dashes ∷ program ∷ arguments) =
    if equal dashes (codes "--")
    then record_program (program ∷ arguments)
    else usage record_arguments

abbrev pub shown : Bytes → Options → Action
shown path (accepted o) = show_capsule path o
shown path (refused u) = usage u

unfoldable pub show_command : List Bytes → Action
unfolding show_options
show_command [] = usage show_needs_path
show_command (path ∷ options) = shown path (show_options no_options options)

unfoldable pub diff_command : List Bytes → Action
diff_command (before ∷ after ∷ []) = diff_capsules before after
diff_command _ = usage diff_arguments

abbrev pub only_help_flag : List Bytes → Bool
only_help_flag (flag ∷ []) = is_help_flag flag
only_help_flag _ = false

abbrev none_given : List Bytes → Bool
none_given [] = true
none_given (argument ∷ arguments) = false

unfoldable pub run_command : Bytes → List Bytes → Action
unfolding equal help_command record_command show_command diff_command
run_command command arguments =
    if equal command (codes "help")
    then help_command arguments
    else if equal command (codes "--help") || equal command (codes "-h")
    then (if none_given arguments then general_help else usage help_arguments)
    else if equal command (codes "version") || equal command (codes "--version")
    then (if none_given arguments then version else usage version_arguments)
    else if (equal command (codes "record")
          || equal command (codes "show")
          || equal command (codes "diff"))
        && only_help_flag arguments
    then command_help command
    else if equal command (codes "record")
    then record_command arguments
    else if equal command (codes "show")
    then show_command arguments
    else if equal command (codes "diff")
    then diff_command arguments
    else usage unknown_command

-- `main`, for the arguments behind the program's name.
unfoldable pub main_action : List Bytes → Action
unfolding run_command
main_action [] = usage no_command
main_action (command ∷ arguments) = run_command command arguments
