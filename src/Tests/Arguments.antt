-- ===== src/Tests/Arguments.antt =====
-- The arguments of the program.
use whyrun.CommandLine.Show.{IsCommandId, arguments_for, main_action-show, show_command-IsCommandId}
use whyrun.CommandLine.{
  ShowOptions, usage, show_capsule, command_help, record_program, command_twice, show_command,
  main_action, run_command,
}
use whyrun.Common.Int.{pos}
use whyrun.Common.Number.{from_chars_signed, to_string}
use whyrun.Common.{◌≡◌, refl, true, [], ◌∷◌, some, codes, arith}

abbrev options : ShowOptions
options = record { events = true; command_id = some (pos 12) }

spelled : arguments_for options ≡ codes "--events" ∷ codes "--command" ∷ codes "12" ∷ []
unfolding to_string
spelled = refl

main_action-show_example :
    main_action (codes "show" ∷ codes "run.db" ∷ arguments_for options)
    ≡ show_capsule (codes "run.db") options
unfolding run_command
main_action-show_example = main_action-show (codes "run.db") options refl (omega arith, omega arith)

reordered :
    show_command (codes "run.db" ∷ codes "--command" ∷ codes "12" ∷ codes "--events" ∷ [])
    ≡ show_capsule (codes "run.db") options
unfolding show_command from_chars_signed
reordered = refl

show_command-IsCommandId_example : IsCommandId options.command_id
show_command-IsCommandId_example =
    show_command-IsCommandId
      (codes "run.db" ∷ codes "--command" ∷ codes "12" ∷ codes "--events" ∷ []) (codes "run.db")
      options reordered

twice :
    main_action (
      codes "show" ∷ codes "x" ∷ codes "--command" ∷ codes "1" ∷ codes "--command" ∷ codes "2" ∷ [])
    ≡ usage command_twice
unfolding main_action from_chars_signed
twice = refl

dispatched :
    (main_action (codes "diff" ∷ codes "-h" ∷ []) ≡ command_help (codes "diff"))
    × (main_action (codes "record" ∷ codes "--" ∷ codes "ls" ∷ [])
        ≡ record_program (codes "ls" ∷ []))
unfolding main_action
dispatched = (refl, refl)
