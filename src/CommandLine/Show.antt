-- ===== src/CommandLine/Show.antt =====
-- The options of `show`.
use whyrun.CommandLine.{
  shown, only_help_flag, succeeded, is_positive, ShowOptions, no_options, Options, accepted,
  refused, parse_command_id, take_command_id, show_options, show_capsule, show_command, run_command,
  main_action, is_help_flag,
}
use whyrun.Common.{
  is_empty, ℕ, ◌-◌, ◌^◌, ◌<◌, ◌≤◌, ◌≡◌, refl, sym, ◌∙◌, ◌||◌, not, Bool, true, false, List, [], ◌∷◌,
  Option, none, some, Bytes, codes, equal, has_value, if◌then◌else◌, arith, inl, inr, Bool-cases,
  Option-cases,
}
use whyrun.Common.Int.{ℤ, pos, negsuc}
use whyrun.Common.Number.{to_string, from_chars_signed}
use whyrun.Common.Number.Laws.{to_string-starts, scan-to_string}
use whyrun.Session.Report.{from_chars_signed-scan}

-- A command id that the recorder can give: above 0, and in the range of `int64_t`.
abbrev pub IsCommandId : Option ℤ → Type 0
IsCommandId none = Unit
IsCommandId (some (pos n)) = (0 < n) × (n < 2 ^ 63)
IsCommandId (some (negsuc n)) = ⊥

-- The arguments that ask for these options.
abbrev pub id_arguments : Option ℤ → List Bytes
id_arguments none = []
id_arguments (some (pos n)) = codes "--command" ∷ to_string n ∷ []
id_arguments (some (negsuc n)) = []

abbrev pub arguments_for : ShowOptions → List Bytes
arguments_for o =
    if o.events then codes "--events" ∷ id_arguments o.command_id else id_arguments o.command_id

parse_command_id-to_string :
    (n : ℕ) → 0 < n → n < 2 ^ 63 → parse_command_id (to_string n) ≡ some (pos n)
unfolding parse_command_id
parse_command_id-to_string n above below = ground (
  arith,
  from_chars_signed-scan (to_string n) (2 ^ 63 - 1) n (to_string-starts n) (scan-to_string n),
)

id_arguments-accepted :
    (events : Bool) (id : Option ℤ)
    → IsCommandId id
    → show_options (record { events = events; command_id = none }) (id_arguments id)
      ≡ accepted (record { events = events; command_id = id })
unfolding show_options take_command_id
id_arguments-accepted events none v = refl
id_arguments-accepted events (some (pos n)) v = rw (parse_command_id-to_string n v.0 v.1) refl
id_arguments-accepted events (some (negsuc n)) v = absurd v

arguments_for-accepted :
    (o : ShowOptions)
    → IsCommandId o.command_id
    → show_options no_options (arguments_for o) ≡ accepted o
arguments_for-accepted o v = elim (Bool-cases o.events) [
  | inl events ↦ rw events (with_events o.command_id v)
  | inr quiet ↦ rw quiet (id_arguments-accepted false o.command_id v)
]
  where
    with_events :
        (id : Option ℤ)
        → IsCommandId id
        → show_options no_options (codes "--events" ∷ id_arguments id)
          ≡ accepted (record { events = true; command_id = id })
    with_events none v = unfold show_options in refl
    with_events (some (pos n)) v =
        unfold show_options in id_arguments-accepted true (some (pos n)) v
    with_events (some (negsuc n)) v = absurd v

no_help :
    (path : Bytes) (more : List Bytes)
    → is_help_flag path ≡ false
    → only_help_flag (path ∷ more) ≡ false
no_help path [] h = h
no_help path (m ∷ more) h = refl

-- For every choice of the options whose command id is one that the recorder gives, the arguments that
-- ask for it show the capsule with these options. The path is not a request for help.
pub main_action-show :
    (path : Bytes) (o : ShowOptions)
    → is_help_flag path ≡ false
    → IsCommandId o.command_id
    → main_action (codes "show" ∷ path ∷ arguments_for o) ≡ show_capsule path o
unfolding main_action run_command show_command
main_action-show path o no_flag v =
    rw (no_help path (arguments_for o) no_flag, arguments_for-accepted o v) refl

from_chars_signed-le :
    (limit n : ℕ) (s : Bytes) → (from_chars_signed limit s).value ≡ pos n → n ≤ limit
unfolding from_chars_signed
from_chars_signed-le limit n [] h = ground arith
from_chars_signed-le limit n (c ∷ s) h = ground arith

positive_id :
    (v : ℤ) → is_positive v ≡ true → ((n : ℕ) → v ≡ pos n → n ≤ 2 ^ 63 - 1) → IsCommandId (some v)
positive_id (pos n) h le = (ground arith, omega (arith, le n refl))
positive_id (negsuc n) h le = absurd (ground arith)

parse_command_id-IsCommandId : (value : Bytes) → IsCommandId (parse_command_id value)
unfolding parse_command_id
parse_command_id-IsCommandId value =
    let parsed = from_chars_signed (2 ^ 63 - 1) value in
    elim (Bool-cases
      (not (succeeded parsed.ec) || not (is_empty parsed.rest) || not (is_positive parsed.value))) [
        | inl bad ↦ rw bad tt
        | inr good ↦ rw good (
            positive_id parsed.value (ground arith)
              (λ n e. from_chars_signed-le (2 ^ 63 - 1) n value e))
      ]

take_command_id-IsCommandId :
    (o next : ShowOptions) (value : Bytes)
    → take_command_id o value ≡ accepted next
    → IsCommandId next.command_id
unfolding take_command_id
take_command_id-IsCommandId o next value h = elim (Bool-cases (has_value o.command_id)) [
  | inl twice ↦ absurd (ground arith)
  | inr first ↦ elim (Option-cases (parse_command_id value)) [
    | inl bad ↦ absurd (ground arith)
    | inr (id, good) ↦
        let same : next.command_id ≡ some id = ground arith in
        rw (same ∙ sym good) (parse_command_id-IsCommandId value)
  ]
]

-- Behind the argument of `--command` the loop goes on with the id that was read.
taken-IsCommandId :
    (o next : ShowOptions) (value : Bytes) (rest : List Bytes) (t : Options)
    → ((o' : ShowOptions)
        → IsCommandId o'.command_id
        → show_options o' rest ≡ accepted next
        → IsCommandId next.command_id)
    → take_command_id o value ≡ t
    → elim t [ accepted o' ↦ show_options o' rest | refused u ↦ refused u ] ≡ accepted next
    → IsCommandId next.command_id
taken-IsCommandId o next value rest (accepted o') go e h =
    go o' (take_command_id-IsCommandId o o' value e) h
taken-IsCommandId o next value rest (refused u) go e h = cc

show_options-IsCommandId :
    (arguments : List Bytes) (o next : ShowOptions)
    → IsCommandId o.command_id
    → show_options o arguments ≡ accepted next
    → IsCommandId next.command_id
unfolding show_options
show_options-IsCommandId [] o next v h =
    let same : next.command_id ≡ o.command_id = ground arith in rw same v
show_options-IsCommandId (option ∷ []) o next v h =
    let same : next.command_id ≡ o.command_id = ground arith in rw same v
show_options-IsCommandId (option ∷ value ∷ rest) o next v h =
    elim (Bool-cases (equal option (codes "--events"))) [
      | inl events ↦
          show_options-IsCommandId (value ∷ rest) (record o { events = true }) next v (ground arith)
      | inr other ↦ elim (Bool-cases (equal option (codes "--command"))) [
        | inl command ↦
            taken-IsCommandId o next value rest (take_command_id o value)
              (λ o' w g. show_options-IsCommandId rest o' next w g) refl (ground arith)
        | inr unknown ↦ absurd (ground arith)
      ]
    ]

shown-accepted :
    (p path : Bytes) (o : ShowOptions) (t : Options)
    → shown p t ≡ show_capsule path o
    → t ≡ accepted o
shown-accepted p path o (accepted o') h = ground arith
shown-accepted p path o (refused u) h = absurd (ground arith)

-- Whatever the options of `show` are: if they are accepted, the command id that they ask for, if any,
-- is above 0 and in the range of `int64_t`.
pub show_command-IsCommandId :
    (arguments : List Bytes) (path : Bytes) (o : ShowOptions)
    → show_command arguments ≡ show_capsule path o
    → IsCommandId o.command_id
unfolding show_command
show_command-IsCommandId [] path o h = absurd (ground arith)
show_command-IsCommandId (p ∷ options) path o h =
    show_options-IsCommandId options no_options o tt
      (shown-accepted p path o (show_options no_options options) h)
