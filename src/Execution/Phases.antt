-- ===== src/Execution/Phases.antt =====
-- The life of a command, as the protocol between Bash and the recorder sees it, and that
-- `on_command_marker` follows it.
use whyrun.Common.{
  ◌≢◌, Option-cases, ◌⊎◌, ℕ, ◌≡◌, refl, ap, ◌∙◌, true, not, ◌||◌, List, [], ◌∷◌, ◌++◌, map, Option,
  none, some, ◌==◌, if◌then◌else◌, arith, inl, inr, Bool-cases, Result, ok, err, armed_before_end,
  start_mismatch, end_mismatch,
}
use whyrun.Common.Map.{nat_key}
use whyrun.Common.Number.{to_string}
use whyrun.Event.{Event, EventType, command_start, command_end}
use whyrun.Execution.Invariant.{Inv, find_process-key, id_of}
use whyrun.Execution.Markers.{
  start_event, end_event, value_or, holds_id, arm_command, start_command, end_command, root_marker,
  marker_of, on_command_marker,
}
use whyrun.Execution.State.{ProcessState, ActiveCommand, State, find_process, write_process, emit}
use whyrun.Session.{Marker, MarkerType, arm, start, end}

-- What a command is between its markers.
pub data Phase : Type 0 where
  idle : Phase
  armed : ℕ → Phase
  running : ℕ → Phase

abbrev pub phase_of : Option ActiveCommand → Phase
phase_of none = idle
phase_of (some a) = if a.started then running a.id else armed a.id

-- What the protocol says of a recording: the phase, and the commands' starts and ends so far.
pub record View : Type 0 where
  pub phase : Phase
  pub log : List (EventType × Option ℕ)

abbrev pub entry : Event → EventType × Option ℕ
entry e = (e.type, e.command_id)

abbrev pub view : State → View
view st = record { phase = phase_of st.active_command; log = map entry st.emitted }

abbrev pub logged : View → EventType → ℕ → Phase → Result View
logged v type id next = ok (record { phase = next; log = v.log ++ (type, some id) ∷ [] })

-- The protocol: arm, start and end come in turn, with one id.
unfoldable pub follow : View → Phase → MarkerType → ℕ → Result View
follow v idle arm id = ok (record v { phase = armed id })
follow v _ arm id = err armed_before_end
follow v (armed i) start id =
    if i == id then logged v command_start id (running i) else err start_mismatch
follow v _ start id = err start_mismatch
follow v (running i) end id = if i == id then logged v command_end id idle else err end_mismatch
follow v _ end id = err end_mismatch

abbrev pub view_of : Result State → Result View
view_of (ok st) = ok (view st)
view_of (err e) = err e

map-snoc {ℓ κ} :
    {A : Type ℓ} {B : Type κ} (f : A → B) (xs : List A) (x : A)
    → map f (xs ++ x ∷ []) ≡ map f xs ++ f x ∷ []
map-snoc f [] x = refl
map-snoc f (y ∷ xs) x = ap (◌∷◌ (f y)) (map-snoc f xs x)

emit-view :
    (st : State) (e : Event) (id : ℕ)
    → e.command_id ≡ some id
    → map entry (emit st e).emitted ≡ map entry st.emitted ++ (e.type, some id) ∷ []
unfolding emit
emit-view st e id command = map-snoc entry st.emitted _ ∙ rw command refl

module _ (st : State) (tid : ℕ) (p : ProcessState) (marker : Marker) (ts : ℕ)
    (command : p.command_id ≡ id_of st.active_command) where
  arm-follows :
      view_of (arm_command st tid p marker)
      ≡ follow (view st) (phase_of st.active_command) arm marker.id
  unfolding arm_command follow write_process
  arm-follows = ground arith

  started-view :
      (a : ActiveCommand)
      → view (
          emit
            (record st { active_command = some (record a { started = true }) })
            (start_event
              (value_or a.first_process_ns ts)
              p.pid
              tid
              marker.text
              marker.cwd
              (to_string marker.id)
              marker.id))
        ≡ record {
          phase = running a.id;
          log = map entry st.emitted ++ (command_start, some marker.id) ∷ [];
        }
  started-view a =
      rw
        (emit-view (record st { active_command = some (record a { started = true }) })
          (start_event (value_or a.first_process_ns ts) p.pid tid marker.text marker.cwd
            (to_string marker.id) marker.id)
          marker.id refl)
        (unfold emit in refl)

  ended-view :
      view
        (record (write_process
          (emit st (end_event p tid marker ts))
          tid
          (record p { command_id = none })) { active_command = none })
      ≡ record { phase = idle; log = map entry st.emitted ++ (command_end, some marker.id) ∷ [] }
  unfolding write_process
  ended-view =
      rw (emit-view st (end_event p tid marker ts) marker.id (unfold end_event in refl))
        (unfold end_event in refl)

  module _ (a : ActiveCommand) (e : st.active_command ≡ some a) where
    start-accepted :
        (not (a.id == marker.id) || a.started || not (holds_id p.command_id marker.id))
        ≡ (not (a.id == marker.id) || a.started)
    start-accepted = ground arith

    end-accepted :
        (not (a.id == marker.id) || not a.started || not (holds_id p.command_id marker.id))
        ≡ (not (a.id == marker.id) || not a.started)
    end-accepted = ground arith

  start-follows :
      (a : Option ActiveCommand)
      → st.active_command ≡ a
      → view_of (start_command st tid p marker ts a) ≡ follow (view st) (phase_of a) start marker.id
  unfolding start_command follow
  start-follows none e = refl
  start-follows (some a) e = rw (start-accepted a e) (elim (Bool-cases a.started) [
    | inl running_already ↦ rw running_already (ground arith)
    | inr waiting ↦ elim (Bool-cases (a.id == marker.id)) [
      | inl same ↦
          let same_id : a.id ≡ marker.id = ground arith in
          rw (waiting, same) (ap ok (started-view a ∙ rw same_id refl))
      | inr other ↦ rw (waiting, other) refl
    ]
  ])

  end-follows :
      (a : Option ActiveCommand)
      → st.active_command ≡ a
      → view_of (end_command st tid p marker ts a) ≡ follow (view st) (phase_of a) end marker.id
  unfolding end_command follow
  end-follows none e = refl
  end-follows (some a) e = rw (end-accepted a e) (elim (Bool-cases a.started) [
    | inr waiting ↦ rw waiting (ground arith)
    | inl started ↦ elim (Bool-cases (a.id == marker.id)) [
      | inl same ↦ rw (started, same) (ap ok ended-view)
      | inr other ↦ rw (started, other) refl
    ]
  ])

  root_marker-follows :
      (type : MarkerType)
      → view_of (root_marker type st tid p marker ts)
        ≡ follow (view st) (phase_of st.active_command) type marker.id
  unfolding root_marker
  root_marker-follows arm = arm-follows
  root_marker-follows start = start-follows st.active_command refl
  root_marker-follows end = end-follows st.active_command refl

root-command :
    (st : State) (tid : ℕ) (p : ProcessState)
    → Inv st
    → find_process st tid ≡ some p
    → p.pid ≡ st.root_pid
    → p.command_id ≡ id_of st.active_command
unfolding find_process
root-command st tid p v found is_root =
    ground (arith, find_process-key st tid p v.keyed found, v.rooted.known, v.rooted.agrees)

-- The thread is unknown, or of another process than the root.
abbrev pub IsForeign : State → ℕ → Type 0
IsForeign st tid =
    (find_process st tid ≡ none)
    ⊎ ((p : ProcessState) × (find_process st tid ≡ some p) × (p.pid ≢ st.root_pid))

-- On a thread of the root process, in a state that meets the invariant, `on_command_marker` does what
-- the protocol says: it goes through the same phases, it adds the same `command_start` or
-- `command_end` to the log, and it raises the same error when a marker is out of turn or has another
-- id than the command that is open. On any other thread it changes nothing.
pub on_command_marker-follows :
    (st : State) (tid : ℕ) (marker : Marker) (ts : ℕ)
    → Inv st
    → ((p : ProcessState) × (find_process st tid ≡ some p)
        × (p.pid ≡ st.root_pid)
        × (view_of (on_command_marker st tid marker ts)
            ≡ follow (view st) (phase_of st.active_command) marker.type marker.id))
      ⊎ (IsForeign st tid × (on_command_marker st tid marker ts ≡ ok st))
on_command_marker-follows st tid marker ts v = elim (Option-cases (find_process st tid)) [
  | inl missing ↦ inr (inl missing, unfold on_command_marker marker_of in rw missing refl)
  | inr (p, found) ↦ elim (Bool-cases (p.pid == st.root_pid)) [
    | inl is_root ↦
        let same : p.pid ≡ st.root_pid = ground arith in
        inl (
          p,
          found,
          same,
          unfold on_command_marker marker_of in
              rw (found, is_root)
                (root_marker-follows st tid p marker ts (root-command st tid p v found same)
                  marker.type),
        )
    | inr other ↦
        inr (
          inr (p, found, ground arith),
          unfold on_command_marker marker_of in rw (found, other) refl,
        )
  ]
]
