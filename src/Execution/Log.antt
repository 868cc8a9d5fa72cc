-- ===== src/Execution/Log.antt =====
-- The commands that a list of events tells of: one at a time, each opened by a `command_start` and
-- closed by a `command_end` with the same id.
use whyrun.Common.{
  ℕ, ◌≡◌, false, List, [], ◌∷◌, ◌++◌, Option, none, some, ◌==◌, if◌then◌else◌, arith,
}
use whyrun.Event.{Event, EventType, command_start, command_end}
use whyrun.Execution.Effect.{is_command_event}
use whyrun.Execution.State.{State, ActiveCommand}

-- The command that is open behind an event of this type and id, if the event may stand here.
next_open : EventType → Option ℕ → Option ℕ → Option (Option ℕ)
next_open command_start none (some id) = some (some id)
next_open command_start _ _ = none
next_open command_end (some open_id) (some id) = if open_id == id then some none else none
next_open command_end _ _ = none
next_open _ current id = some current

-- The command that is open behind the events, if they are well bracketed.
unfoldable pub open_after : Option ℕ → List Event → Option (Option ℕ)
unfolding next_open
open_after current [] = some current
open_after current (e ∷ es) = elim (next_open e.type current e.command_id) [
  | none ↦ none
  | some next ↦ open_after next es
]

continue_after {ℓ} :
    {A B : Type ℓ} {P Q : A → Option B} {a b : B} (o : Option A)
    → elim o [ none ↦ none | some c ↦ P c ] ≡ some a
    → ((c : A) → P c ≡ some a → Q c ≡ some b)
    → elim o [ none ↦ none | some c ↦ Q c ] ≡ some b
continue_after none h go = absurd (ground arith)
continue_after (some c) h go = go c h

open_after-concat :
    (es : List Event) (e : Event) (current open_id next : Option ℕ)
    → open_after current es ≡ some open_id
    → next_open e.type open_id e.command_id ≡ some next
    → open_after current (es ++ e ∷ []) ≡ some next
unfolding open_after
open_after-concat [] e current open_id next h n = ground arith
open_after-concat (f ∷ es) e current open_id next h n =
    continue_after (next_open f.type current f.command_id) h
      (λ c k. open_after-concat es e c open_id next k n)

-- The id of a command that has started and not ended.
abbrev pub open_id_of : Option ActiveCommand → Option ℕ
open_id_of none = none
open_id_of (some a) = if a.started then some a.id else none

abbrev pub IsBracketed : State → Type 0
IsBracketed st = open_after none st.emitted ≡ some (open_id_of st.active_command)

next_open-other :
    (type : EventType) (current id : Option ℕ)
    → is_command_event type ≡ false
    → next_open type current id ≡ some current
unfolding next_open
next_open-other command_start current id h = cc
next_open-other _ current id h = ground arith

module _ (es : List Event) (e : Event) where
  pub other-open_after :
      (current : Option ℕ)
      → open_after none es ≡ some current
      → is_command_event e.type ≡ false
      → open_after none (es ++ e ∷ []) ≡ some current
  other-open_after current h other =
      open_after-concat es e none current current h
        (next_open-other e.type current e.command_id other)

  pub start-open_after :
      (id : ℕ)
      → open_after none es ≡ some none
      → e.type ≡ command_start
      → e.command_id ≡ some id
      → open_after none (es ++ e ∷ []) ≡ some (some id)
  unfolding next_open
  start-open_after id h type command =
      open_after-concat es e none none (some id) h (rw (type, command))

  pub end-open_after :
      (id : ℕ)
      → open_after none es ≡ some (some id)
      → e.type ≡ command_end
      → e.command_id ≡ some id
      → open_after none (es ++ e ∷ []) ≡ some none
  unfolding next_open
  end-open_after id h type command =
      open_after-concat es e none (some id) none h (rw (type, command) (ground arith))
