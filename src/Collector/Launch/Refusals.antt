-- ===== src/Collector/Launch/Refusals.antt =====
-- That a recording which fails leaves no thread to run on.
use whyrun.Collector.Guard.{Request, kill, continue_killed, destroy_guard, reap}
use whyrun.Collector.Calls.{ok-injective}
use whyrun.Collector.Launch.{
  FirstStop, first_failed, first_stopped, first_ended, Launch, Refusal, fork_failed,
  options_refused, resume_refused, Begin, refused, begun, first_stop, launch, no_collection,
  asked_at, traced, collect_request,
}
use whyrun.Collector.Loop.{
  Progress, over, returned, blocked, loop, started, Collection, collection_of,
}
use whyrun.Collector.{Wait, Answers, contains}
use whyrun.Common.Int.{ℤ}
use whyrun.Common.{
  ℕ, ◌≡◌, ◌≢◌, ◌⊎◌, ◌||◌, refl, ◌>>=◌, sym, ap, ◌∙◌, Bool, true, false, List, [], ◌∷◌, ◌++◌, map,
  Option, none, some, ◌==◌, Bytes, ok, >>=-eq-ok, arith, inl, inr, Bool-cases,
}

-- SIGKILL has been asked for.
abbrev kills_one : ℕ → Request → Bool
kills_one tid (kill t) = t == tid
kills_one tid (continue_killed t) = false

unfoldable pub kills : ℕ → List Request → Bool
kills tid [] = false
kills tid (r ∷ rs) = kills_one tid r || kills tid rs

kills-map :
    (tid : ℕ) (tids : List ℕ) (more : List Request)
    → contains tid tids ≡ true
    → kills tid (map kill tids ++ more) ≡ true
unfolding kills
kills-map tid [] more h = cc
kills-map tid (t ∷ ts) more h = ground (arith, kills-map tid ts more)

guard-kills :
    (tid : ℕ) (ws : List Wait) (tids : List ℕ)
    → contains tid tids ≡ true
    → kills tid (destroy_guard true ws tids).1 ≡ true
unfolding destroy_guard
guard-kills tid ws tids h = kills-map tid tids (reap ws tids).1 h

-- The program of a launch that is refused.
abbrev Stopped : Launch → List Request → Type 0
Stopped a asked =
    (root : ℕ) → a.forked ≡ some root → (kills root asked ≡ true) ⊎ (a.first ≡ first_ended)

first_stop-Stopped :
    (root : ℕ) (first : FirstStop) (a : Launch) (ws : List Wait) (r : Refusal)
    (asked : List Request)
    → first_stop root first a ws ≡ (refused r, asked)
    → (kills root asked ≡ true) ⊎ (first ≡ first_ended)
unfolding first_stop kills
first_stop-Stopped root first_failed a ws r asked h =
    inl (ap (λ x. kills root x.1) (sym h) ∙ ground arith)
first_stop-Stopped root first_ended a ws r asked h = inr refl
first_stop-Stopped root first_stopped a ws r asked h = elim (Bool-cases a.options_set) [
  | inr refuses ↦
      let e : (refused options_refused, kill root ∷ []) ≡ (refused r, asked) = rw refuses at h in
      inl (ap (λ x. kills root x.1) (sym e) ∙ ground arith)
  | inl allows ↦ elim (Bool-cases a.resumed) [
    | inr stays ↦
        let e : (refused resume_refused, (destroy_guard true ws (root ∷ [])).1)
            ≡ (refused r, asked) =
          rw (allows, stays) at h in
        inl (ap (λ x. kills root x.1) (sym e) ∙ guard-kills root ws (root ∷ []) (ground arith))
    | inl goes ↦ let e : (begun root, []) ≡ (refused r, asked) = rw (allows, goes) at h in cc
  ]
]

launch-Stopped :
    (command : List Bytes) (a : Launch) (ws : List Wait) (r : Refusal) (asked : List Request)
    → launch command a ws ≡ (refused r, asked)
    → command ≢ []
    → Stopped a asked
unfolding launch
launch-Stopped [] a ws r asked h given root forked = absurd (given refl)
launch-Stopped (program ∷ arguments) a ws r asked h given root forked =
    let as_forked : Option ℕ → Begin × List Request = λ child. elim child [
      | none ↦ (refused fork_failed, [])
      | some root ↦ first_stop root a.first a ws
    ] in
    first_stop-Stopped root a.first a ws r asked (sym (ap as_forked forked) ∙ h)

-- What is asked of the kernel for the threads that are left behind the loop.
abbrev Leaves : Progress → List Request → Type 0
Leaves (over c) asked = asked ≡ []
Leaves (returned f c) asked = (tid : ℕ) → contains tid c.live_tids ≡ true → kills tid asked ≡ true
Leaves (blocked c) asked = asked ≡ []

asked_at-Leaves : (p : Progress) (later : List Wait) → Leaves p (asked_at p later)
unfolding destroy_guard
asked_at-Leaves (over c) later = refl
asked_at-Leaves (returned f c) later = λ tid live. guard-kills tid later c.live_tids live
asked_at-Leaves (blocked c) later = refl

module _ (command : List Bytes) (a : Launch) (cwd : Bytes) (root_command : Option Bytes)
    (channel_fd : Option ℤ) (now : ℕ) (ws : List (Wait × Answers)) (end_ns : ℕ)
    (later : List Wait) where
  -- How `collect` has come to its result.
  pub record Behind (root : ℕ) (r : Option Collection) (asked : List Request) : Type 0 where
    progress : Progress
    looped : loop ws (started root cwd root_command channel_fd now) ≡ ok progress
    result : collection_of channel_fd end_ns progress ≡ ok r
    leaves : Leaves progress asked

  abbrev pub Accounts : Option Collection → List Request → Type 0
  Accounts r asked =
      ((r ≡ some no_collection) × (command ≢ [] → Stopped a asked))
      ⊎ ((root : ℕ) × Behind root r asked)

  traced-Accounts :
      (begin : Begin × List Request) (r : Option Collection) (asked : List Request)
      → launch command a later ≡ begin
      → traced cwd root_command channel_fd now ws end_ns later begin ≡ ok (r, asked)
      → Accounts r asked
  unfolding traced
  traced-Accounts (refused why, sent) r asked launched h =
      let same : (some no_collection, sent) ≡ (r, asked) = ok-injective h in
      let kept : sent ≡ asked = ap (λ x. x.1) same in
      inl (
        sym (ap (λ x. x.0) same),
        (λ given. rw kept at (launch-Stopped command a later why sent launched given)),
      )
  traced-Accounts (begun root, sent) r asked launched h =
      let (p, looped, rest) =
        >>=-eq-ok (loop ws (started root cwd root_command channel_fd now))
          (λ p.
            collection_of channel_fd end_ns p >>= λ collection. ok (collection, asked_at p later))
          h in
      let (collection, concluded, last) =
        >>=-eq-ok (collection_of channel_fd end_ns p)
          (λ collection. ok (collection, asked_at p later)) rest in
      let same : (collection, asked_at p later) ≡ (r, asked) = ok-injective last in
      let of_result : collection ≡ r = ap (λ x. x.0) same in
      let of_asked : asked_at p later ≡ asked = ap (λ x. x.1) same in
      inr (
        root,
        record {
          progress = p;
          looped = looped;
          result = rw of_result at concluded;
          leaves = rw of_asked at (asked_at-Leaves p later);
        },
      )

  -- Where `collect` throws nothing: if it returns in front of the loop, its result is not good, and
  -- SIGKILL has been asked for the program, unless none was given, none was forked, or it had ended
  -- before its first stop. Otherwise its result is that of the loop. If an error has ended the loop,
  -- SIGKILL has been asked for each thread that the collector knows to live; if the loop has ended by
  -- itself, or still waits, nothing has been asked for.
  pub collect_request-Accounts :
      (r : Option Collection) (asked : List Request)
      → collect_request command a cwd root_command channel_fd now ws end_ns later ≡ ok (r, asked)
      → Accounts r asked
  unfolding collect_request
  collect_request-Accounts r asked h = traced-Accounts (launch command a later) r asked refl h
