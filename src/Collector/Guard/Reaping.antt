-- ===== src/Collector/Guard/Reaping.antt =====
-- That `TraceeGuard` of src/ptrace_collector.cpp leaves no thread behind.
use whyrun.Collector.{
  Wait, interrupted, no_children, wait_failed, exited, signaled, stopped, continued, contains,
  erase_tid,
}
use whyrun.Collector.Guard.{Request, kill, requests_for, left_by, reap, destroy_guard}
use whyrun.Common.{
  ℕ, ◌≡◌, ◌||◌, refl, ap, sym, ◌∙◌, Bool, true, false, List, [], ◌∷◌, ◌++◌, map, some, ◌==◌, arith,
  Bool-cases, inl, inr, All,
}

abbrev ends_one : ℕ → Wait → Bool
ends_one tid (exited t code) = t == tid
ends_one tid (signaled t sig) = t == tid
ends_one tid _ = false

-- One of the answers is the end of the thread.
unfoldable pub ends : ℕ → List Wait → Bool
ends tid [] = false
ends tid (w ∷ ws) = ends_one tid w || ends tid ws

abbrev is_trouble : Wait → Bool
is_trouble no_children = true
is_trouble wait_failed = true
is_trouble _ = false

abbrev pub Untroubled : List Wait → Type 0
Untroubled = All (λ w. is_trouble w ≡ false)

abbrev pub all_requests : List Wait → List Request
all_requests [] = []
all_requests (w ∷ ws) = requests_for w ++ all_requests ws

contains-erase_tid :
    (tid other : ℕ) (tids : List ℕ)
    → contains tid tids ≡ true
    → (other == tid) ≡ false
    → contains tid (erase_tid other tids) ≡ true
contains-erase_tid tid other [] h differs = cc
contains-erase_tid tid other (t ∷ ts) h differs = ground (arith, contains-erase_tid tid other ts)

erase_tid-contains :
    (tid other : ℕ) (tids : List ℕ)
    → contains tid (erase_tid other tids) ≡ true
    → (contains tid tids ≡ true) × ((other == tid) ≡ false)
erase_tid-contains tid other [] h = cc
erase_tid-contains tid other (t ∷ ts) h = ground (arith, erase_tid-contains tid other ts)

-- What an answer leaves of the threads: those that it does not end.
record Left (w : Wait) (tids : List ℕ) : Type 0 where
  left : List ℕ
  is_left : left_by w tids ≡ some left
  kept : (tid : ℕ) → contains tid tids ≡ true → ends_one tid w ≡ false → contains tid left ≡ true
  lost :
      (tid : ℕ) → contains tid left ≡ true → (contains tid tids ≡ true) × (ends_one tid w ≡ false)

all_left :
    (w : Wait) (tids : List ℕ)
    → left_by w tids ≡ some tids
    → ((tid : ℕ) → ends_one tid w ≡ false)
    → Left w tids
all_left w tids same ends_none = record {
  left = tids;
  is_left = same;
  kept = λ tid h spared. h;
  lost = λ tid h. (h, ends_none tid);
}

without :
    (w : Wait) (other : ℕ) (tids : List ℕ)
    → left_by w tids ≡ some (erase_tid other tids)
    → ((tid : ℕ) → ends_one tid w ≡ (other == tid))
    → Left w tids
without w other tids same ends_other = record {
  left = erase_tid other tids;
  is_left = same;
  kept = λ tid h spared. contains-erase_tid tid other tids h (sym (ends_other tid) ∙ spared);
  lost = λ tid h.
      let (there, differs) = erase_tid-contains tid other tids h in
      (there, ends_other tid ∙ differs);
}

left_by-Left : (w : Wait) (tids : List ℕ) → is_trouble w ≡ false → Left w tids
left_by-Left interrupted tids calm = all_left interrupted tids refl (λ tid. refl)
left_by-Left no_children tids calm = cc
left_by-Left wait_failed tids calm = cc
left_by-Left (exited tid code) tids calm = without (exited tid code) tid tids refl (λ t. refl)
left_by-Left (signaled tid sig) tids calm = without (signaled tid sig) tid tids refl (λ t. refl)
left_by-Left (stopped tid stop_signal event) tids calm =
    all_left (stopped tid stop_signal event) tids refl (λ t. refl)
left_by-Left (continued tid) tids calm = all_left (continued tid) tids refl (λ t. refl)

-- The answers that the loop takes, and what is then so.
record Reaped (ws : List Wait) (tids : List ℕ) : Type 0 where
  taken : List Wait
  rest : List Wait
  split : ws ≡ taken ++ rest
  done : reap ws tids ≡ (some [], all_requests taken)
  ended : (tid : ℕ) → contains tid tids ≡ true → ends tid taken ≡ true

taken_more :
    (w : Wait) (ws : List Wait) (t : ℕ) (ts : List ℕ) (first : Left w (t ∷ ts))
    → Reaped ws first.left
    → Reaped (w ∷ ws) (t ∷ ts)
unfolding reap ends
taken_more w ws t ts first reaped = record {
  taken = w ∷ reaped.taken;
  rest = reaped.rest;
  split = ap (λ l. w ∷ l) reaped.split;
  done = rw (first.is_left, reaped.done) refl;
  ended = λ tid h. elim (Bool-cases (ends_one tid w)) [
    | inl here ↦ rw here refl
    | inr spared ↦ rw spared (reaped.ended tid (first.kept tid h spared))
  ];
}

later_end :
    (tid : ℕ) (w : Wait) (ws : List Wait)
    → ends tid (w ∷ ws) ≡ true
    → ends_one tid w ≡ false
    → ends tid ws ≡ true
unfolding ends
later_end tid w ws h spared = rw spared at h

nothing_left : (ws : List Wait) → Reaped ws []
unfolding reap ends
nothing_left [] = record { taken = []; rest = []; split = refl; done = refl; ended = λ tid h. cc }
nothing_left (w ∷ ws) = record {
  taken = [];
  rest = w ∷ ws;
  split = refl;
  done = refl;
  ended = λ tid h. cc;
}

reap-Reaped :
    (ws : List Wait) (tids : List ℕ)
    → ((tid : ℕ) → contains tid tids ≡ true → ends tid ws ≡ true)
    → Untroubled ws
    → Reaped ws tids
unfolding reap ends
reap-Reaped ws [] all_end calm = nothing_left ws
reap-Reaped [] (t ∷ ts) all_end calm = let never : false ≡ true = all_end t (ground arith) in cc
reap-Reaped (w ∷ ws) (t ∷ ts) all_end (calm, later) =
    let first = left_by-Left w (t ∷ ts) calm in
    taken_more w ws t ts first (
      reap-Reaped ws first.left
        (λ tid h.
          let (there, spared) = first.lost tid h in later_end tid w ws (all_end tid there) spared)
        later)

-- When the collector gives up while threads live, and the kernel reports the end of each of them, as
-- SIGKILL has it, and `waitpid` does not fail: the destructor of the guard returns, with no thread left.
-- It has asked for SIGKILL for each of them once, and again for each stop that it was told of, and each of
-- them has been reported as ended among the answers that it has taken.
pub destroy_guard-reaps :
    (ws : List Wait) (tids : List ℕ)
    → ((tid : ℕ) → contains tid tids ≡ true → ends tid ws ≡ true)
    → Untroubled ws
    → (taken rest : List Wait) × (ws ≡ taken ++ rest)
      × (destroy_guard true ws tids ≡ (some [], map kill tids ++ all_requests taken))
      × ((tid : ℕ) → contains tid tids ≡ true → ends tid taken ≡ true)
unfolding destroy_guard
destroy_guard-reaps ws tids all_end calm =
    let r = reap-Reaped ws tids all_end calm in (r.taken, r.rest, r.split, rw r.done refl, r.ended)
