-- ===== src/Collector/Ending.antt =====
-- The result of the recording is the status of the shell.
use whyrun.Collector.Calls.{ok-injective}
use whyrun.Collector.Frame.Rounds.{on_stop-Frame}
use whyrun.Collector.Loop.{
  Progress, over, returned, blocked, none_live, proceed, loop, started, Collection, result_at,
  conclude, collection_of, collect,
}
use whyrun.Collector.Recording.{reached}
use whyrun.Collector.Turn.{gone, turn}
use whyrun.Collector.{
  Collector, Wait, interrupted, no_children, wait_failed, exited, signaled, stopped, continued,
  Answers, Round, again, leave, fail, at_end,
}
use whyrun.Common.Int.{ℤ, pos, negsuc}
use whyrun.Common.{
  ℕ, ◌≡◌, refl, sym, ap, ◌∙◌, true, false, List, [], ◌∷◌, Option, none, some, ◌==◌, arith, Bytes,
  Result, ok, >>=-eq-ok, inl, inr, Bool-cases,
}
use whyrun.Execution.Processes.{result_of}
use whyrun.Session.{finish}

-- Among the statuses that `waitpid` gave there is the end of the root, with this exit code and signal.
pub data Ends (root : ℕ) (code : ℤ) (sig : ℕ) : List (Wait × Answers) → Type 0 where
  by_exit :
      {status : ℕ} {a : Answers} {ws : List (Wait × Answers)}
      → code ≡ pos status
      → sig ≡ 0
      → Ends root code sig ((exited root status, a) ∷ ws)
  by_signal :
      {a : Answers} {ws : List (Wait × Answers)}
      → code ≡ result_of (negsuc 0) sig
      → Ends root code sig ((signaled root sig, a) ∷ ws)
  further :
      {w : Wait × Answers} {ws : List (Wait × Answers)}
      → Ends root code sig ws
      → Ends root code sig (w ∷ ws)

-- The result that the loop has so far is the one that it had, or the end of the root has been seen.
pub data Known (c : Collector) (ws : List (Wait × Answers)) (d : Collector) : Type 0 where
  as_before :
      d.root_pid ≡ c.root_pid
      → d.exit_code ≡ c.exit_code
      → d.term_signal ≡ c.term_signal
      → d.root_status_seen ≡ c.root_status_seen
      → Known c ws d
  ended : d.root_pid ≡ c.root_pid → Ends c.root_pid d.exit_code d.term_signal ws → Known c ws d

Known-refl : (c : Collector) (ws : List (Wait × Answers)) → Known c ws c
Known-refl c ws = as_before refl refl refl refl

module _ (c : Collector) (a : Answers) (ws : List (Wait × Answers)) where
  exited-Known :
      (tid status : ℕ) → Known c ((exited tid status, a) ∷ ws) (gone c a tid (pos status) 0)
  unfolding gone
  exited-Known tid status = elim (Bool-cases (tid == c.root_pid)) [
    | inl is_root ↦
        let same : tid ≡ c.root_pid = ground arith in
        rw (is_root, same) (ended refl (by_exit refl refl))
    | inr other ↦ rw other (as_before refl refl refl refl)
  ]

  signaled-Known :
      (tid sig : ℕ) → Known c ((signaled tid sig, a) ∷ ws) (gone c a tid (negsuc 0) sig)
  unfolding gone
  signaled-Known tid sig = elim (Bool-cases (tid == c.root_pid)) [
    | inl is_root ↦
        let same : tid ≡ c.root_pid = ground arith in
        rw (is_root, same) (ended refl (by_signal refl))
    | inr other ↦ rw other (as_before refl refl refl refl)
  ]

turn-Known :
    (c : Collector) (w : Wait × Answers) (ws : List (Wait × Answers)) (round : Round)
    → turn c w ≡ ok round
    → Known c (w ∷ ws) (at_end round)
unfolding turn
turn-Known c (interrupted, a) ws round h = rw (sym (ok-injective h)) (Known-refl c _)
turn-Known c (no_children, a) ws round h = rw (sym (ok-injective h)) (Known-refl c _)
turn-Known c (wait_failed, a) ws round h = rw (sym (ok-injective h)) (Known-refl c _)
turn-Known c (exited tid code, a) ws round h =
    rw (sym (ok-injective h)) (exited-Known c a ws tid code)
turn-Known c (signaled tid sig, a) ws round h =
    rw (sym (ok-injective h)) (signaled-Known c a ws tid sig)
turn-Known c (stopped tid stop_signal event, a) ws round h =
    let f = on_stop-Frame tid c a stop_signal event round h in
    as_before f.root f.code f.signal f.seen
turn-Known c (continued tid, a) ws round h = rw (sym (ok-injective h)) (Known-refl c _)

Known-root : {ws : List (Wait × Answers)} (c d : Collector) → Known c ws d → d.root_pid ≡ c.root_pid
Known-root c d (as_before root code sig seen) = root
Known-root c d (ended root ends) = root

Known-trans :
    (c d e : Collector) (w : Wait × Answers) (ws : List (Wait × Answers))
    → Known c (w ∷ ws) d
    → Known d ws e
    → Known c (w ∷ ws) e
Known-trans c d e w ws k (ended root ends) =
    ended (root ∙ Known-root c d k) (further (rw (sym (Known-root c d k)) ends))
Known-trans c d e w ws (as_before r1 c1 s1 n1) (as_before r2 c2 s2 n2) =
    as_before (r2 ∙ r1) (c2 ∙ c1) (s2 ∙ s1) (n2 ∙ n1)
Known-trans c d e w ws (ended r1 ends) (as_before r2 c2 s2 n2) = ended (r2 ∙ r1) (rw (c2, s2) ends)

proceed-Known :
    (rest : Collector → Result Progress) (ws : List (Wait × Answers)) (round : Round) (p : Progress)
    → ((c : Collector) → rest c ≡ ok p → Known c ws (reached p))
    → proceed round rest ≡ ok p
    → Known (at_end round) ws (reached p)
unfolding proceed
proceed-Known rest ws (again c) p go h = go c h
proceed-Known rest ws (leave c) p go h = rw (sym (ok-injective h)) (Known-refl c ws)
proceed-Known rest ws (fail f c) p go h = rw (sym (ok-injective h)) (Known-refl c ws)

loop-Known :
    (ws : List (Wait × Answers)) (c : Collector) (p : Progress)
    → loop ws c ≡ ok p
    → Known c ws (reached p)
unfolding loop
loop-Known [] c p h = rw (sym (ok-injective h)) (elim (Bool-cases (none_live c.live_tids)) [
  | inl idle ↦ rw idle (Known-refl c [])
  | inr live ↦ rw live (Known-refl c [])
])
loop-Known (w ∷ ws) c p h = elim (Bool-cases (none_live c.live_tids)) [
  | inl idle ↦ let same : p ≡ over c = ground arith in rw same (Known-refl c (w ∷ ws))
  | inr live ↦
      let (round, turned, rest) =
        >>=-eq-ok (turn c w) (λ round. proceed round (loop ws)) (ground arith) in
      Known-trans c (at_end round) (reached p) w ws (turn-Known c w ws round turned)
        (proceed-Known (loop ws) ws round p (λ d g. loop-Known ws d p g) rest)
]

-- What `collect` returns for a recording that went well, from the variables behind the loop.
conclude-eq-ok :
    (channel_fd : Option ℤ) (now : ℕ) (c : Collector) (r : Collection)
    → conclude channel_fd now c ≡ ok r
    → r ≡ result_at c c.root_status_seen now
unfolding conclude
conclude-eq-ok none now c r h = sym (ok-injective h)
conclude-eq-ok (some fd) now c r h =
    let (_, _, last) =
      >>=-eq-ok (finish c.command_protocol) (λ _. ok (result_at c c.root_status_seen now)) h in
    sym (ok-injective last)

some-injective : {A : Type 0} {x y : A} → some x ≡ some y → x ≡ y
some-injective {A} {x} {y} h = ground arith

progress-result :
    (channel_fd : Option ℤ) (now : ℕ) (p : Progress) (r : Collection)
    → collection_of channel_fd now p ≡ ok (some r)
    → r.collector_ok ≡ true
    → (r.exit_code ≡ (reached p).exit_code)
      × (r.term_signal ≡ (reached p).term_signal)
      × ((reached p).root_status_seen ≡ true)
unfolding collection_of
progress-result channel_fd now (over c) r h good =
    let (collection, concluded, last) =
      >>=-eq-ok (conclude channel_fd now c) (λ collection. ok (some collection)) h in
    let same = conclude-eq-ok channel_fd now c collection concluded in
    let e : r ≡ result_at c c.root_status_seen now =
      sym (some-injective (ok-injective last)) ∙ same in
    (ap (λ x. x.exit_code) e, ap (λ x. x.term_signal) e, sym (ap (λ x. x.collector_ok) e) ∙ good)
progress-result channel_fd now (returned f c) r h good =
    let e : result_at c false 0 ≡ r = some-injective (ok-injective h) in
    absurd (ground (arith, ap (λ x. x.collector_ok) e))
progress-result channel_fd now (blocked c) r h good = absurd (ground arith)

known_end :
    (c : Collector) (ws : List (Wait × Answers)) (d : Collector)
    → c.root_status_seen ≡ false
    → d.root_status_seen ≡ true
    → Known c ws d
    → Ends c.root_pid d.exit_code d.term_signal ws
known_end c ws d unseen seen (as_before root code sig same) = absurd (ground arith)
known_end c ws d unseen seen (ended root ends) = ends

-- A recording that is reported as good has seen the end of the shell: among the statuses that the
-- kernel gave is the exit of the root with the exit code that `collect` returns and no signal, or its
-- death by the signal that `collect` returns, where the exit code is 128 more than the signal, if that
-- is not 0.
pub collect-Ends :
    (root_pid : ℕ) (cwd : Bytes) (root_command : Option Bytes) (channel_fd : Option ℤ) (now : ℕ)
    (ws : List (Wait × Answers)) (end_ns : ℕ) (r : Collection)
    → collect root_pid cwd root_command channel_fd now ws end_ns ≡ ok (some r)
    → r.collector_ok ≡ true
    → Ends root_pid r.exit_code r.term_signal ws
unfolding collect
collect-Ends root_pid cwd root_command channel_fd now ws end_ns r h good =
    let c = started root_pid cwd root_command channel_fd now in
    let (p, looped, rest) = >>=-eq-ok (loop ws c) (collection_of channel_fd end_ns) h in
    let (code, sig, seen) = progress-result channel_fd end_ns p r rest good in
    rw (code, sig) (known_end c ws (reached p) refl seen (loop-Known ws c p looped))
