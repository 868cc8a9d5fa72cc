-- ===== src/Collector/Recording.antt =====
-- What holds of the recording at the end of the loop.
use whyrun.Collector.Calls.{Leads, Leads-refl, Leads-trans, Leads-call, ok-injective}
use whyrun.Collector.Calls.Rounds.{at_stop-Leads}
use whyrun.Collector.Loop.{Progress, over, returned, blocked, none_live, proceed, loop, started}
use whyrun.Collector.Turn.{gone, on_stop, turn}
use whyrun.Collector.{
  Collector, Wait, interrupted, no_children, wait_failed, exited, signaled, stopped, continued,
  Answers, Round, again, leave, fail, at_end, set_options_failed, insert_tid,
}
use whyrun.Common.Int.{ℤ, pos, negsuc}
use whyrun.Common.{
  ℕ, ◌≡◌, ◌≢◌, refl, sym, true, List, [], ◌∷◌, Option, some, ◌==◌, if◌then◌else◌, arith, Bytes,
  Result, ok, >>=-eq-ok, All, inl, inr, Bool-cases,
}
use whyrun.Execution.Invariant.{Inv}
use whyrun.Execution.Processes.{on_process_exit}
use whyrun.Execution.Run.{exits, step, recorded-Inv}

-- The kernel gives no new process the pid `k`.
abbrev pub Avoids : ℕ → Wait × Answers → Type 0
Avoids k (w, a) = a.event_message ≢ some k

gone-execution :
    (c : Collector) (a : Answers) (tid : ℕ) (code : ℤ) (sig : ℕ)
    → (gone c a tid code sig).execution ≡ on_process_exit c.execution tid code sig a.now_ns
unfolding gone
gone-execution c a tid code sig = ground arith

gone-Leads :
    (k : ℕ) (c : Collector) (a : Answers) (tid : ℕ) (code : ℤ) (sig : ℕ)
    → Leads k c.execution (gone c a tid code sig).execution
gone-Leads k c a tid code sig = rw (gone-execution c a tid code sig) (
    Leads-call k a.host (exits tid code sig a.now_ns) c.execution
      (on_process_exit c.execution tid code sig a.now_ns) tt (unfold step in refl))

on_stop-Leads :
    (k : ℕ) (c : Collector) (a : Answers) (tid stop_signal event : ℕ) (round : Round)
    → a.event_message ≢ some k
    → on_stop c a tid stop_signal event ≡ ok round
    → Leads k c.execution (at_end round).execution
unfolding on_stop
on_stop-Leads k c a tid stop_signal event round spared h =
    elim (Bool-cases (c.configured_tids tid)) [
      | inl known ↦
          at_stop-Leads k (record c { live_tids = insert_tid tid c.live_tids }) a tid stop_signal
            event round spared (ground arith)
      | inr new ↦ elim (Bool-cases a.options_set) [
        | inl set ↦
            at_stop-Leads k
              (record c {
                live_tids = insert_tid tid c.live_tids;
                configured_tids = λ t. if t == tid then true else c.configured_tids t;
              })
              a tid stop_signal event round spared (ground arith)
        | inr unset ↦
            let same : round
                ≡ fail (set_options_failed tid)
                    (record c { live_tids = insert_tid tid c.live_tids }) =
              ground arith in
            rw same (Leads-refl k c.execution)
      ]
    ]

turn-Leads :
    (k : ℕ) (c : Collector) (w : Wait × Answers) (round : Round)
    → Avoids k w
    → turn c w ≡ ok round
    → Leads k c.execution (at_end round).execution
unfolding turn
turn-Leads k c (interrupted, a) round spared h =
    rw (sym (ok-injective h)) (Leads-refl k c.execution)
turn-Leads k c (no_children, a) round spared h =
    rw (sym (ok-injective h)) (Leads-refl k c.execution)
turn-Leads k c (wait_failed, a) round spared h =
    rw (sym (ok-injective h)) (Leads-refl k c.execution)
turn-Leads k c (exited tid code, a) round spared h =
    rw (sym (ok-injective h)) (gone-Leads k c a tid (pos code) 0)
turn-Leads k c (signaled tid sig, a) round spared h =
    rw (sym (ok-injective h)) (gone-Leads k c a tid (negsuc 0) sig)
turn-Leads k c (stopped tid stop_signal event, a) round spared h =
    on_stop-Leads k c a tid stop_signal event round spared h
turn-Leads k c (continued tid, a) round spared h =
    rw (sym (ok-injective h)) (Leads-refl k c.execution)

-- The variables at the point that the loop has come to.
abbrev pub reached : Progress → Collector
reached (over c) = c
reached (returned f c) = c
reached (blocked c) = c

proceed-Leads :
    (k : ℕ) (rest : Collector → Result Progress) (round : Round) (p : Progress)
    → ((c : Collector) → rest c ≡ ok p → Leads k c.execution (reached p).execution)
    → proceed round rest ≡ ok p
    → Leads k (at_end round).execution (reached p).execution
unfolding proceed
proceed-Leads k rest (again c) p go h = go c h
proceed-Leads k rest (leave c) p go h = rw (sym (ok-injective h)) (Leads-refl k c.execution)
proceed-Leads k rest (fail f c) p go h = rw (sym (ok-injective h)) (Leads-refl k c.execution)

-- Whatever the kernel answers, short of giving the pid `k` to a new process, the loop leads from one
-- state of `ExecutionState` to another by calls of its handlers, none of which creates a process `k`.
pub loop-Leads :
    (k : ℕ) (ws : List (Wait × Answers)) (c : Collector) (p : Progress)
    → All (Avoids k) ws
    → loop ws c ≡ ok p
    → Leads k c.execution (reached p).execution
unfolding loop
loop-Leads k [] c p spared h =
    rw (sym (ok-injective h)) (elim (Bool-cases (none_live c.live_tids)) [
      | inl idle ↦ rw idle (Leads-refl k c.execution)
      | inr live ↦ rw live (Leads-refl k c.execution)
    ])
loop-Leads k (w ∷ ws) c p (avoids, spared) h = elim (Bool-cases (none_live c.live_tids)) [
  | inl idle ↦ let same : p ≡ over c = ground arith in rw same (Leads-refl k c.execution)
  | inr live ↦
      let (round, turned, rest) =
        >>=-eq-ok (turn c w) (λ round. proceed round (loop ws)) (ground arith) in
      Leads-trans k c.execution (at_end round).execution (reached p).execution
        (turn-Leads k c w round avoids turned)
        (proceed-Leads k (loop ws) round p (λ d g. loop-Leads k ws d p spared g) rest)
]

-- However far the loop of `collect` has come, and whatever the kernel has answered, short of giving
-- the root's pid to a new process: if no exception is thrown, the state of the recording meets the
-- invariant of `ExecutionState`. So the events that the sink has got are well bracketed, and the
-- command that is open is the one that the recorder takes for active.
pub loop-Inv :
    (root_pid : ℕ) (cwd : Bytes) (root_command : Option Bytes) (channel_fd : Option ℤ) (now : ℕ)
    (ws : List (Wait × Answers)) (p : Progress)
    → All (Avoids root_pid) ws
    → loop ws (started root_pid cwd root_command channel_fd now) ≡ ok p
    → Inv (reached p).execution
loop-Inv root_pid cwd root_command channel_fd now ws p spared h =
    let l = loop-Leads root_pid ws (started root_pid cwd root_command channel_fd now) p spared h in
    recorded-Inv root_pid cwd now root_command l.calls (reached p).execution l.spare l.runs
