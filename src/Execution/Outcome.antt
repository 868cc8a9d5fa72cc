-- ===== src/Execution/Outcome.antt =====
-- Every branch of `on_syscall_exit` has an effect of the kind that Effect.antt describes.
use whyrun.Execution.State.{is_armed}
use whyrun.Common.{◌≢◌}
use whyrun.Common.Int.{pos, int_eq, is_negative, int_of_word}
use whyrun.Common.{
  ℕ, ◌≡◌, refl, ◌⊎◌, inl, inr, Bool, true, false, ◌&&◌, ◌||◌, [], ◌∷◌, ◌++◌, Option, none, some,
  ◌==◌, if◌then◌else◌, Bytes, arith, is_empty, Option-cases, Bool-cases,
}
use whyrun.Endpoint.{SocketEndpoint, socket_endpoint}
use whyrun.Event.{Event}
use whyrun.Execution.Calls.{
  nr_write, nr_open, nr_openat, nr_openat2, nr_close, nr_dup, nr_dup2, nr_dup3, nr_socket,
  nr_connect, nr_chdir, nr_fchdir, RawSyscall, arg, is_file, is_socket, nr_read,
}
use whyrun.Execution.Descriptors.{
  transfer_event, connect_event, transfer_of, on_transfer, on_close, dup_of, on_dup, on_socket,
  rename_socket, connect_to, on_connect, on_chdir, fchdir_to, on_fchdir,
}
use whyrun.Execution.Effect.{
  Effect, Records, nothing, one, IsOf, is_command_event, Effect-refl, Effect-emit, Effect-write,
}
use whyrun.Execution.Events.{with_meta}
use whyrun.Execution.Opens.{record_open, open_event, openat_event, on_open, on_openat}
use whyrun.Execution.State.{
  Resource, ProcessState, State, find_process, write_process, attribution, emit,
}
use whyrun.Execution.Syscalls.{dispatch, syscall_of, on_syscall_exit}
use whyrun.Host.{Host}

pub record Outcome (sc : RawSyscall) (p : ProcessState) (st st' : State) : Type 0 where
  pub effect : Effect sc p st st'
  pub records : Records sc p st st'

IsOf-with_meta :
    (sc : RawSyscall) (p : ProcessState) (k v : Bytes) (e : Event)
    → IsOf sc p e
    → IsOf sc p (with_meta k v e)
IsOf-with_meta sc p k v e h = record {
  at_time = h.at_time;
  of_process = h.of_process;
  of_thread = h.of_thread;
  with_result = h.with_result;
  with_errno = h.with_errno;
  no_command = h.no_command;
}

IsOf-attributed :
    (sc : RawSyscall) (p : ProcessState) (id : Option ℕ) (e : Event)
    → IsOf sc p e
    → IsOf sc p (record e { command_id = id })
IsOf-attributed sc p id e h = record {
  at_time = h.at_time;
  of_process = h.of_process;
  of_thread = h.of_thread;
  with_result = h.with_result;
  with_errno = h.with_errno;
  no_command = h.no_command;
}

-- An address is never taken for a command.
endpoint-no_command :
    (host : Host) (tid address size : ℕ) (e : SocketEndpoint)
    → socket_endpoint host tid address size ≡ some e
    → is_command_event e.event_type ≡ false
unfolding socket_endpoint
endpoint-no_command host tid address size e h = ground arith

module _ (host : Host) (sc : RawSyscall) (p : ProcessState) (st : State)
    (found : find_process st sc.tid ≡ some p) where
  keeps : Outcome sc p st st
  keeps = record { effect = Effect-refl sc p st; records = nothing refl }

  pub grown :
      (e : Event)
      → IsOf sc p e
      → e.command_id ≡ none
      → (emit st e).emitted ≡ st.emitted ++ record e { command_id = attribution st (some p) } ∷ []
  unfolding emit
  grown e h unset = rw (unset, h.of_thread, found)

  emits : (e : Event) → IsOf sc p e → e.command_id ≡ none → Outcome sc p st (emit st e)
  emits e h unset = record {
    effect = Effect-emit sc p st e;
    records =
        one (record e { command_id = attribution st (some p) }) (grown e h unset)
          (IsOf-attributed sc p (attribution st (some p)) e h) refl;
  }

  writes :
      (st' : State) (q : ProcessState)
      → q.pid ≡ p.pid
      → q.command_id ≡ p.command_id
      → Outcome sc p st st'
      → Outcome sc p st (write_process st' sc.tid q)
  writes st' q pid command v = record {
    effect = Effect-write sc p st st' q found pid command v.effect;
    records = go v.records;
  }
    where
      go : Records sc p st st' → Records sc p st (write_process st' sc.tid q)
      go (nothing e) = unfold write_process in nothing e
      go (one e grown h c) = unfold write_process in one e grown h c

  record_open-Outcome :
      (e : Event) (r : Resource)
      → IsOf sc p e
      → e.command_id ≡ none
      → Outcome sc p st (record_open st sc p e r)
  unfolding record_open
  record_open-Outcome e r h unset = elim (Bool-cases (is_negative sc.result)) [
    | inl failed ↦ rw failed (emits e h unset)
    | inr done ↦ rw done (writes (emit st e) _ refl refl (emits e h unset))
  ]

  on_open-Outcome : Outcome sc p st (on_open host st sc p)
  unfolding on_open
  on_open-Outcome =
      record_open-Outcome (open_event host sc p) _ (unfold open_event in ground arith) refl

  on_openat-Outcome : Outcome sc p st (on_openat host st sc p)
  unfolding on_openat
  on_openat-Outcome =
      record_open-Outcome (openat_event host sc p) _ (unfold openat_event in ground arith) refl

  transfer_of-Outcome : (r : Option Resource) → Outcome sc p st (transfer_of st sc p r)
  unfolding transfer_of
  transfer_of-Outcome none = keeps
  transfer_of-Outcome (some r) = elim (Bool-cases (is_file r)) [
    | inl hit ↦ rw hit (emits (transfer_event sc p r.name) (ground arith) refl)
    | inr other ↦ rw other keeps
  ]

  on_close-Outcome : Outcome sc p st (on_close st sc p)
  unfolding on_close
  on_close-Outcome = elim (Bool-cases (int_eq sc.result (pos 0))) [
    | inl done ↦ rw done (writes st _ refl refl keeps)
    | inr failed ↦ rw failed keeps
  ]

  dup_of-Outcome : (r : Option Resource) → Outcome sc p st (dup_of st sc p r)
  unfolding dup_of
  dup_of-Outcome none = writes st _ refl refl keeps
  dup_of-Outcome (some r) = writes st _ refl refl keeps

  on_dup-Outcome : Outcome sc p st (on_dup st sc p)
  unfolding on_dup
  on_dup-Outcome = elim (Bool-cases (is_negative sc.result)) [
    | inl failed ↦ rw failed keeps
    | inr done ↦ rw done (dup_of-Outcome (p.fd_table (int_of_word (arg sc 0))))
  ]

  on_socket-Outcome : Outcome sc p st (on_socket st sc p)
  unfolding on_socket
  on_socket-Outcome = elim (Bool-cases (is_negative sc.result)) [
    | inl failed ↦ rw failed keeps
    | inr done ↦ rw done (writes st _ refl refl keeps)
  ]

  rename_socket-Outcome :
      (st' : State) (name : Bytes) (r : Option Resource)
      → Outcome sc p st st'
      → Outcome sc p st (rename_socket st' sc p name r)
  unfolding rename_socket
  rename_socket-Outcome st' name none v = v
  rename_socket-Outcome st' name (some r) v = elim (Bool-cases (is_socket r)) [
    | inl hit ↦ rw hit (writes st' _ refl refl v)
    | inr other ↦ rw other v
  ]

  connect_to-Outcome :
      (e : Option SocketEndpoint)
      → socket_endpoint host sc.tid (arg sc 1) (arg sc 2) ≡ e
      → Outcome sc p st (connect_to st sc p e)
  unfolding connect_to
  connect_to-Outcome none h = keeps
  connect_to-Outcome (some e) h =
      rename_socket-Outcome (emit st (connect_event sc p e)) e.resource _ (
        emits (connect_event sc p e)
          (ground (arith, endpoint-no_command host sc.tid (arg sc 1) (arg sc 2) e h)) refl)

  on_chdir-Outcome : Outcome sc p st (on_chdir host st sc p)
  unfolding on_chdir
  on_chdir-Outcome = elim (Bool-cases (is_empty (host.read_string sc.tid (arg sc 0)))) [
    | inl nothing_read ↦ rw nothing_read keeps
    | inr read ↦ rw read (writes st _ refl refl keeps)
  ]

  fchdir_to-Outcome : (r : Option Resource) → Outcome sc p st (fchdir_to st sc p r)
  unfolding fchdir_to
  fchdir_to-Outcome none = keeps
  fchdir_to-Outcome (some r) = elim (Bool-cases (is_file r)) [
    | inl hit ↦ rw hit (writes st _ refl refl keeps)
    | inr other ↦ rw other keeps
  ]

  -- Each test of the chain either takes its branch or leaves it to the rest.
  choose :
      (b : Bool) {x y : State}
      → Outcome sc p st x
      → Outcome sc p st y
      → Outcome sc p st (if b then x else y)
  choose true hx hy = hx
  choose false hx hy = hy

  pub dispatch-Outcome : Outcome sc p st (dispatch host st sc p)
  unfolding dispatch on_transfer on_connect on_fchdir
  dispatch-Outcome = choose (sc.number == nr_open) on_open-Outcome (
      choose (sc.number == nr_openat || sc.number == nr_openat2) on_openat-Outcome (
        choose (sc.number == nr_read || sc.number == nr_write) (transfer_of-Outcome _) (
          choose (sc.number == nr_close) on_close-Outcome (
            choose (sc.number == nr_dup || sc.number == nr_dup2 || sc.number == nr_dup3)
              on_dup-Outcome
              (choose (sc.number == nr_socket) on_socket-Outcome (
                choose (sc.number == nr_connect) (connect_to-Outcome _ refl) (
                  choose (sc.number == nr_chdir && int_eq sc.result (pos 0)) on_chdir-Outcome (
                    choose (sc.number == nr_fchdir && int_eq sc.result (pos 0))
                      (fchdir_to-Outcome _) keeps))))))))

syscall_of-eq :
    (host : Host) (st : State) (sc : RawSyscall) (p : ProcessState)
    → find_process st sc.tid ≡ some p
    → on_syscall_exit host st sc ≡ dispatch host st sc p
unfolding on_syscall_exit syscall_of
syscall_of-eq host st sc p found = rw found

-- The id of the command that an event of a process is given: none if it is the root's and a command is
-- armed that has not started, and otherwise the one that the process carries.
abbrev pub IsGiven : State → ProcessState → Option ℕ → Type 0
IsGiven st p id =
    ((p.pid ≡ st.root_pid) × (is_armed st.active_command ≡ true) × (id ≡ none))
    ⊎ (((p.pid ≢ st.root_pid) ⊎ (is_armed st.active_command ≡ false)) × (id ≡ p.command_id))

attribution-IsGiven : (st : State) (p : ProcessState) → IsGiven st p (attribution st (some p))
unfolding attribution
attribution-IsGiven st p = elim (Bool-cases (p.pid == st.root_pid)) [
  | inl root ↦ elim (Bool-cases (is_armed st.active_command)) [
    | inl armed ↦ rw (root, armed) (inl (ground arith, refl, refl))
    | inr calm ↦ rw (root, calm) (inr (inr refl, refl))
  ]
  | inr other ↦ rw other (inr (inl (λ e. ground arith), refl))
]

-- A system call of a known process adds at most one event, which carries the process, the thread,
-- the time, the result and the error number of the call, and is never a command's start or end. Its
-- command is the one that the process carries, or none if the process is the root while a command is
-- armed and not started. The call leaves alone the threads, the command that is active, the pid and the
-- command of every process, and all of every other process. A system call of an unknown process
-- changes nothing.
pub on_syscall_exit-Outcome :
    (host : Host) (st : State) (sc : RawSyscall)
    → ((find_process st sc.tid ≡ none) × (on_syscall_exit host st sc ≡ st))
      ⊎ ((p : ProcessState) × (find_process st sc.tid ≡ some p)
          × Outcome sc p st (on_syscall_exit host st sc)
          × IsGiven st p (attribution st (some p)))
on_syscall_exit-Outcome host st sc = elim (Option-cases (find_process st sc.tid)) [
  | inl missing ↦ inl (missing, unfold on_syscall_exit syscall_of in rw missing)
  | inr (p, found) ↦ inr (
    p,
    found,
    rw (syscall_of-eq host st sc p found) (dispatch-Outcome host sc p st found),
    attribution-IsGiven st p,
  )
]
