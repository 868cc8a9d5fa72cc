-- ===== src/Execution/Tracking.antt =====
-- What the recorder knows of a descriptor stays until the process changes it.
pub mod Names
use whyrun.Execution.Opens.{opened, record_open, on_open, on_openat}
use whyrun.Common.Int.{ℤ, pos, is_negative, int_eq, int_of_word, int_of_long}
use whyrun.Common.Map.{int_key, nat_key, assign, erase}
use whyrun.Common.{
  ℕ, ◌≡◌, ◌≢◌, ◌⊎◌, refl, sym, ap, ◌∙◌, ◌&&◌, ◌||◌, not, Bool, true, false, List, [], ◌∷◌, Option,
  none, some, ◌==◌, if◌then◌else◌, arith, Bytes, is_empty, inl, inr, Bool-cases,
}
use whyrun.Endpoint.{SocketEndpoint, socket_endpoint}
use whyrun.Event.{Event}
use whyrun.Execution.Calls.{
  RawSyscall, arg, is_file, is_socket, nr_read, nr_write, nr_open, nr_openat, nr_openat2, nr_close,
  nr_dup, nr_dup2, nr_dup3, nr_socket, nr_connect, nr_chdir, nr_fchdir,
}
use whyrun.Execution.Descriptors.{
  transfer_event, transfer_of, on_transfer, on_close, dup_of, on_dup, on_socket, rename_socket,
  connect_event, connect_to, on_connect, on_chdir, fchdir_to, on_fchdir,
}
use whyrun.Execution.State.{
  Resource, ProcessState, State, find_process, process_for_thread, write_process, emit,
}
use whyrun.Execution.Syscalls.{dispatch, syscall_of, on_syscall_exit}
use whyrun.Host.{Host}

-- The process of the thread has `r` for the descriptor.
pub record Knows (st : State) (tid : ℕ) (fd : ℤ) (r : Option Resource) : Type 0 where
  pub process : ProcessState
  pub found : find_process st tid ≡ some process
  pub entry : process.fd_table fd ≡ r

abbrev pub IsTransfer : RawSyscall → Type 0
IsTransfer sc = (sc.number ≡ nr_read) ⊎ (sc.number ≡ nr_write)

-- The calls that return a new descriptor.
abbrev pub gives : RawSyscall → Bool
gives sc =
    sc.number == nr_open
    || (sc.number == nr_openat || sc.number == nr_openat2)
    || (sc.number == nr_dup || sc.number == nr_dup2 || sc.number == nr_dup3)
    || sc.number == nr_socket

-- The calls that change what their first argument is open on, or is known as.
abbrev pub takes : RawSyscall → Bool
takes sc = sc.number == nr_close || sc.number == nr_connect

-- The call does not give the descriptor, and does not close or connect it.
abbrev pub Spares : ℤ → RawSyscall → Type 0
Spares fd sc =
    (gives sc ≡ true → int_eq (int_of_long sc.result) fd ≡ false)
    × (takes sc ≡ true → int_eq (int_of_word (arg sc 0)) fd ≡ false)

emit-Knows :
    (st : State) (e : Event) (tid : ℕ) (fd : ℤ) (r : Option Resource)
    → Knows st tid fd r
    → Knows (emit st e) tid fd r
unfolding emit find_process process_for_thread
emit-Knows st e tid fd r k = record { process = k.process; found = k.found; entry = k.entry }

pub write-Knows :
    (st : State) (tid : ℕ) (q : ProcessState) (fd : ℤ) (r : Option Resource)
    → q.fd_table fd ≡ r
    → Knows (write_process st tid q) tid fd r
unfolding write_process find_process process_for_thread
write-Knows st tid q fd r e = record { process = q; found = ground arith; entry = e }

transfer_tests :
    (sc : RawSyscall)
    → IsTransfer sc
    → ((sc.number == nr_open) ≡ false)
      × ((sc.number == nr_openat || sc.number == nr_openat2) ≡ false)
      × ((sc.number == nr_read || sc.number == nr_write) ≡ true)
transfer_tests sc (inl number) = (ground arith, ground arith, ground arith)
transfer_tests sc (inr number) = (ground arith, ground arith, ground arith)

pub dispatch-transfer :
    (host : Host) (st : State) (sc : RawSyscall) (p : ProcessState)
    → IsTransfer sc
    → dispatch host st sc p ≡ on_transfer st sc p
unfolding dispatch
dispatch-transfer host st sc p number =
    let (no_open, no_openat, transfer) = transfer_tests sc number in
    rw (no_open, no_openat, transfer) refl

module _ (host : Host) (st : State) (sc : RawSyscall) (p : ProcessState) (fd : ℤ)
    (found : find_process st sc.tid ≡ some p) where
  abbrev Kept : State → Type 0
  Kept st' = Knows st' sc.tid fd (p.fd_table fd)

  rests : Kept st
  rests = record { process = p; found = found; entry = refl }

  moves :
      (st' : State) (q : ProcessState) → q.fd_table ≡ p.fd_table → Kept (write_process st' sc.tid q)
  moves st' q e = write-Knows st' sc.tid q fd (p.fd_table fd) (ap (λ t. t fd) e)

  transfer_of-Kept : (r : Option Resource) → Kept (transfer_of st sc p r)
  unfolding transfer_of
  transfer_of-Kept none = rests
  transfer_of-Kept (some r) = elim (Bool-cases (is_file r)) [
    | inl hit ↦ rw hit (emit-Knows st (transfer_event sc p r.name) sc.tid fd (p.fd_table fd) rests)
    | inr other ↦ rw other rests
  ]

  module _ (result : int_eq (int_of_long sc.result) fd ≡ false) where
    opens : (st' : State) (r : Resource) → Kept (opened st' sc p r)
    opens st' r = write-Knows st' sc.tid _ fd (p.fd_table fd) (rw result refl)

    record_open-Kept : (e : Event) (r : Resource) → Kept (record_open st sc p e r)
    unfolding record_open
    record_open-Kept e r = elim (Bool-cases (is_negative sc.result)) [
      | inl failed ↦ rw failed (emit-Knows st e sc.tid fd (p.fd_table fd) rests)
      | inr done ↦ rw done (opens (emit st e) r)
    ]

    dup_of-Kept : (r : Option Resource) → Kept (dup_of st sc p r)
    unfolding dup_of
    dup_of-Kept none = write-Knows st sc.tid _ fd (p.fd_table fd) (rw result refl)
    dup_of-Kept (some r) = opens st r

    on_dup-Kept : Kept (on_dup st sc p)
    unfolding on_dup
    on_dup-Kept = elim (Bool-cases (is_negative sc.result)) [
      | inl failed ↦ rw failed rests
      | inr done ↦ rw done (dup_of-Kept (p.fd_table (int_of_word (arg sc 0))))
    ]

    on_socket-Kept : Kept (on_socket st sc p)
    unfolding on_socket
    on_socket-Kept = elim (Bool-cases (is_negative sc.result)) [
      | inl failed ↦ rw failed rests
      | inr done ↦ rw done (opens st _)
    ]

  module _ (argument : int_eq (int_of_word (arg sc 0)) fd ≡ false) where
    on_close-Kept : Kept (on_close st sc p)
    unfolding on_close
    on_close-Kept = elim (Bool-cases (int_eq sc.result (pos 0))) [
      | inl done ↦ rw done (write-Knows st sc.tid _ fd (p.fd_table fd) (rw argument refl))
      | inr failed ↦ rw failed rests
    ]

    rename_socket-Kept :
        (st' : State) (name : Bytes) (r : Option Resource)
        → Kept st'
        → Kept (rename_socket st' sc p name r)
    unfolding rename_socket
    rename_socket-Kept st' name none k = k
    rename_socket-Kept st' name (some r) k = elim (Bool-cases (is_socket r)) [
      | inl hit ↦ rw hit (write-Knows st' sc.tid _ fd (p.fd_table fd) (rw argument refl))
      | inr other ↦ rw other k
    ]

    connect_to-Kept : (e : Option SocketEndpoint) → Kept (connect_to st sc p e)
    unfolding connect_to
    connect_to-Kept none = rests
    connect_to-Kept (some e) =
        rename_socket-Kept (emit st (connect_event sc p e)) e.resource _
          (emit-Knows st (connect_event sc p e) sc.tid fd (p.fd_table fd) rests)

  on_chdir-Kept : Kept (on_chdir host st sc p)
  unfolding on_chdir
  on_chdir-Kept = elim (Bool-cases (is_empty (host.read_string sc.tid (arg sc 0)))) [
    | inl nothing_read ↦ rw nothing_read rests
    | inr read ↦ rw read (moves st _ refl)
  ]

  fchdir_to-Kept : (r : Option Resource) → Kept (fchdir_to st sc p r)
  unfolding fchdir_to
  fchdir_to-Kept none = rests
  fchdir_to-Kept (some r) = elim (Bool-cases (is_file r)) [
    | inl hit ↦ rw hit (moves st _ refl)
    | inr other ↦ rw other rests
  ]

  choose :
      (b : Bool) {x y : State}
      → (b ≡ true → Kept x)
      → (b ≡ false → Kept y)
      → Kept (if b then x else y)
  choose true hx hy = hx refl
  choose false hx hy = hy refl

  dispatch-Kept : Spares fd sc → Kept (dispatch host st sc p)
  unfolding dispatch on_transfer on_connect on_fchdir on_open on_openat
  dispatch-Kept (given, taken) =
      choose (sc.number == nr_open) (λ h. record_open-Kept (given (rw h refl)) _ _)
        (λ _.
          choose (sc.number == nr_openat || sc.number == nr_openat2)
            (λ h. record_open-Kept (given (ground arith)) _ _)
            (λ _.
              choose (sc.number == nr_read || sc.number == nr_write) (λ _. transfer_of-Kept _)
                (λ _.
                  choose (sc.number == nr_close) (λ h. on_close-Kept (taken (rw h refl)))
                    (λ _.
                      choose (sc.number == nr_dup || sc.number == nr_dup2 || sc.number == nr_dup3)
                        (λ h. on_dup-Kept (given (ground arith)))
                        (λ _.
                          choose (sc.number == nr_socket)
                            (λ h. on_socket-Kept (given (ground arith)))
                            (λ _.
                              choose (sc.number == nr_connect)
                                (λ h. connect_to-Kept (taken (ground arith)) _)
                                (λ _.
                                  choose (sc.number == nr_chdir && int_eq sc.result (pos 0))
                                    (λ _. on_chdir-Kept)
                                    (λ _.
                                      choose (sc.number == nr_fchdir && int_eq sc.result (pos 0))
                                        (λ _. fchdir_to-Kept _) (λ _. rests)))))))))

  pub own_call-Kept : Spares fd sc → Kept (on_syscall_exit host st sc)
  unfolding on_syscall_exit syscall_of
  own_call-Kept spared = rw found (dispatch-Kept spared)
