-- ===== src/Execution/Tracking/Names.antt =====
-- A read or a write is recorded under the path that its descriptor was opened on.
use whyrun.Execution.Effect.{IsOf, process_for_thread-eq}
use whyrun.Execution.Tracking.{
  write-Knows, IsTransfer, dispatch-transfer, Knows, Spares, own_call-Kept,
}
use whyrun.Execution.Outcome.{grown, on_syscall_exit-Outcome}
use whyrun.Execution.Calls.{is_file, RawSyscall, arg, nr_read, nr_open}
use whyrun.Common.Int.{ℤ, pos, int_eq, is_negative, int_of_word, int_of_long, int_of_word-small}
use whyrun.Common.Map.{int_key, nat_key}
use whyrun.Common.{
  ℕ, ◌≡◌, ◌≢◌, ◌⊎◌, ◌<◌, ◌^◌, refl, sym, ap, ◌∙◌, true, false, List, [], ◌∷◌, ◌++◌, Option, none,
  some, ◌==◌, if◌then◌else◌, arith, Bytes, inl, inr, Bool-cases,
}
use whyrun.Event.{Event, file_read, file_write}
use whyrun.Execution.Descriptors.{transfer_event, on_transfer, transfer_of}
use whyrun.Execution.Opens.{open_path, open_event, on_open, record_open, file_resource}
use whyrun.Execution.State.{
  Resource, ProcessState, State, find_process, process_for_thread, emit, attribution,
}
use whyrun.Execution.Syscalls.{dispatch, syscall_of, on_syscall_exit}
use whyrun.Host.{Host}

-- The call is of another process, or it leaves the descriptor alone.
abbrev pub LeavesAlone : State → ℕ → ℤ → Host × RawSyscall → Type 0
LeavesAlone st tid fd (host, sc) =
    (process_for_thread st sc.tid ≢ process_for_thread st tid) ⊎ Spares fd sc

same_process-Knows :
    (st : State) (s t : ℕ) (fd : ℤ) (r : Option Resource)
    → process_for_thread st s ≡ process_for_thread st t
    → Knows st s fd r
    → Knows st t fd r
unfolding find_process
same_process-Knows st s t fd r same k = record {
  process = k.process;
  found = ap st.processes (sym same) ∙ k.found;
  entry = k.entry;
}

unknown-unchanged :
    (host : Host) (st : State) (sc : RawSyscall)
    → find_process st sc.tid ≡ none
    → on_syscall_exit host st sc ≡ st
unfolding on_syscall_exit syscall_of
unknown-unchanged host st sc missing = rw missing refl

module _ (host : Host) (st : State) (sc : RawSyscall) (tid : ℕ) (fd : ℤ) (r : Option Resource)
    (k : Knows st tid fd r) where
  -- A call never changes which process a thread belongs to.
  pub call-thread :
      (t : ℕ) → process_for_thread (on_syscall_exit host st sc) t ≡ process_for_thread st t
  call-thread t = elim (on_syscall_exit-Outcome host st sc) [
    | inl (_, same) ↦ rw same refl
    | inr (p, _, o, _) ↦
        process_for_thread-eq st (on_syscall_exit host st sc) t o.effect.same.threads
  ]

  other_call-Knows :
      process_for_thread st sc.tid ≢ process_for_thread st tid
      → Knows (on_syscall_exit host st sc) tid fd r
  other_call-Knows far = elim (on_syscall_exit-Outcome host st sc) [
    | inl (_, same) ↦ rw same k
    | inr (p, _, o, _) ↦ record {
      process = k.process;
      found =
          unfold find_process in
          ap (on_syscall_exit host st sc).processes (call-thread tid)
          ∙ o.effect.others (process_for_thread st tid) far
          ∙ k.found;
      entry = k.entry;
    }
  ]

  own_call-Knows :
      process_for_thread st sc.tid ≡ process_for_thread st tid
      → Spares fd sc
      → Knows (on_syscall_exit host st sc) tid fd r
  own_call-Knows same spared =
      let here = same_process-Knows st tid sc.tid fd r (sym same) k in
      let after = own_call-Kept host st sc here.process fd here.found spared in
      same_process-Knows (on_syscall_exit host st sc) sc.tid tid fd r
        (call-thread sc.tid ∙ same ∙ sym (call-thread tid))
        (record { process = after.process; found = after.found; entry = after.entry ∙ here.entry })

  call-Knows : LeavesAlone st tid fd (host, sc) → Knows (on_syscall_exit host st sc) tid fd r
  call-Knows (inl far) = other_call-Knows far
  call-Knows (inr spared) =
      elim (Bool-cases (process_for_thread st sc.tid == process_for_thread st tid)) [
        | inl same ↦ own_call-Knows (ground arith) spared
        | inr far ↦ other_call-Knows (ground arith)
      ]

-- The calls one after another.
unfoldable pub after_calls : State → List (Host × RawSyscall) → State
after_calls st [] = st
after_calls st ((host, sc) ∷ calls) = after_calls (on_syscall_exit host st sc) calls

-- None of the calls changes the descriptor, each in the state that it comes in.
abbrev pub AllLeaveAlone : State → ℕ → ℤ → List (Host × RawSyscall) → Type 0
AllLeaveAlone st tid fd [] = Unit
AllLeaveAlone st tid fd ((host, sc) ∷ calls) =
    LeavesAlone st tid fd (host, sc) × AllLeaveAlone (on_syscall_exit host st sc) tid fd calls

after_calls-Knows :
    (calls : List (Host × RawSyscall)) (st : State) (tid : ℕ) (fd : ℤ) (r : Option Resource)
    → AllLeaveAlone st tid fd calls
    → Knows st tid fd r
    → Knows (after_calls st calls) tid fd r
unfolding after_calls
after_calls-Knows [] st tid fd r h k = k
after_calls-Knows ((host, sc) ∷ calls) st tid fd r (alone, h) k =
    after_calls-Knows calls (on_syscall_exit host st sc) tid fd r h
      (call-Knows host st sc tid fd r k alone)

open_call-eq :
    (host : Host) (st : State) (sc : RawSyscall) (p : ProcessState)
    → find_process st sc.tid ≡ some p
    → sc.number ≡ nr_open
    → on_syscall_exit host st sc
      ≡ record_open st sc p (open_event host sc p) (file_resource (open_path host sc p) (arg sc 1))
unfolding on_syscall_exit syscall_of dispatch on_open
open_call-eq host st sc p found number =
    let is_open : (sc.number == nr_open) ≡ true = ground arith in rw (found, is_open) refl

-- A successful `open` enters the path that it records.
opened-Knows :
    (host : Host) (st : State) (sc : RawSyscall) (p : ProcessState) (fd : ℕ)
    → find_process st sc.tid ≡ some p
    → sc.number ≡ nr_open
    → sc.result ≡ pos fd
    → fd < 2 ^ 31
    → Knows
        (on_syscall_exit host st sc)
        sc.tid
        (pos fd)
        (some (file_resource (open_path host sc p) (arg sc 1)))
unfolding record_open
opened-Knows host st sc p fd found number result small =
    let r = file_resource (open_path host sc p) (arg sc 1) in
    let entered : int_of_long sc.result ≡ pos fd =
      unfold int_of_long in rw result (int_of_word-small fd small) in
    let same : int_eq (int_of_long sc.result) (pos fd) ≡ true = rw entered (ground arith) in
    let good : is_negative sc.result ≡ false = rw result refl in
    rw (open_call-eq host st sc p found number, good)
      (write-Knows (emit st (open_event host sc p)) sc.tid _ (pos fd) (some r) (rw same refl))

transfer_call-eq :
    (host : Host) (st : State) (rd : RawSyscall) (q : ProcessState) (fd : ℤ) (r : Resource)
    → find_process st rd.tid ≡ some q
    → IsTransfer rd
    → q.fd_table (int_of_word (arg rd 0)) ≡ some r
    → is_file r ≡ true
    → on_syscall_exit host st rd ≡ emit st (transfer_event rd q r.name)
unfolding on_syscall_exit syscall_of on_transfer transfer_of
transfer_call-eq host st rd q fd r found transfer known file =
    rw (found, dispatch-transfer host st rd q transfer, known, file) refl

transfer_event-IsOf :
    (rd : RawSyscall) (q : ProcessState) (name : Bytes) → IsOf rd q (transfer_event rd q name)
unfolding transfer_event
transfer_event-IsOf rd q name = ground arith

transfer_event-facts :
    (rd : RawSyscall) (q : ProcessState) (name : Bytes)
    → ((transfer_event rd q name).command_id ≡ none)
      × ((transfer_event rd q name).type ≡ (if rd.number == nr_read then file_read else file_write))
      × ((transfer_event rd q name).resource ≡ name)
      × ((transfer_event rd q name).result ≡ rd.result)
unfolding transfer_event
transfer_event-facts rd q name = (refl, refl, refl, refl)

-- A successful `open` gives a descriptor. Then come any system calls, of any processes, of which none of
-- this process returns the descriptor anew (from an opening, `socket`, or a duplication), or is a `close`
-- or `connect` of it. Then the thread that opened reads from the descriptor or writes to it: that is
-- recorded by one event, a read or a write by the number of the call, under the path that the opening
-- was recorded under, with the result of the call.
pub open-transfer :
    (host later : Host) (st : State) (sc rd : RawSyscall) (p : ProcessState) (fd : ℕ)
    (calls : List (Host × RawSyscall))
    → find_process st sc.tid ≡ some p
    → sc.number ≡ nr_open
    → sc.result ≡ pos fd
    → fd < 2 ^ 31
    → AllLeaveAlone (on_syscall_exit host st sc) sc.tid (pos fd) calls
    → rd.tid ≡ sc.tid
    → IsTransfer rd
    → int_of_word (arg rd 0) ≡ pos fd
    → (e : Event) × ((on_syscall_exit later
          (after_calls (on_syscall_exit host st sc) calls)
          rd).emitted
        ≡ (after_calls (on_syscall_exit host st sc) calls).emitted ++ e ∷ [])
      × (e.type ≡ (if rd.number == nr_read then file_read else file_write))
      × (e.resource ≡ open_path host sc p)
      × (e.result ≡ rd.result)
open-transfer host later st sc rd p fd calls found number result small alone thread transfer
      descriptor =
    let r = file_resource (open_path host sc p) (arg sc 1) in
    let mid = after_calls (on_syscall_exit host st sc) calls in
    let k =
      after_calls-Knows calls (on_syscall_exit host st sc) sc.tid (pos fd) (some r) alone
        (opened-Knows host st sc p fd found number result small) in
    let q = k.process in
    let here : find_process mid rd.tid ≡ some q = rw thread k.found in
    let known : q.fd_table (int_of_word (arg rd 0)) ≡ some r = rw descriptor k.entry in
    let e = transfer_event rd q r.name in
    let (unset, type, resource, code) = transfer_event-facts rd q r.name in
    (
      record e { command_id = attribution mid (some q) },
      ap (λ s. s.emitted) (transfer_call-eq later mid rd q (pos fd) r here transfer known refl)
          ∙ grown later rd q mid here e (transfer_event-IsOf rd q r.name) unset,
      type,
      resource,
      code,
    )
