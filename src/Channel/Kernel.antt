-- ===== src/Channel/Kernel.antt =====
-- The descriptors that the tracker takes for the channel are those that are open on it.
use whyrun.Execution.Calls.{nr_write, RawSyscall, arg, nr_close, nr_dup, nr_dup2, nr_dup3, nr_fcntl}
use whyrun.Channel.{
  f_dupfd, f_dupfd_cloexec, Aliases, remove, receives, assign_alias, duplicates, observe,
}
use whyrun.Common.{
  ◌⊎◌, ◌∙◌, sym, ℕ, ◌≡◌, refl, ◌&&◌, ◌||◌, not, Bool, true, false, List, [], ◌∷◌, Option, none,
  some, ◌==◌, if◌then◌else◌, arith, inl, inr, Bool-cases,
}
use whyrun.Common.Int.{int_eq_iff, ℤ, is_negative, int_eq, int_of_word, int_of_long}
use whyrun.Common.Map.{Map, int_key, erase}

-- What a descriptor is open on, by the number that the kernel gives to the open file description.
abbrev pub Table : Type 0
Table = Map ℤ ℕ

abbrev copy : ℤ → ℤ → Table → Table
copy new old t k = if int_eq new k then t old else t k

-- What a descriptor is open on is the file.
abbrev pub is_on : ℕ → Option ℕ → Bool
is_on file none = false
is_on file (some f) = f == file

-- The calls that the tracker follows.
abbrev pub is_followed : RawSyscall → Bool
is_followed sc =
    sc.number == nr_close
    || sc.number == nr_dup
    || sc.number == nr_dup2
    || sc.number == nr_dup3
    || duplicates sc

-- What Linux documents of a call. `close` frees its argument, and may do so although it fails; any
-- other call of these that fails does nothing. `dup` and `fcntl` with F_DUPFD make the descriptor that
-- they return a copy of their argument; `dup2` and `dup3` make one of their second argument. Of the
-- calls that are not followed, nothing is said: `close_range`, or an `execve` where descriptors are
-- closed on it, may close any.
pub data Effect (file : ℕ) (sc : RawSyscall) (t t' : Table) : Type 0 where
  failed : is_negative sc.result ≡ true → is_followed sc ≡ true → t' ≡ t → Effect file sc t t'
  -- EINTR and EIO
  closed_although :
      is_negative sc.result ≡ true
      → sc.number ≡ nr_close
      → t' ≡ erase (int_of_word (arg sc 0)) t
      → Effect file sc t t'
  closed :
      is_negative sc.result ≡ false
      → sc.number ≡ nr_close
      → t' ≡ erase (int_of_word (arg sc 0)) t
      → Effect file sc t t'
  duplicated :
      is_negative sc.result ≡ false
      → (sc.number ≡ nr_dup)
        ⊎ ((sc.number ≡ nr_fcntl) × ((arg sc 1 == f_dupfd || arg sc 1 == f_dupfd_cloexec) ≡ true))
      → t' ≡ copy (int_of_long sc.result) (int_of_word (arg sc 0)) t
      → Effect file sc t t'
  replaced :
      is_negative sc.result ≡ false
      → (sc.number ≡ nr_dup2) ⊎ (sc.number ≡ nr_dup3)
      → t' ≡ copy (int_of_word (arg sc 1)) (int_of_word (arg sc 0)) t
      → Effect file sc t t'
  other : is_followed sc ≡ false → Effect file sc t t'

-- What the tracker relies on: a `close` of a descriptor that is open on the channel does not fail, and
-- the calls that it does not follow neither close such a descriptor nor make one.
pub record IsQuiet (file : ℕ) (sc : RawSyscall) (t t' : Table) : Type 0 where
  pub closes :
      is_negative sc.result ≡ true
      → sc.number ≡ nr_close
      → is_on file (t (int_of_word (arg sc 0))) ≡ false
  pub others : is_followed sc ≡ false → (fd : ℤ) → is_on file (t' fd) ≡ is_on file (t fd)

-- The aliases are the descriptors that are open on the file.
abbrev pub Tracks : ℕ → Aliases → Table → Type 0
Tracks file aliases t = (fd : ℤ) → aliases fd ≡ is_on file (t fd)

module _ (file : ℕ) (aliases : Aliases) (t : Table) (h : Tracks file aliases t) where
  copy-Tracks :
      (new old : ℤ) → Tracks file (assign_alias new (aliases old) aliases) (copy new old t)
  unfolding assign_alias
  copy-Tracks new old fd = elim (Bool-cases (int_eq new fd)) [
    | inl hit ↦ rw hit (ground (arith, h old))
    | inr miss ↦ rw miss (ground (arith, h fd))
  ]

  -- A descriptor that is copied onto itself stays as it is.
  copy-Tracks_self : (new old : ℤ) → int_eq old new ≡ true → Tracks file aliases (copy new old t)
  copy-Tracks_self new old same fd = elim (Bool-cases (int_eq new fd)) [
    | inl hit ↦
        let a : old ≡ new = (int_eq_iff old new).0 same in
        let b : new ≡ fd = (int_eq_iff new fd).0 hit in rw hit (h fd ∙ rw (a, b) refl)
    | inr miss ↦ rw miss (h fd)
  ]

  remove-Tracks : (gone : ℤ) → Tracks file (remove gone aliases) (erase gone t)
  remove-Tracks gone fd = elim (Bool-cases (int_eq gone fd)) [
    | inl hit ↦ rw hit refl
    | inr miss ↦ rw miss (h fd)
  ]

  erase-is_on :
      (gone : ℤ)
      → is_on file (t gone) ≡ false
      → (fd : ℤ) → is_on file (erase gone t fd) ≡ is_on file (t fd)
  erase-is_on gone off fd = elim (Bool-cases (int_eq gone fd)) [
    | inl hit ↦ let same : gone ≡ fd = (int_eq_iff gone fd).0 hit in rw hit (sym (rw same at off))
    | inr miss ↦ rw miss refl
  ]

  replace-Tracks :
      (new old : ℤ)
      → Tracks file
          (if not (int_eq old new) then assign_alias new (aliases old) aliases else aliases)
          (copy new old t)
  replace-Tracks new old fd = elim (Bool-cases (int_eq old new)) [
    | inl same ↦ rw same (copy-Tracks_self new old same fd)
    | inr differ ↦ rw differ (copy-Tracks new old fd)
  ]

  observe-Tracks :
      (sc : RawSyscall) (t' : Table)
      → Effect file sc t t'
      → IsQuiet file sc t t'
      → Tracks file (observe aliases sc) t'
  unfolding observe
  observe-Tracks sc t' (failed f number same) quiet fd = rw (f, same) (h fd)
  observe-Tracks sc t' (closed_although f number same) quiet fd =
      rw (f, same) (h fd ∙ sym (erase-is_on (int_of_word (arg sc 0)) (quiet.closes f number) fd))
  observe-Tracks sc t' (closed ok_call number e) quiet fd =
      rw (ok_call, number, e) (remove-Tracks (int_of_word (arg sc 0)) fd)
  observe-Tracks sc t' (duplicated ok_call (inl number) e) quiet fd =
      rw (ok_call, number, e) (copy-Tracks (int_of_long sc.result) (int_of_word (arg sc 0)) fd)
  observe-Tracks sc t' (duplicated ok_call (inr (number, command)) e) quiet fd =
      rw (ok_call, number, command, e)
        (copy-Tracks (int_of_long sc.result) (int_of_word (arg sc 0)) fd)
  observe-Tracks sc t' (replaced ok_call (inl number) e) quiet fd =
      rw (ok_call, number, e) (replace-Tracks (int_of_word (arg sc 1)) (int_of_word (arg sc 0)) fd)
  observe-Tracks sc t' (replaced ok_call (inr number) e) quiet fd =
      rw (ok_call, number, e) (replace-Tracks (int_of_word (arg sc 1)) (int_of_word (arg sc 0)) fd)
  observe-Tracks sc t' (other number) quiet fd = ground (arith, h fd, quiet.others number fd)

-- A shell's calls one after another, with the descriptors that it has after each: each call does what
-- Linux documents, and what the tracker relies on is so.
pub data Calls (file : ℕ) : Table → List RawSyscall → Table → Type 0 where
  none_yet : {t : Table} → Calls file t [] t
  one_more :
      {t u w : Table} {sc : RawSyscall} {scs : List RawSyscall}
      → Effect file sc t u
      → IsQuiet file sc t u
      → Calls file u scs w
      → Calls file t (sc ∷ scs) w

unfoldable pub observe_all : Aliases → List RawSyscall → Aliases
observe_all aliases [] = aliases
observe_all aliases (sc ∷ scs) = observe_all (observe aliases sc) scs

-- Let the aliases be the descriptors that are open on the channel, and the calls of the shell change its
-- descriptors as Linux documents. As long as no `close` of a descriptor on the channel fails, and no
-- call other than `close`, `dup`, `dup2`, `dup3` and `fcntl` with F_DUPFD opens or closes one: after all
-- of the calls the aliases are again the descriptors on the channel, and a further call is taken for a
-- report of the shell exactly if it is a `write` to one of them.
pub observe_all-Tracks :
    (file : ℕ) (scs : List RawSyscall) (aliases : Aliases) (t t' : Table) (sc : RawSyscall)
    → Tracks file aliases t
    → Calls file t scs t'
    → Tracks file (observe_all aliases scs) t'
      × (receives (observe_all aliases scs) sc
          ≡ (sc.number == nr_write && is_on file (t' (int_of_word (arg sc 0)))))
unfolding observe_all receives
observe_all-Tracks file [] aliases t t' sc h none_yet = (h, rw (h (int_of_word (arg sc 0))) refl)
observe_all-Tracks file (call ∷ scs) aliases t t' sc h (one_more {u} e quiet rest) =
    observe_all-Tracks file scs (observe aliases call) u t' sc
      (observe-Tracks file aliases t h call u e quiet) rest
