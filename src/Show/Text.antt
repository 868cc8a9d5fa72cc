-- ===== src/Show/Text.antt =====
-- The text of a command can be got back from what is printed of it.
use whyrun.Common.{
  arith, ℕ, zero, suc, ◌≡◌, refl, ap, [], ◌∷◌, ◌++◌, Bytes, length, ◌==◌, if◌then◌else◌, Bool-cases,
  inl, inr,
}
use whyrun.Show.{print_command_text}

-- Behind each newline `width` bytes are left out; `skip` of them are still to come.
unfoldable pub unindent : ℕ → ℕ → Bytes → Bytes
unindent width skip [] = []
unindent width (suc skip) (c ∷ s) = unindent width skip s
unindent width zero (c ∷ s) = c ∷ unindent width (if c == b'\n' then width else 0) s

skip_all :
    (width : ℕ) (indent s : Bytes)
    → unindent width (length indent) (indent ++ s) ≡ unindent width 0 s
unfolding unindent
skip_all width [] s = refl
skip_all width (c ∷ indent) s = skip_all width indent s

-- Nothing of a command is lost in `print_command_text`: the reader that skips as many bytes as the
-- indentation has after each line end gives the command back, whatever the indentation is, and also
-- where the command has lines that start like it.
pub unindent-print_command_text :
    (command indent : Bytes)
    → unindent (length indent) 0 (print_command_text command indent) ≡ command
unfolding print_command_text unindent
unindent-print_command_text [] indent = refl
unindent-print_command_text (c ∷ command) indent = elim (Bool-cases (c == b'\n')) [
  | inl new ↦
      let is_new : c ≡ b'\n' = ground arith in
      rw new (
        cc (
          is_new,
          skip_all (length indent) indent (print_command_text command indent),
          unindent-print_command_text command indent,
        ))
  | inr other ↦ rw (other, other) (ap (◌∷◌ c) (unindent-print_command_text command indent))
]
