-- ===== src/Common/Output.antt =====
-- Functions that print, and may throw. What was printed before a `throw` stays printed.
use mathlib.Core.List.{[], ◌++◌}
use whyrun.Common.Results.{Error, Result, err, ok}
use whyrun.Common.Text.{Bytes}

abbrev pub Output : Type 0 → Type 0
Output A = Bytes × Result A

abbrev pub print : Bytes → Output Unit
print text = (text, ok tt)

abbrev pub give : {A : Type 0} → A → Output A
give a = ([], ok a)

abbrev pub fail : {A : Type 0} → Error → Output A
fail e = ([], err e)

abbrev pub after_text : {B : Type 0} → Bytes → Output B → Output B
after_text text (more, r) = (text ++ more, r)

infixl 5 ◌>>=◌
infixr 5 ◌>>◌
abbrev pub ◌>>=◌ : {A B : Type 0} → Output A → (A → Output B) → Output B
(text, err e) >>= next = (text, err e)
(text, ok a) >>= next = after_text text (next a)

abbrev pub ◌>>◌ : {A B : Type 0} → Output A → Output B → Output B
m >> next = m >>= λ _. next
