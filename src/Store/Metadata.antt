-- ===== src/Store/Metadata.antt =====
-- `metadata_json` of src/sqlite_store.cpp, and that a JSON reader gets the metadata back.
use whyrun.Common.{
  ℕ, zero, suc, ◌≡◌, refl, sym, ap, ◌∙◌, ◌&&◌, ◌||◌, Bool, true, false, List, [], ◌∷◌, ◌++◌, Option,
  none, some, Bytes, ◌==◌, ltb, equal, length, if◌then◌else◌, inl, inr, Bool-cases,
}
use whyrun.Event.{Metadata}
use whyrun.Store.Json.{double_quote, json_escape, text, read_text, read_text-json_escape}

-- `operator<` of strings, and of pairs of them.
unfoldable pub less : Bytes → Bytes → Bool
less s [] = false
less [] (d ∷ t) = true
less (c ∷ s) (d ∷ t) = ltb c d || (c == d && less s t)

abbrev pub less_entry : Bytes × Bytes → Bytes × Bytes → Bool
less_entry (k, v) (l, w) = less k l || (equal k l && less v w)

unfoldable pub insert_entry : Bytes × Bytes → Metadata → Metadata
unfolding less equal
insert_entry e [] = e ∷ []
insert_entry e (f ∷ fs) =
    let rest = insert_entry e fs in if less_entry f e then f ∷ rest else e ∷ f ∷ fs

-- `std::sort` of the entries.
unfoldable pub sort_entries : Metadata → Metadata
unfolding insert_entry
sort_entries [] = []
sort_entries (e ∷ es) = insert_entry e (sort_entries es)

abbrev pub colon : ℕ
colon = b':'

abbrev pub comma : ℕ
comma = b','

abbrev pub closing_brace : ℕ
closing_brace = b'}'

-- One entry, with the text that follows it.
unfoldable pub entry_json : Bytes × Bytes → Bytes → Bytes
unfolding json_escape
entry_json (key, value) rest =
    double_quote
    ∷ (json_escape key
        ++ double_quote ∷ colon ∷ double_quote ∷ (json_escape value ++ double_quote ∷ rest))

unfoldable pub entries_json : Metadata → Bytes
unfolding entry_json
entries_json [] = closing_brace ∷ []
entries_json (e ∷ []) = entry_json e (closing_brace ∷ [])
entries_json (e ∷ f ∷ fs) = entry_json e (comma ∷ entries_json (f ∷ fs))

unfoldable pub metadata_json : Metadata → Bytes
unfolding sort_entries entries_json
metadata_json m = b'{' ∷ entries_json (sort_entries m)

-- A reader of JSON objects whose values are strings, without blanks.
abbrev expect : {A : Type 0} → ℕ → Bytes → (Bytes → Option A) → Option A
expect byte [] next = none
expect byte (c ∷ s) next = if c == byte then next s else none

abbrev with_text : {A : Type 0} → Option (Bytes × Bytes) → (Bytes → Bytes → Option A) → Option A
with_text none next = none
with_text (some (t, s)) next = next t s

unfoldable pub read_string : {A : Type 0} → Bytes → (Bytes → Bytes → Option A) → Option A
unfolding read_text
read_string s next = expect double_quote s (λ rest. with_text (read_text text [] rest) next)

unfoldable pub read_entry : {A : Type 0} → Bytes → (Bytes × Bytes → Bytes → Option A) → Option A
unfolding read_string
read_entry s next = read_string s (λ key rest.
    expect colon rest (λ more. read_string more (λ value last. next (key, value) last)))

abbrev add_entry : Bytes × Bytes → Option Metadata → Option Metadata
add_entry e none = none
add_entry e (some es) = some (e ∷ es)

-- Behind an entry: the end of the object, or a comma and further entries.
abbrev behind_entry : Bytes × Bytes → Bytes → (Bytes → Option Metadata) → Option Metadata
behind_entry e [] more = none
behind_entry e (c ∷ s) more =
    if c == closing_brace
    then (elim s [ [] ↦ some (e ∷ []) | d ∷ t ↦ none ])
    else if c == comma
    then add_entry e (more s)
    else none

-- The entries up to the closing brace, at most as many as the fuel.
unfoldable pub read_entries : ℕ → Bytes → Option Metadata
unfolding read_entry
read_entries zero s = none
read_entries (suc n) s = read_entry s (λ e rest. behind_entry e rest (read_entries n))

abbrev read_members : ℕ → Bytes → Option Metadata
read_members n [] = none
read_members n (c ∷ s) =
    if c == closing_brace then (elim s [ [] ↦ some [] | d ∷ t ↦ none ]) else read_entries n (c ∷ s)

unfoldable pub read_object : ℕ → Bytes → Option Metadata
unfolding read_entries
read_object n s = expect b'{' s (read_members n)

read_string-json_escape :
    {A : Type 0} (s rest : Bytes) (next : Bytes → Bytes → Option A)
    → read_string (double_quote ∷ (json_escape s ++ double_quote ∷ rest)) next ≡ next s rest
unfolding read_string
read_string-json_escape s rest next = rw (read_text-json_escape s [] rest) refl

read_entry-entry_json :
    {A : Type 0} (e : Bytes × Bytes) (rest : Bytes) (next : Bytes × Bytes → Bytes → Option A)
    → read_entry (entry_json e rest) next ≡ next e rest
unfolding read_entry entry_json
read_entry-entry_json (key, value) rest next =
    read_string-json_escape key (colon ∷ double_quote ∷ (json_escape value ++ double_quote ∷ rest))
      _
    ∙ read_string-json_escape value rest (λ v last. next (key, v) last)

read_entries-entries_json :
    (e : Bytes × Bytes) (es : Metadata)
    → read_entries (length (e ∷ es)) (entries_json (e ∷ es)) ≡ some (e ∷ es)
unfolding read_entries entries_json
read_entries-entries_json e [] =
    read_entry-entry_json e (closing_brace ∷ []) (λ g rest. behind_entry g rest (read_entries zero))
read_entries-entries_json e (f ∷ fs) =
    read_entry-entry_json e (comma ∷ entries_json (f ∷ fs))
      (λ g rest. behind_entry g rest (read_entries (length (f ∷ fs))))
    ∙ ap (add_entry e) (read_entries-entries_json f fs)

-- `zs` is `ys` with `x` put in somewhere.
pub data Placed {ℓ} {A : Type ℓ} (x : A) : List A → List A → Type ℓ where
  first : {ys : List A} → Placed x ys (x ∷ ys)
  after : {y : A} {ys zs : List A} → Placed x ys zs → Placed x (y ∷ ys) (y ∷ zs)

pub data Rearranged {ℓ} {A : Type ℓ} : List A → List A → Type ℓ where
  empty_too : Rearranged [] []
  one_placed :
      {x : A} {xs ys zs : List A} → Rearranged xs ys → Placed x ys zs → Rearranged (x ∷ xs) zs

insert_entry-Placed : (e : Bytes × Bytes) (es : Metadata) → Placed e es (insert_entry e es)
unfolding insert_entry
insert_entry-Placed e [] = first
insert_entry-Placed e (f ∷ fs) = elim (Bool-cases (less_entry f e)) [
  | inl later ↦ rw later (after (insert_entry-Placed e fs))
  | inr here ↦ rw here first
]

sort_entries-Rearranged : (m : Metadata) → Rearranged m (sort_entries m)
unfolding sort_entries
sort_entries-Rearranged [] = empty_too
sort_entries-Rearranged (e ∷ es) =
    one_placed (sort_entries-Rearranged es) (insert_entry-Placed e (sort_entries es))

Placed-length {ℓ} :
    {A : Type ℓ} {x : A} {ys zs : List A} → Placed x ys zs → length zs ≡ suc (length ys)
Placed-length first = refl
Placed-length (after p) = ap suc (Placed-length p)

Rearranged-length {ℓ} : {A : Type ℓ} {xs ys : List A} → Rearranged xs ys → length xs ≡ length ys
Rearranged-length empty_too = refl
Rearranged-length (one_placed r p) = ap suc (Rearranged-length r) ∙ sym (Placed-length p)

starts_with_quote :
    (e : Bytes × Bytes) (es : Metadata)
    → (rest : Bytes) × (entries_json (e ∷ es) ≡ double_quote ∷ rest)
unfolding entries_json entry_json
starts_with_quote e [] = (_, refl)
starts_with_quote e (f ∷ fs) = (_, refl)

members_entry :
    (s : Bytes) (n : ℕ)
    → (rest : Bytes) × (s ≡ double_quote ∷ rest)
    → read_members n s ≡ read_entries n s
members_entry s n (rest, e) = rw e refl

read_members-entries_json : (es : Metadata) → read_members (length es) (entries_json es) ≡ some es
read_members-entries_json [] = unfold entries_json in refl
read_members-entries_json (e ∷ es) =
    members_entry (entries_json (e ∷ es)) (length (e ∷ es)) (starts_with_quote e es)
    ∙ read_entries-entries_json e es

-- The JSON text of the metadata of an event is an object that a reader takes apart into the same
-- entries, each once, whatever bytes the keys and the values hold, quotes, backslashes and control
-- characters included.
pub read_object-metadata_json :
    (m : Metadata)
    → (es : Metadata) × Rearranged m es × (read_object (length m) (metadata_json m) ≡ some es)
unfolding read_object metadata_json
read_object-metadata_json m =
    let r = sort_entries-Rearranged m in
    (sort_entries m, r, rw (Rearranged-length r) (read_members-entries_json (sort_entries m)))
