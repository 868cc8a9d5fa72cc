-- ===== src/Path.antt =====
-- The parts of `std::filesystem::path` that src/execution_state.cpp uses, on POSIX, and
-- `normalize_path`.
use whyrun.Common.{
  ℕ, ◌≡◌, refl, ◌||◌, ◌&&◌, not, Bool, true, false, List, [], ◌∷◌, ◌++◌, ◌==◌, if◌then◌else◌, Bytes,
  codes, equal, is_empty, length, ltb, ends_in, pop_back_if,
}

abbrev pub slash : ℕ
slash = b'/'

abbrev pub dot : Bytes
dot = codes "."

abbrev pub dot_dot : Bytes
dot_dot = codes ".."

-- `is_absolute`
abbrev pub is_absolute : Bytes → Bool
is_absolute [] = false
is_absolute (c ∷ s) = c == slash

add_front : ℕ → List Bytes → List Bytes
add_front c [] = (c ∷ []) ∷ []
add_front c (p ∷ ps) = (c ∷ p) ∷ ps

-- What stands between the separators; two separators in a row have an empty piece between them.
unfoldable pub pieces : Bytes → List Bytes
unfolding add_front
pieces [] = [] ∷ []
pieces (c ∷ s) = let rest = pieces s in if c == slash then [] ∷ rest else add_front c rest

-- A dot-dot takes away the name in front of it, and the root swallows it.
up : Bool → List Bytes → List Bytes
up absolute [] = if absolute then [] else dot_dot ∷ []
up absolute (top ∷ kept) = if equal top dot_dot then dot_dot ∷ top ∷ kept else kept

-- One more piece, behind those kept so far (the last of them first).
unfoldable pub keep_piece : Bool → List Bytes → Bytes → List Bytes
unfolding up equal
keep_piece absolute kept piece =
    if is_empty piece || equal piece dot
    then kept
    else if equal piece dot_dot
    then up absolute kept
    else piece ∷ kept

unfoldable pub keep_pieces : Bool → List Bytes → List Bytes → List Bytes
unfolding keep_piece
keep_pieces absolute kept [] = kept
keep_pieces absolute kept (p ∷ ps) = keep_pieces absolute (keep_piece absolute kept p) ps

-- The names kept, with a separator between them.
unfoldable pub spell : List Bytes → Bytes
spell [] = []
spell (p ∷ []) = p
spell (p ∷ q ∷ kept) = spell (q ∷ kept) ++ slash ∷ p

last_piece : List Bytes → Bytes
last_piece [] = []
last_piece (p ∷ []) = p
last_piece (p ∷ q ∷ ps) = last_piece (q ∷ ps)

abbrev is_name : Bytes → Bool
is_name p = not (is_empty p || equal p dot || equal p dot_dot)

-- Whether a separator stays at the end, as in the normal form of "a/b/..", which is "a/".
stays_open : List Bytes → Bytes → Bool
stays_open [] last = false
stays_open (top ∷ kept) last = not (is_name last) && not (equal top dot_dot)

rooted : Bool → Bytes → Bytes
rooted true body = slash ∷ body
rooted false body = if is_empty body then dot else body

-- `lexically_normal`
unfoldable pub lexically_normal : Bytes → Bytes
unfolding pieces keep_pieces spell last_piece stays_open rooted equal
lexically_normal path =
    if is_empty path
    then []
    else let kept = keep_pieces (is_absolute path) [] (pieces path) in
      let open_end = stays_open kept (last_piece (pieces path)) in
      rooted (is_absolute path) (spell kept ++ (if open_end then slash ∷ [] else []))

-- `operator/`
unfoldable pub joined : Bytes → Bytes → Bytes
unfolding ends_in
joined base path =
    if is_absolute path
    then path
    else if is_empty base || ends_in slash base
    then base ++ path
    else base ++ (slash ∷ path)

unfoldable pub normalize_path : Bytes → Bytes
unfolding lexically_normal pop_back_if
normalize_path path =
    let normalized = lexically_normal path in
    if ltb 1 (length normalized) then pop_back_if slash normalized else normalized

normal_forms :
    (normalize_path (codes "/a/./b//../c/") ≡ codes "/a/c")
    × (normalize_path (codes "a/..") ≡ codes ".")
    × (normalize_path (codes "../../x/../..") ≡ codes "../../..")
    × (normalize_path (codes "/..") ≡ codes "/")
    × (normalize_path (codes "a/b/..") ≡ codes "a")
    × (lexically_normal (codes "a/b/..") ≡ codes "a/")
    × (normalize_path (joined (codes "/home/u") (codes "../x")) ≡ codes "/home/x")
unfolding normalize_path joined
normal_forms = (refl, refl, refl, refl, refl, refl, refl)
