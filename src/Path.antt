-- ===== src/Path.antt =====
-- Paths: what the program uses of Go's path/filepath and strings (Unix), and model.CleanPath,
-- model.ValidateRepoName (internal/model/types.go), childName (internal/fusefs/merged.go),
-- cleanChildPath (internal/fusefs/fuse_unix.go), parentDir (internal/snapshot/store.go).
pub mod Components
pub mod Clean
pub mod Names
mod Tests
use artifact_fs_extropic.Base.{
  ℕ, ◌≡◌, Bool, true, false, not, ◌&&◌, ◌||◌, List, [], ◌∷◌, ◌++◌, reverse, Option, none, some,
  Text, text, nat_eq, ◌==◌, Text_eq, if◌then◌else◌, any, Result, ok, err, Error, other,
}

abbrev pub slash : ℕ
slash = b'/'

abbrev pub dot : Text
dot = text "."

abbrev pub dot_dot : Text
dot_dot = text ".."

abbrev pub root : Text
root = text "/"

-- strings.Split(s, "/")
abbrev pub cons_first : ℕ → List Text → List Text
cons_first c [] = (c ∷ []) ∷ []
cons_first c (w ∷ ws) = (c ∷ w) ∷ ws

unfoldable pub split : Text → List Text
split [] = [] ∷ []
split (c ∷ s) = if nat_eq c slash then [] ∷ split s else cons_first c (split s)

-- strings.Join(ws, "/")
unfoldable pub join : List Text → Text
join [] = []
join (w ∷ []) = w
join (w ∷ v ∷ ws) = w ++ slash ∷ join (v ∷ ws)

-- strings.HasPrefix, strings.CutPrefix, strings.Contains, and strings.Cut up to a byte
unfoldable pub cut_prefix : Text → Text → Option Text
cut_prefix [] s = some s
cut_prefix (p ∷ ps) [] = none
cut_prefix (p ∷ ps) (c ∷ s) = if nat_eq p c then cut_prefix ps s else none

abbrev is_some {ℓ} : {A : Type ℓ} → Option A → Bool
is_some none = false
is_some (some _) = true

unfoldable pub contains : Text → Text → Bool
unfolding cut_prefix
contains sub [] = is_some (cut_prefix sub [])
contains sub (c ∷ s) = is_some (cut_prefix sub (c ∷ s)) || contains sub s

unfoldable pub cut_before : ℕ → Text → Text
cut_before sep [] = []
cut_before sep (c ∷ s) = if nat_eq c sep then [] else c ∷ cut_before sep s

abbrev pub is_rooted : Text → Bool
is_rooted [] = false
is_rooted (c ∷ _) = nat_eq c slash

-- One element of a path, on the elements kept so far, the last one first: an empty element and
-- "." go, ".." takes back the element before it, and stays at the front of a relative path.
abbrev pub back_up : Bool → List Text → List Text
back_up rooted [] = if rooted then [] else dot_dot ∷ []
back_up rooted (w ∷ ws) = if w == dot_dot then dot_dot ∷ w ∷ ws else ws

unfoldable pub push_element : Bool → List Text → Text → List Text
push_element rooted ws w =
    if w == [] || w == dot then ws else if w == dot_dot then back_up rooted ws else w ∷ ws

unfoldable pub push_elements : Bool → List Text → List Text → List Text
push_elements rooted ws [] = ws
push_elements rooted ws (v ∷ vs) = push_elements rooted (push_element rooted ws v) vs

-- The elements of a path that are left when it is cleaned, the last one first.
unfoldable pub stack : Text → List Text
stack p = push_elements (is_rooted p) [] (split p)

abbrev pub or_dot : Text → Text
or_dot p = if p == [] then dot else p

-- filepath.Clean
unfoldable pub filepath_clean : Text → Text
filepath_clean p =
    let cleaned = join (reverse (stack p)) in
    if is_rooted p then slash ∷ cleaned else or_dot cleaned

-- filepath.Join of two elements
unfoldable pub filepath_join : Text → Text → Text
unfolding filepath_clean
filepath_join a b =
    if a == []
    then (if b == [] then [] else filepath_clean b)
    else if b == []
    then filepath_clean a
    else filepath_clean (a ++ slash ∷ b)

-- The text up to and with its last slash.
unfoldable pub up_to_slash : Text → Text
up_to_slash [] = []
up_to_slash (c ∷ s) =
    let rest = up_to_slash s in
    if rest == [] then (if nat_eq c slash then c ∷ [] else []) else c ∷ rest

-- filepath.Dir
unfoldable pub filepath_dir : Text → Text
unfolding filepath_clean up_to_slash
filepath_dir p = filepath_clean (up_to_slash p)

-- model.CleanPath
unfoldable pub clean_path : Text → Text
unfolding filepath_clean
clean_path path =
    if path == dot || path == root || path == []
    then dot
    else let path' = filepath_clean path in
      if path' == root
      then dot
      else or_dot (elim (cut_prefix root path') [ none ↦ path' | some rest ↦ rest ])

-- cleanChildPath
unfoldable pub clean_child_path : Text → Text → Text
unfolding clean_path filepath_join
clean_child_path parent_path name = clean_path (filepath_join parent_path name)

-- model.ValidateRepoName; the two errors are texts only
abbrev pub empty_name : Error
empty_name = other 1

abbrev pub invalid_name : Error
invalid_name = other 2

unfoldable pub validate_repo_name : Text → Result (Unit {0})
unfolding contains
validate_repo_name name =
    if name == []
    then err empty_name
    else if any (λ c. nat_eq c slash || nat_eq c b'\\') name
        || name == dot_dot
        || contains dot_dot name
    then err invalid_name
    else ok tt

-- childName: the path relative to the directory, then its first element
abbrev pub child_rel : Text → Text → Option Text
child_rel parent entry_path =
    if parent == dot then some entry_path else cut_prefix (parent ++ slash ∷ []) entry_path

abbrev pub first_name : Option Text → Option Text
first_name none = none
first_name (some rel) = if rel == [] then none else some (cut_before slash rel)

unfoldable pub child_name : Text → Text → Option Text
unfolding cut_prefix cut_before
child_name parent entry_path = first_name (child_rel parent entry_path)

-- parentDir
unfoldable pub parent_dir : Text → Text
unfolding filepath_dir
parent_dir path =
    if path == dot || path == root || path == []
    then []
    else let d = filepath_dir path in if d == root then dot else d

-- filepath.Base
abbrev pub last_element : Text → List Text → Text
last_element w [] = w
last_element w (v ∷ vs) = last_element (if v == [] then w else v) vs

unfoldable pub filepath_base : Text → Text
filepath_base path = if path == [] then dot else last_element root (split path)

-- filepath.Ext: from the last dot that no slash follows
unfoldable pub filepath_ext : Text → Text
filepath_ext [] = []
filepath_ext (c ∷ s) =
    let ext = filepath_ext s in
    if ext == [] && (nat_eq c b'.' && not (any (λ d. nat_eq d slash) s)) then c ∷ s else ext
