-- ===== src/Mount/Paths.antt =====
-- What a client of tartarus-mount.py may name: `validate_id`, `validate_target`, and the functions of
-- `os.path` that they use.
pub mod Normal
pub mod Stable
use tartarus_nix.Base.{
  ℕ, Bool, false, not, ◌&&◌, ◌||◌, Option, none, some, List, [], ◌∷◌, ◌++◌, Text, codes, bytes_eq,
  contains, starts_with, leb, all, any, is_empty, ◌==◌, if◌then◌else◌,
}
use tartarus_nix.Base.Options.{◌>>=◌, require}
use tartarus_nix.Json.{Value, string}

abbrev pub slash : ℕ
slash = 47

-- `[A-Za-z0-9_-]`
unfoldable pub is_id_char : ℕ → Bool
is_id_char c =
    (leb 65 c && leb c 90)
    || (leb 97 c && leb c 122)
    || (leb 48 c && leb c 57)
    || (c == 95)
    || (c == 45)

unfoldable pub validate_id : Option Value → Option Text
unfolding is_id_char
validate_id (some (string s)) = if not (is_empty s) && all is_id_char s then some s else none
validate_id _ = none

-- `path.split("/")`, with the part before the first slash on its own
unfoldable pub split : Text → Text × List Text
split [] = ([], [])
split (c ∷ path) =
    let (head, rest) = split path in if c == slash then ([], head ∷ rest) else (c ∷ head, rest)

-- The components so far, the last first.
unfoldable pub push : Bool → List Text → Text → List Text
push rooted [] comp =
    if bytes_eq comp [] || bytes_eq comp (codes ".")
    then []
    else if bytes_eq comp (codes "..") && rooted
    then []
    else comp ∷ []
push rooted (top ∷ comps) comp =
    if bytes_eq comp [] || bytes_eq comp (codes ".")
    then top ∷ comps
    else if bytes_eq comp (codes "..") && not (bytes_eq top (codes ".."))
    then comps
    else comp ∷ top ∷ comps

unfoldable pub collapse : Bool → List Text → List Text → List Text
collapse rooted stack [] = stack
collapse rooted stack (comp ∷ later) = collapse rooted (push rooted stack comp) later

-- `"/".join`, of components that are the last first
unfoldable pub join_reversed : List Text → Text
join_reversed [] = []
join_reversed (comp ∷ []) = comp
join_reversed (comp ∷ below ∷ comps) = join_reversed (below ∷ comps) ++ slash ∷ comp

-- How many slashes a normal path starts with: two and no more stay two.
unfoldable pub leading : Text → Text
leading path =
    if starts_with (slash ∷ slash ∷ []) path && not (starts_with (slash ∷ slash ∷ slash ∷ []) path)
    then slash ∷ slash ∷ []
    else if starts_with (slash ∷ []) path
    then slash ∷ []
    else []

unfoldable pub components : Text → List Text
components path =
    let (head, rest) = split path in collapse (starts_with (slash ∷ []) path) [] (head ∷ rest)

-- `os.path.normpath`
unfoldable pub normpath : Text → Text
normpath path =
    let normal = leading path ++ join_reversed (components path) in
    if is_empty normal then codes "." else normal

abbrev pub forbidden_targets : List Text
forbidden_targets =
    codes "/" ∷ codes "/proc" ∷ codes "/sys" ∷ codes "/dev" ∷ codes "/run/tartarus-mount" ∷ []

-- The test of one reserved target.
unfoldable pub reserves : Text → Text → Bool
reserves normalized forbidden =
    bytes_eq normalized forbidden
    || (not (bytes_eq forbidden (codes "/")) && starts_with (forbidden ++ slash ∷ []) normalized)

unfoldable pub validate_target : Option Value → Option Text
validate_target (some (string (c ∷ target))) = do
  let normalized = normpath (c ∷ target)
  _ ← require (starts_with (slash ∷ []) normalized)
  _ ← require (not (any (reserves normalized) forbidden_targets))
  some normalized
validate_target _ = none

ends_with_slash : Text → Bool
ends_with_slash [] = false
ends_with_slash (c ∷ []) = c == slash
ends_with_slash (c ∷ d ∷ path) = ends_with_slash (d ∷ path)

-- `os.path.join(base, name)`
unfoldable pub join_path : Text → Text → Text
unfolding ends_with_slash
join_path base name =
    if starts_with (slash ∷ []) name
    then name
    else if is_empty base || ends_with_slash base
    then base ++ name
    else base ++ slash ∷ name

abbrev pub modes : List Text
modes = codes "rw" ∷ codes "ro" ∷ codes "overlay" ∷ []

-- `mode not in MODES`
unfoldable pub validate_mode : Option Value → Option Text
validate_mode (some (string s)) = if contains s modes then some s else none
validate_mode _ = none
