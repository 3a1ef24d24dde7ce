-- ===== src/Sandbox/Paths.antt =====
-- What the checker uses of Go's `path/filepath` on Unix (Clean, Join, IsAbs, Abs), and `ExpandPath`,
-- `normalizeForCompare`, `isInsideFolder`, `insideAny` of
-- internal/infrastructure/sandbox/checker.go.
use agent_workspace.Prelude.{
  ℕ, Bool, true, false, ◌&&◌, ◌||◌, Option, none, some, List, [], ◌∷◌, ◌++◌, Text, codes, text_eq,
  is_empty, has_prefix, trim_space, drop, ◌==◌, if◌then◌else◌,
}

abbrev pub slash : Text
slash = codes "/"

abbrev pub dot : Text
dot = codes "."

abbrev pub dot_dot : Text
dot_dot = codes ".."

-- a character in front of the elements of the rest
abbrev split_at : Bool → ℕ → List Text → List Text
split_at true c parts = [] ∷ parts
split_at false c [] = (c ∷ []) ∷ []
split_at false c (p ∷ ps) = (c ∷ p) ∷ ps

-- the elements between the slashes
unfoldable pub split_slash : Text → List Text
split_slash [] = [] ∷ []
split_slash (c ∷ s) = split_at (c == b'/') c (split_slash s)

unfoldable pub join_slash : List Text → Text
join_slash [] = []
join_slash (p ∷ []) = p
join_slash (p ∷ q ∷ ps) = p ++ slash ++ join_slash (q ∷ ps)

-- filepath.IsAbs
unfoldable pub is_abs : Text → Bool
is_abs [] = false
is_abs (c ∷ s) = c == b'/'

-- ".." takes away the element before it; where there is none, a rooted path drops the ".." and another
-- keeps it
unfoldable pub climb : Bool → List Text → List Text
unfolding text_eq
climb true [] = []
climb false [] = dot_dot ∷ []
climb rooted (top ∷ rest) = if text_eq top dot_dot then dot_dot ∷ top ∷ rest else rest

-- the elements that Clean keeps, the last one first: empty elements and "." are dropped
unfoldable pub clean_push : Bool → List Text → Text → List Text
unfolding climb text_eq is_empty
clean_push rooted stack part =
    if is_empty part || text_eq part dot
    then stack
    else if text_eq part dot_dot
    then climb rooted stack
    else part ∷ stack

unfoldable pub clean_parts : Bool → List Text → List Text → List Text
unfolding clean_push
clean_parts rooted stack [] = stack
clean_parts rooted stack (part ∷ parts) = clean_parts rooted (clean_push rooted stack part) parts

unfoldable pub reverse_parts : List Text → List Text → List Text
reverse_parts [] out = out
reverse_parts (p ∷ ps) out = reverse_parts ps (p ∷ out)

-- filepath.Clean
unfoldable pub clean : Text → Text
unfolding is_abs clean_parts split_slash join_slash reverse_parts is_empty
clean path =
    let kept = join_slash (reverse_parts (clean_parts (is_abs path) [] (split_slash path)) []) in
    if is_abs path then slash ++ kept else if is_empty kept then dot else kept

-- filepath.Join of two elements: empty ones are left out
unfoldable pub join : Text → Text → Text
unfolding clean is_empty
join a b =
    if is_empty a
    then (if is_empty b then [] else clean b)
    else if is_empty b
    then clean a
    else clean (a ++ slash ++ b)

-- what the process environment answers; `none` is an error
pub record Env : Type 0 where
  pub user_home_dir : Option Text
  pub getwd : Option Text

module _ (env : Env) where
  unfoldable pub home_dir : Text
  home_dir = elim env.user_home_dir [ none ↦ [] | some home ↦ home ]

  unfoldable pub expand_home : Text → Text
  unfolding home_dir join text_eq has_prefix
  expand_home path =
      if text_eq path (codes "~")
      then home_dir
      else if has_prefix path (codes "~/")
      then join home_dir (drop 2 path)
      else path

  -- filepath.Abs of a path that is not absolute; on an error the path stays
  unfoldable pub make_abs : Text → Text
  unfolding is_abs join
  make_abs path =
      if is_abs path then path else elim env.getwd [ none ↦ path | some wd ↦ join wd path ]

  unfoldable pub expand_path : Text → Text
  unfolding expand_home make_abs clean trim_space
  expand_path path = clean (make_abs (expand_home (trim_space path)))

-- strings.TrimRight(s, "/")
unfoldable pub trim_slashes : Text → Text
unfolding is_empty
trim_slashes [] = []
trim_slashes (c ∷ s) =
    let rest = trim_slashes s in if c == b'/' && is_empty rest then [] else c ∷ rest

unfoldable pub normalize_for_compare : Text → Text
unfolding clean trim_slashes text_eq
normalize_for_compare path =
    let normalized = clean path in
    if text_eq normalized slash then normalized else trim_slashes normalized

-- the comparison at the end of `isInsideFolder`
unfoldable pub is_under : Text → Text → Bool
unfolding text_eq has_prefix
is_under file folder =
    if text_eq folder slash then true else text_eq file folder || has_prefix file (folder ++ slash)

module _ (env : Env) where
  unfoldable pub is_inside_folder : Text → Text → Bool
  unfolding normalize_for_compare expand_path is_under
  is_inside_folder file folder =
      is_under (normalize_for_compare (expand_path env file))
        (normalize_for_compare (expand_path env folder))

  unfoldable pub inside_any : Text → List Text → Bool
  unfolding is_inside_folder is_empty trim_space
  inside_any file [] = false
  inside_any file (folder ∷ folders) =
      let rest = inside_any file folders in
      if is_empty (trim_space folder)
      then rest
      else if is_inside_folder file folder
      then true
      else rest
