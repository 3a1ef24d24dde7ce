-- ===== src/Sandbox/Commands.antt =====
-- The shell pre-flight check: `IsSafeNoPathCommand`, `CheckCommand` and `resolveAgainstCwd` of
-- internal/infrastructure/sandbox/extract.go. A reason keeps its kind and what its message names.
pub mod Coverage
mod Tests
use agent_workspace.Prelude.{
  ℕ, Bool, true, false, not, ◌&&◌, ◌||◌, List, [], ◌∷◌, Text, codes, text_eq, elem, is_empty,
  is_space, has_prefix, trim_space, some_of, keep, ◌==◌, if◌then◌else◌,
}
use agent_workspace.Sandbox.Policies.{Policy, block_all, permit_list}
use agent_workspace.Sandbox.Paths.{Env, dot, dot_dot, expand_path, join}
use agent_workspace.Sandbox.Checker.{is_path_allowed}
use agent_workspace.Sandbox.Extraction.{Patterns, backslash, extract_paths}

abbrev pub safe_no_path_commands : List Text
safe_no_path_commands =
    codes "date"
    ∷ codes "echo"
    ∷ codes "false"
    ∷ codes "id"
    ∷ codes "printf"
    ∷ codes "pwd"
    ∷ codes "true"
    ∷ codes "uname"
    ∷ codes "whoami"
    ∷ []

-- the characters of `unsafeOperators`
abbrev pub is_unsafe_operator : ℕ → Bool
is_unsafe_operator c = c == 10 || c == backslash || some_of (λ d. c == d) (codes ";|&<>`$(){}[]")

-- the first of `strings.Fields`, of a text that does not begin with a space
unfoldable pub first_field : Text → Text
unfolding is_space
first_field [] = []
first_field (c ∷ s) = let rest = first_field s in if is_space c then [] else c ∷ rest

-- what follows the last slash, and the whole text where there is none
unfoldable pub after_last_slash : Text → Text
unfolding some_of
after_last_slash [] = []
after_last_slash (c ∷ s) =
    let rest = after_last_slash s in
    if some_of (λ d. d == b'/') s then rest else if c == b'/' then s else c ∷ s

unfoldable pub is_safe_no_path_command : Text → Bool
unfolding trim_space is_empty first_field after_last_slash elem some_of
is_safe_no_path_command command =
    let trimmed = trim_space command in
    if is_empty trimmed
    then false
    else if some_of is_unsafe_operator trimmed
    then false
    else elem (after_last_slash (first_field trimmed)) safe_no_path_commands

-- len(list) == 0
abbrev pub is_empty_list : List Text → Bool
is_empty_list [] = true
is_empty_list (x ∷ xs) = false

pub data Reason : Type 0 where
  no_reason all_blocked nothing_verifiable : Reason
  denied_cwd : Text → Reason
  denied_paths : List Text → Reason

pub record CommandCheck : Type 0 where
  pub allowed : Bool
  pub paths : List Text
  pub blocked : List Text
  pub reason : Reason

module _ (env : Env) where
  unfoldable pub resolve_against_cwd : Text → Text → Text
  unfolding is_empty has_prefix text_eq join expand_path
  resolve_against_cwd path cwd =
      if is_empty cwd
      then path
      else if has_prefix path (codes "./")
          || has_prefix path (codes "../")
          || text_eq path dot
          || text_eq path dot_dot
      then join (expand_path env cwd) path
      else path

  unfoldable pub blocked_paths : List Text → Text → Policy → List Text
  unfolding keep is_path_allowed resolve_against_cwd
  blocked_paths paths cwd policy =
      keep (λ path. not (is_path_allowed env (resolve_against_cwd path cwd) policy)) paths

  -- what is decided of the extracted paths
  unfoldable pub check_paths : List Text → Text → Text → Policy → CommandCheck
  unfolding blocked_paths is_safe_no_path_command is_empty text_eq
  check_paths paths command cwd policy =
      let blocked = blocked_paths paths cwd policy in
      if is_empty_list paths
      then (if text_eq policy.config.mode permit_list && not (is_safe_no_path_command command)
          then record { allowed = false; paths = []; blocked = []; reason = nothing_verifiable }
          else record { allowed = true; paths = paths; blocked = []; reason = no_reason })
      else if not (is_empty_list blocked)
      then record {
        allowed = false;
        paths = paths;
        blocked = blocked;
        reason = denied_paths blocked;
      }
      else record { allowed = true; paths = paths; blocked = []; reason = no_reason }

  unfoldable pub check_command : (ℕ → ℕ) → Patterns → Text → Text → Policy → CommandCheck
  unfolding check_paths extract_paths is_path_allowed trim_space is_empty text_eq
  check_command lower_rune patterns command cwd policy =
      let dir = trim_space cwd in
      if not (is_empty dir) && not (is_path_allowed env dir policy)
      then record { allowed = false; paths = []; blocked = dir ∷ []; reason = denied_cwd dir }
      else if text_eq policy.config.mode block_all
      then record { allowed = false; paths = []; blocked = []; reason = all_blocked }
      else check_paths (extract_paths lower_rune patterns command) command dir policy
