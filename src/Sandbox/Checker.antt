-- ===== src/Sandbox/Checker.antt =====
-- `IsPathAllowed` and `Roots` of internal/infrastructure/sandbox/checker.go.
pub mod Modes
use agent_workspace.Prelude.{
  Bool, true, false, not, ◌&&◌, ◌||◌, List, [], ◌∷◌, ◌++◌, Text, text_eq, is_empty, elem,
  trim_space, text_lt, sort_stable, if◌then◌else◌,
}
use agent_workspace.Sandbox.Policies.{
  Policy, block_all, permit_list, permit_all, builtin_always_denied, builtin_allowed_permit_list,
}
use agent_workspace.Sandbox.Paths.{Env, home_dir, expand_path, is_inside_folder, inside_any, slash}

module _ (env : Env) where
  unfoldable pub in_workspace : Text → Policy → Bool
  unfolding is_inside_folder is_empty trim_space
  in_workspace file policy =
      not (is_empty (trim_space policy.workspace_root))
      && is_inside_folder env file policy.workspace_root

  unfoldable pub in_data_dir : Text → Policy → Bool
  unfolding is_inside_folder is_empty trim_space
  in_data_dir file policy =
      not (is_empty (trim_space policy.data_dir)) && is_inside_folder env file policy.data_dir

  -- the `switch` on the mode; an unknown mode denies
  unfoldable pub mode_allows : Text → Policy → Bool
  unfolding inside_any text_eq
  mode_allows file policy =
      if text_eq policy.config.mode permit_all
      then true
      else if text_eq policy.config.mode block_all
      then false
      else if text_eq policy.config.mode permit_list
      then (if inside_any env file builtin_allowed_permit_list
          then true
          else inside_any env file policy.config.allowed_folders)
      else false

  unfoldable pub is_path_allowed : Text → Policy → Bool
  unfolding inside_any in_workspace in_data_dir mode_allows
  is_path_allowed file policy =
      if inside_any env file builtin_always_denied
      then false
      else if inside_any env file policy.protected
      then false
      else if in_data_dir file policy && not (in_workspace file policy)
      then false
      else if in_workspace file policy
      then true
      else mode_allows file policy

  -- one round of the loop of `Roots`; the keys of `seen` are `roots`
  unfoldable pub next_root : Policy → Text → List Text → List Text
  unfolding is_path_allowed expand_path elem is_empty trim_space
  next_root policy candidate roots =
      let expanded = expand_path env candidate in
      if is_empty (trim_space candidate)
      then roots
      else if elem expanded roots || not (is_path_allowed expanded policy)
      then roots
      else roots ++ expanded ∷ []

  unfoldable pub roots_loop : Policy → List Text → List Text → List Text
  unfolding next_root
  roots_loop policy [] roots = roots
  roots_loop policy (candidate ∷ rest) roots =
      roots_loop policy rest (next_root policy candidate roots)

  unfoldable pub root_candidates : Policy → List Text
  unfolding text_eq home_dir
  root_candidates policy =
      policy.workspace_root
      ∷ (if text_eq policy.config.mode permit_list
          then builtin_allowed_permit_list ++ policy.config.allowed_folders
          else if text_eq policy.config.mode permit_all
          then home_dir env ∷ slash ∷ []
          else [])

  unfoldable pub roots : Policy → List Text
  unfolding roots_loop root_candidates sort_stable text_lt
  roots policy = sort_stable text_lt (roots_loop policy (root_candidates policy) [])
