-- ===== src/Sandbox/Resolve.antt =====
-- internal/infrastructure/sandbox/resolve.go: the defence against symlinks. The file system and Go's
-- path/filepath functions Dir, Rel and EvalSymlinks are the argument `Fs`.
pub mod Ancestors
pub mod Roots
pub mod Realpath
mod Tests
use agent_workspace.Prelude.{
  ℕ, zero, suc, ◌+◌, Bool, true, false, not, ◌&&◌, ◌||◌, Option, none, some, List, [], ◌∷◌, ◌++◌,
  Text, codes, text_eq, is_empty, trim_space, has_prefix, length, if◌then◌else◌, Result, ok, err,
}
use agent_workspace.Sandbox.Policies.{Policy, SandboxMode, permit_list, builtin_allowed_permit_list}
use agent_workspace.Sandbox.Paths.{Env, dot, dot_dot, is_abs, expand_path}
use agent_workspace.Sandbox.Checker.{is_path_allowed}

-- what os.Lstat answers
pub data Lstat : Type 0 where
  exists not_exist other_error : Lstat

pub record Fs : Type 0 where
  pub lstat : Text → Lstat
  -- `none` is an error
  pub eval_symlinks : Text → Option Text
  pub rel : Text → Text → Option Text
  pub dir : Text → Text

-- `out_of_fuel` is the loop of `find_existing_ancestor` not ended
pub data ResolveError : Type 0 where
  denied : Text → SandboxMode → ResolveError
  no_ancestor lstat_failed eval_failed out_of_fuel : ResolveError

-- what the loop does on the answer for `current`; `further` is the next round
abbrev pub after_lstat : Lstat → Text → Text → Result ResolveError Text → Result ResolveError Text
after_lstat exists current parent further = ok current
after_lstat other_error current parent further = err lstat_failed
after_lstat not_exist current parent further =
    if text_eq parent current then err no_ancestor else further

module _ (fs : Fs) where
  unfoldable pub find_from : ℕ → Text → Result ResolveError Text
  find_from zero current = err out_of_fuel
  find_from (suc fuel) current =
      let further = find_from fuel (fs.dir current) in
      after_lstat (fs.lstat current) current (fs.dir current) further

  unfoldable pub find_existing_ancestor : Text → Result ResolveError Text
  unfolding find_from
  find_existing_ancestor path = find_from (length path + 1) path

  unfoldable pub is_inside_resolved_path : Text → Text → Bool
  unfolding text_eq has_prefix is_abs
  is_inside_resolved_path file folder = elim (fs.rel folder file) [
    | none ↦ false
    | some relative ↦
        text_eq relative dot
        || not (text_eq relative dot_dot)
          && (not (has_prefix relative (codes "../")) && not (is_abs relative))
  ]

  module _ (env : Env) where
    unfoldable pub real_roots : Policy → List Text
    unfolding text_eq
    real_roots policy =
        if text_eq policy.config.mode permit_list
        then policy.workspace_root ∷ builtin_allowed_permit_list ++ policy.config.allowed_folders
        else policy.workspace_root ∷ []

    -- one round of the loop of `realPathAllowed`
    unfoldable pub lands_in : Text → Policy → Text → Bool
    unfolding is_path_allowed is_empty trim_space expand_path is_inside_resolved_path
    lands_in resolved policy root =
        if is_empty (trim_space root) || not (is_path_allowed env root policy)
        then false
        else elim (fs.eval_symlinks (expand_path env root)) [
          | none ↦ false
          | some real_root ↦ is_inside_resolved_path resolved real_root
        ]

    unfoldable pub lands_in_any : Text → Policy → List Text → Bool
    unfolding lands_in
    lands_in_any resolved policy [] = false
    lands_in_any resolved policy (root ∷ roots) =
        let rest = lands_in_any resolved policy roots in
        if lands_in resolved policy root then true else rest

    unfoldable pub real_path_allowed : Text → Policy → Bool
    unfolding is_path_allowed lands_in_any real_roots
    real_path_allowed resolved policy =
        if is_path_allowed env resolved policy
        then true
        else lands_in_any resolved policy (real_roots policy)

    -- behind the real path of the ancestor; `none` is an error of EvalSymlinks
    unfoldable pub check_real : Text → Policy → Text → Option Text → Result ResolveError Text
    unfolding real_path_allowed
    check_real path policy normalized none = err eval_failed
    check_real path policy normalized (some resolved) =
        if not (real_path_allowed resolved policy)
        then err (denied path policy.config.mode)
        else ok normalized

    -- behind the walk up to an ancestor
    unfoldable pub check_ancestor :
        Text → Policy → Text → Result ResolveError Text → Result ResolveError Text
    unfolding check_real
    check_ancestor path policy normalized (err e) = err e
    check_ancestor path policy normalized (ok existing) =
        check_real path policy normalized (fs.eval_symlinks existing)

    unfoldable pub resolve_and_check : Text → Policy → Result ResolveError Text
    unfolding expand_path is_path_allowed find_existing_ancestor check_ancestor
    resolve_and_check path policy =
        let normalized = expand_path env path in
        if not (is_path_allowed env normalized policy)
        then err (denied path policy.config.mode)
        else check_ancestor path policy normalized (find_existing_ancestor normalized)
