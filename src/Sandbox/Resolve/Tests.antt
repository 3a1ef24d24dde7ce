-- ===== src/Sandbox/Resolve/Tests.antt =====
-- Runs of the symlink defence on a small file system, and instances of its theorems there.
use agent_workspace.Prelude.{
  ◌≡◌, refl, ◌↔◌, ◌≤◌, ◌==◌, has_char, has_char-nil, text_eq_refl, sym, ◌∙◌, ℕ, ◌||◌, ◌⊎◌, ◌≢◌, ◌<◌,
  arith, true, false, none, some, [], ◌∷◌, Text, codes, text_eq, length, ok, err, if◌then◌else◌,
}
use agent_workspace.Sandbox.Policies.{Policy, permit_list}
use agent_workspace.Sandbox.Paths.{Env, is_abs, expand_path}
use agent_workspace.Sandbox.Resolve.{
  Fs, exists, not_exist, ResolveError, denied, out_of_fuel, find_existing_ancestor,
  resolve_and_check,
}
use agent_workspace.Sandbox.Resolve.Ancestors.{DirLaw, Ancestor, find_existing_ancestor_lem}
use agent_workspace.Sandbox.Resolve.Realpath.{IsResolved, resolve_and_check_lem}

-- the text in front of the last slash
unfoldable before_last : Text → Text
unfolding has_char
before_last [] = []
before_last (c ∷ s) = let rest = before_last s in if has_char b'/' s then c ∷ rest else []

-- filepath.Dir on a clean absolute path, and nothing on any other
unfoldable parent : Text → Text
unfolding before_last
parent [] = []
parent (c ∷ s) = if c == b'/' then c ∷ before_last s else c ∷ s

-- /w and /w/link exist, and the link leads to /etc
abbrev small_fs : Fs
small_fs = record {
  lstat = λ p. if text_eq p (codes "/w") || text_eq p (codes "/w/link") then exists else not_exist;
  eval_symlinks = λ p. if text_eq p (codes "/w/link") then some (codes "/etc") else some p;
  rel = λ folder file. none;
  dir = parent;
}

length-before_last : (c : ℕ) (s : Text) → length (before_last (c ∷ s)) ≤ length s
unfolding before_last
length-before_last c [] = ground (arith, has_char-nil b'/')
length-before_last c (d ∷ s) = ground (arith, length-before_last d s)

shorter_parent :
    (p : Text) → is_abs p ≡ true → text_eq (parent p) p ≡ false → length (parent p) < length p
unfolding is_abs parent
shorter_parent [] rooted other = absurd (cc rooted)
shorter_parent (c ∷ []) rooted other = absurd (same_slash (rw rooted at other))
  where
    same_slash : text_eq (c ∷ []) (c ∷ []) ≡ false → ⊥
    same_slash h = cc (sym (text_eq_refl (c ∷ [])) ∙ h)
shorter_parent (c ∷ d ∷ s) rooted other = ground (arith, length-before_last d s)

rooted_parent : (p : Text) → is_abs p ≡ true → is_abs (parent p) ≡ true
unfolding is_abs parent
rooted_parent [] h = h
rooted_parent (c ∷ s) h = rw h h

small_fs-DirLaw : DirLaw small_fs
small_fs-DirLaw = record { absolute = rooted_parent; shorter = shorter_parent }

abbrev user_env : Env
user_env = record { user_home_dir = some (codes "/home/v"); getwd = some (codes "/") }

abbrev work_policy : Policy
work_policy = record {
  config = record { mode = permit_list; allowed_folders = [] };
  workspace_root = codes "/w";
  data_dir = [];
  protected = [];
}

-- A new file in the workspace passes; a link out of it does not.
resolve_and_check_run :
    (resolve_and_check small_fs user_env (codes "/w/new") work_policy ≡ ok (codes "/w/new"))
    × (resolve_and_check small_fs user_env (codes "/w/link") work_policy
        ≡ err (denied (codes "/w/link") permit_list))
unfolding resolve_and_check parent
resolve_and_check_run = (refl, refl)

find_existing_ancestor_lem_example :
    ((found : Text) × (find_existing_ancestor small_fs (codes "/w/new") ≡ ok found)
      × Ancestor small_fs (codes "/w/new") found
      × (small_fs.lstat found ≡ exists))
    ⊎ ((e : ResolveError) × (find_existing_ancestor small_fs (codes "/w/new") ≡ err e)
        × (e ≢ out_of_fuel))
unfolding is_abs
find_existing_ancestor_lem_example =
    find_existing_ancestor_lem small_fs small_fs-DirLaw (codes "/w/new") refl

resolve_and_check_lem_example :
    (resolve_and_check small_fs user_env (codes "/w/new") work_policy ≡ ok (codes "/w/new"))
    ↔ IsResolved small_fs user_env work_policy (codes "/w/new") (codes "/w/new")
unfolding expand_path is_abs
resolve_and_check_lem_example =
    resolve_and_check_lem small_fs user_env (codes "/w/new") (codes "/w/new") work_policy
      small_fs-DirLaw refl
