-- ===== src/Sandbox/Tests.antt =====
-- Runs of the checker on a small host, and instances of the theorems there.
use agent_workspace.Prelude.{
  ◌≡◌, refl, true, false, ◌&&◌, ◌||◌, some, List, [], ◌∷◌, Text, codes, text_eq, ok,
}
use agent_workspace.Sandbox.Policies.{
  Policy, SandboxConfig, block_all, permit_list, permit_all, clamp_sandbox_mode_for_untrusted,
}
use agent_workspace.Sandbox.Paths.{Env, clean}
use agent_workspace.Sandbox.Checker.{in_workspace, mode_allows, is_path_allowed}
use agent_workspace.Sandbox.Checker.Modes.{with_mode, modes_ordered, clamp_narrows}
use agent_workspace.Sandbox.Settings.{SandboxConfigStore, normalize_sandbox_path_list}

abbrev small_env : Env
small_env = record { user_home_dir = some (codes "/home/v"); getwd = some (codes "/") }

abbrev small_policy : Policy
small_policy = record {
  config = record { mode = permit_list; allowed_folders = codes "~/docs" ∷ [] };
  workspace_root = codes "/w";
  data_dir = codes "/home/v/.aw";
  protected = codes "/w/vault.db" ∷ [];
}

clean_run :
    (clean (codes "/a/./b//../c/") ≡ codes "/a/c")
    × (clean (codes "../a/../../b") ≡ codes "../../b")
    × (clean [] ≡ codes ".")
unfolding clean
clean_run = (refl, refl, refl)

-- A folder with a name that only begins like an allowed one is not allowed, nor is a way back out.
is_path_allowed_run :
    (is_path_allowed small_env (codes "/w/notes.md") small_policy ≡ true)
    × (is_path_allowed small_env (codes "/w/vault.db") small_policy ≡ false)
    × (is_path_allowed small_env (codes "/w2/notes.md") small_policy ≡ false)
    × (is_path_allowed small_env (codes "~/docs/a") small_policy ≡ true)
    × (is_path_allowed small_env (codes "~/docs/../.ssh/id") small_policy ≡ false)
unfolding is_path_allowed
is_path_allowed_run = (refl, refl, refl, refl, refl)

modes_ordered_example :
    (is_path_allowed small_env (codes "/w/a") (with_mode small_policy block_all) ≡ (
      in_workspace small_env (codes "/w/a") small_policy
      && is_path_allowed small_env (codes "/w/a") (with_mode small_policy permit_list)))
    × (is_path_allowed small_env (codes "/w/a") (with_mode small_policy permit_list) ≡ (
        is_path_allowed small_env (codes "/w/a") (with_mode small_policy permit_all)
        && (in_workspace small_env (codes "/w/a") small_policy
            || mode_allows small_env (codes "/w/a") (with_mode small_policy permit_list))))
modes_ordered_example = modes_ordered small_env (codes "/w/a") small_policy permit_list

clamp_narrows_example :
    (is_path_allowed small_env (codes "/tmp/a") (with_mode small_policy permit_all) ≡ true)
    × (text_eq (clamp_sandbox_mode_for_untrusted permit_all) permit_all ≡ false)
unfolding is_path_allowed clamp_sandbox_mode_for_untrusted
clamp_narrows_example = clamp_narrows small_env (codes "/tmp/a") small_policy permit_all refl

abbrev two_folders : List Text
two_folders = codes " /a" ∷ [] ∷ codes "/a" ∷ codes "/b " ∷ []

normalize_sandbox_path_list_run :
    normalize_sandbox_path_list two_folders ≡ codes "/a" ∷ codes "/b" ∷ []
unfolding normalize_sandbox_path_list
normalize_sandbox_path_list_run = refl

-- an unlocked vault that keeps its configuration
abbrev open_store : SandboxConfigStore
open_store = record {
  State = SandboxConfig;
  is_unlocked = λ s. true;
  dir = λ s. codes "/v";
  load_sandbox_config = λ s. ok s;
  save_sandbox_config = λ config s. (config, ok tt);
}

abbrev wanted_config : SandboxConfig
wanted_config = record { mode = permit_all; allowed_folders = two_folders }
