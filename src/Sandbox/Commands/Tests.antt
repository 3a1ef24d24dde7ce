-- ===== src/Sandbox/Commands/Tests.antt =====
-- Runs of the shell pre-flight check, and instances of its theorems there.
use agent_workspace.Prelude.{
  ◌≡◌, refl, ℕ, true, false, ◌&&◌, some, [], ◌∷◌, codes, elem, some_of, distinct,
}
use agent_workspace.Sandbox.Policies.{Policy, permit_list}
use agent_workspace.Sandbox.Paths.{Env}
use agent_workspace.Sandbox.Extraction.{
  Patterns, tokenize, looks_like_path, candidates, extract_paths,
}
use agent_workspace.Sandbox.Commands.{is_safe_no_path_command, check_command, denied_paths}
use agent_workspace.Sandbox.Extraction.Candidates.{names, extract_paths_lem}

abbrev ascii : ℕ → ℕ
ascii c = c

-- a command with no redirect and no download
abbrev no_captures : Patterns
no_captures = record {
  redirects = λ command. [];
  curl_targets = λ command. [];
  wget_targets = λ command. [];
}

abbrev host : Env
host = record { user_home_dir = some (codes "/home/v"); getwd = some (codes "/") }

abbrev fence : Policy
fence = record {
  config = record { mode = permit_list; allowed_folders = [] };
  workspace_root = codes "/w";
  data_dir = [];
  protected = [];
}

-- Quotes keep a token together, operators and spaces end one.
tokenize_run :
    tokenize (codes "cat './a b'|grep x;ls")
    ≡ codes "cat" ∷ codes "'./a b'" ∷ codes "grep" ∷ codes "x" ∷ codes "ls" ∷ []
unfolding tokenize
tokenize_run = refl

extract_paths_run :
    extract_paths ascii no_captures (codes "cp './a b' ../etc /tmp/x ./a http://h/p '/tmp/x'")
    ≡ codes "./a b" ∷ codes "../etc" ∷ codes "/tmp/x" ∷ codes "./a" ∷ []
unfolding extract_paths
extract_paths_run = refl

is_safe_no_path_command_run :
    (is_safe_no_path_command (codes " /bin/echo hello") ≡ true)
    × (is_safe_no_path_command (codes "echo $HOME") ≡ false)
    × (is_safe_no_path_command (codes "python x") ≡ false)
unfolding is_safe_no_path_command
is_safe_no_path_command_run = (refl, refl, refl)

-- A path that climbs out of the folder of the command is blocked.
check_command_run :
    check_command host ascii no_captures (codes "cp ./a ../b") (codes "/w") fence ≡ record {
      allowed = false;
      paths = codes "./a" ∷ codes "../b" ∷ [];
      blocked = codes "../b" ∷ [];
      reason = denied_paths (codes "../b" ∷ []);
    }
unfolding check_command
check_command_run = refl

extract_paths_lem_example :
    (elem (codes "./a b") (extract_paths ascii no_captures (codes "cat './a b'")) ≡ (
      looks_like_path ascii (codes "./a b")
      && some_of
          (names ascii (codes "./a b"))
          (candidates ascii no_captures (codes "cat './a b'"))))
    × (distinct (extract_paths ascii no_captures (codes "cat './a b'")) ≡ true)
extract_paths_lem_example =
    extract_paths_lem ascii no_captures (codes "cat './a b'") (codes "./a b")
