-- ===== src/Sandbox/Commands/Coverage.antt =====
-- A command that passes the check names no path that is out of reach.
use agent_workspace.Prelude.{◌≡◌, false, not, ◌&&◌, List, Text, text_eq}
use agent_workspace.Sandbox.Policies.{Policy, permit_list}
use agent_workspace.Sandbox.Paths.{Env}
use agent_workspace.Sandbox.Commands.{is_empty_list, is_safe_no_path_command}

module _ (env : Env) where
  -- what an allowed command without paths is, in the mode with a list
  abbrev pub IsVerifiable : Text → Policy → List Text → Type 0
  IsVerifiable command policy paths =
      (is_empty_list paths
        && (text_eq policy.config.mode permit_list && not (is_safe_no_path_command command)))
      ≡ false
