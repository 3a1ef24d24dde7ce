-- ===== src/Sandbox/Policies.antt =====
-- internal/domain/sandbox.go, and `Policy` of internal/infrastructure/sandbox/checker.go.
use agent_workspace.Prelude.{Bool, List, [], ◌∷◌, Text, codes, text_eq, if◌then◌else◌, ◌||◌}

abbrev pub SandboxMode : Type 0
SandboxMode = Text

abbrev pub block_all : SandboxMode
block_all = codes "block_all"

abbrev pub permit_list : SandboxMode
permit_list = codes "permit_list"

abbrev pub permit_all : SandboxMode
permit_all = codes "permit_all"

unfoldable pub clamp_sandbox_mode_for_untrusted : SandboxMode → SandboxMode
unfolding text_eq
clamp_sandbox_mode_for_untrusted mode = if text_eq mode permit_all then permit_list else mode

unfoldable pub sandbox_modes : List SandboxMode
sandbox_modes = block_all ∷ permit_list ∷ permit_all ∷ []

unfoldable pub valid_mode : SandboxMode → Bool
unfolding text_eq
valid_mode mode = text_eq mode block_all || text_eq mode permit_list || text_eq mode permit_all

pub record SandboxConfig : Type 0 where
  pub mode : SandboxMode
  pub allowed_folders : List Text

abbrev pub default_sandbox_config : SandboxConfig
default_sandbox_config = record { mode = permit_list; allowed_folders = [] }

-- the list that applies where the host is not Windows
abbrev pub builtin_always_denied : List Text
builtin_always_denied =
    codes "~/.ssh"
    ∷ codes "~/.gnupg"
    ∷ codes "~/.aws"
    ∷ codes "/etc/shadow"
    ∷ codes "/etc/passwd"
    ∷ []

abbrev pub builtin_allowed_permit_list : List Text
builtin_allowed_permit_list = codes "/tmp" ∷ codes "/var/tmp" ∷ []

pub record Policy : Type 0 where
  pub config : SandboxConfig
  pub workspace_root : Text
  pub data_dir : Text
  pub protected : List Text
