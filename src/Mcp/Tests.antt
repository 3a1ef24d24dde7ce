-- ===== src/Mcp/Tests.antt =====
-- One stored connection, and instances of the theorems there.
use agent_workspace.Prelude.{
  ℕ, ◌+◌, ◌≡◌, ◌≤◌, ◌⊎◌, refl, arith, Bool, true, false, none, some, [], ◌∷◌, ◌++◌, Text, codes,
  text_eq, length, take, ok, err, pos, if◌then◌else◌,
}
use agent_workspace.Mcp.{
  McpConnection, McpConnectionInput, ParseUrl, normalize_mcp_input, truncate_mcp_text,
  truncated_mark, byte_at, is_continuation,
}
use agent_workspace.Mcp.Truncation.{truncate_mcp_text_lem}
use agent_workspace.Mcp.Inputs.{IsNormal, normalize_mcp_input-IsNormal}
use agent_workspace.Mcp.Cases.{McpPorts}
use agent_workspace.Mcp.Calls.{CallAnswer, call_mcp_tool, mcp_disabled}
use agent_workspace.Mcp.Contact.{IsHandable, call_mcp_tool_guarded}

-- "aé", cut inside the second rune
truncate_run : truncate_mcp_text (97 ∷ 195 ∷ 169 ∷ []) (pos 2) ≡ (97 ∷ truncated_mark, true)
unfolding truncate_mcp_text
truncate_run = refl

truncate_mcp_text_lem_example :
    (cut : ℕ) × (truncate_mcp_text (97 ∷ 195 ∷ 169 ∷ []) (pos 2)
      ≡ (take cut (97 ∷ 195 ∷ 169 ∷ []) ++ truncated_mark, true))
    × (cut ≤ 2)
    × ((cut ≡ 0) ⊎ (is_continuation (byte_at (97 ∷ 195 ∷ 169 ∷ []) cut) ≡ false))
    × (length (truncate_mcp_text (97 ∷ 195 ∷ 169 ∷ []) (pos 2)).0 ≤ 2 + 14)
truncate_mcp_text_lem_example =
    truncate_mcp_text_lem (97 ∷ 195 ∷ 169 ∷ []) 2 (omega arith) (omega arith)

abbrev parse : ParseUrl
parse t = some (codes "https", codes "example.org")

abbrev raw_input : McpConnectionInput
raw_input = record {
  name = codes " docs ";
  enabled = true;
  transport = [];
  url = codes "https://example.org ";
  auth_type = codes "bearer";
}

abbrev clean_input : McpConnectionInput
clean_input = record {
  name = codes "docs";
  enabled = true;
  transport = codes "streamable_http";
  url = codes "https://example.org";
  auth_type = codes "bearer";
}

normalize_run : normalize_mcp_input parse raw_input ≡ ok clean_input
unfolding normalize_mcp_input
normalize_run = refl

normalize_mcp_input-IsNormal_example :
    IsNormal parse raw_input clean_input × (normalize_mcp_input parse clean_input ≡ ok clean_input)
normalize_mcp_input-IsNormal_example =
    normalize_mcp_input-IsNormal parse raw_input clean_input normalize_run

abbrev connection : Bool → McpConnection
connection enabled = record {
  id = codes "c1";
  name = codes "docs";
  enabled = enabled;
  transport = codes "streamable_http";
  url = codes "https://example.org";
  auth_type = codes "bearer";
  has_secret = true;
  last_status = [];
  last_checked_at = [];
  last_error = [];
  tool_count = 0;
  created_at = [];
  updated_at = [];
}

-- the state is the only connection that is stored
abbrev ports : McpPorts McpConnection
ports = record {
  is_unlocked = λ s. true;
  list_connections = λ s. ok (s ∷ []);
  get_connection = λ id s. if text_eq id s.id then ok (some s) else ok none;
  create_connection = λ input s. (ok s, s);
  update_connection = λ id patch s. (ok s, s);
  delete_connection = λ id s. (ok tt, s);
  set_enabled = λ id enabled s. (ok s, s);
  record_test = λ id status error count s. s;
  get_secret = λ id s. ok (some (codes "token"));
  set_secret = λ id token s. (ok tt, s);
  delete_secret = λ id s. (ok tt, s);
}

abbrev client : McpConnection → Text → Text → Text → CallAnswer
client conn secret tool arguments = record {
  status = [];
  content = some (record { type = codes "text"; text = secret } ∷ []);
  truncated = false;
  failure = none;
}

abbrev same_text : Text → Text
same_text t = t

-- A disabled connection is not contacted.
call_run :
    call_mcp_tool ports same_text client
      (codes "c1")
      (codes "search")
      (codes "{}")
      (connection false)
    ≡ (err mcp_disabled, none)
unfolding call_mcp_tool text_eq
call_run = refl

contacted :
    (call_mcp_tool ports same_text client
      (codes "c1")
      (codes "search")
      (codes "{}")
      (connection true)).1
    ≡ some (connection true, codes "token")
unfolding call_mcp_tool text_eq
contacted = refl

call_mcp_tool_guarded_example :
    IsHandable ports (codes "c1") (connection true) (connection true) (codes "token")
call_mcp_tool_guarded_example =
    call_mcp_tool_guarded ports same_text client (codes "c1") (codes "search") (codes "{}")
      (connection true) (connection true) (codes "token") contacted
