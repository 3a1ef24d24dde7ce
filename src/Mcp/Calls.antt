-- ===== src/Mcp/Calls.antt =====
-- The use cases of internal/application/mcp_connections.go that contact a server. What a call hands to the client, if
-- anything, stands beside its answer.
use agent_workspace.Prelude.{
  ℕ, ℤ, Bool, not, Option, none, some, List, [], ◌∷◌, Text, codes, is_empty, trim_space, Result, ok,
  err, if◌then◌else◌,
}
use agent_workspace.Mcp.{McpConnection}
use agent_workspace.Mcp.Cases.{McpPorts, resolve_mcp_connection}

-- what the client answers to a test: a result, with its error if there is one
pub record TestAnswer : Type 0 where
  pub status : Text
  pub tool_count : ℕ
  pub duration_ms : ℤ
  pub error : Text
  pub failure : Option Text

pub record McpConnectionTestResult : Type 0 where
  pub connection_id : Text
  pub status : Text
  pub tool_count : ℕ
  pub duration_ms : ℤ
  pub error : Text

pub record McpContentBlock : Type 0 where
  pub type : Text
  pub text : Text

-- what the client answers to a call of a tool; content that is `none` is nil
pub record CallAnswer : Type 0 where
  pub status : Text
  pub content : Option (List McpContentBlock)
  pub truncated : Bool
  pub failure : Option Text

pub record McpToolCallResult : Type 0 where
  pub connection_id : Text
  pub tool : Text
  pub status : Text
  pub content : Option (List McpContentBlock)
  pub truncated : Bool

abbrev pub mcp_disabled : Text
mcp_disabled = codes "connection is disabled; enable it before listing or calling tools"

pub record McpToolSummary : Type 0 where
  pub name : Text
  pub description : Text
  -- json.RawMessage
  pub input_schema : Text

pub record McpToolListResult : Type 0 where
  pub connection_id : Text
  pub tools : List McpToolSummary
  pub truncated : Bool

-- the connection and the secret that the client was given
abbrev pub Handed : Type 0
Handed = Option (McpConnection × Text)

unfoldable pub status_or : Text → Text → Text
status_or default [] = default
status_or default (c ∷ t) = c ∷ t

unfoldable pub content_or :
    List McpContentBlock → Option (List McpContentBlock) → Option (List McpContentBlock)
content_or default none = some default
content_or default (some c) = some c

module _ {S : Type 0} (ports : McpPorts S) where
  module _ (sanitize : Text → Text) where
    -- what is recorded of an error
    abbrev failure_text : TestAnswer → Text
    failure_text answer = elim answer.failure [ none ↦ [] | some e ↦ sanitize e ]

    abbrev tested : McpConnection → TestAnswer → McpConnectionTestResult
    tested conn answer = elim answer.failure [
      | some e ↦ record {
        connection_id = conn.id;
        status = codes "error";
        tool_count = answer.tool_count;
        duration_ms = answer.duration_ms;
        error = sanitize e;
      }
      | none ↦ record {
        connection_id = conn.id;
        status = status_or (codes "ok") answer.status;
        tool_count = answer.tool_count;
        duration_ms = answer.duration_ms;
        error = answer.error;
      }
    ]

    unfoldable pub test_mcp_connection :
        (McpConnection → Text → TestAnswer)
        → Text
        → S
        → Result Text McpConnectionTestResult × Handed × S
    unfolding resolve_mcp_connection status_or
    test_mcp_connection client id s = elim (resolve_mcp_connection ports id s) [
      | err e ↦ (err e, none, s)
      | ok target ↦
          let result = tested target.0 (client target.0 target.1) in
          (
            ok result,
            some target,
            ports.record_test target.0.id result.status (failure_text (client target.0 target.1))
                result.tool_count s,
          )
    ]

    unfoldable pub list_mcp_tools :
        (McpConnection → Text → Result Text McpToolListResult)
        → Text
        → S
        → Result Text McpToolListResult × Handed
    unfolding resolve_mcp_connection
    list_mcp_tools client id s = elim (resolve_mcp_connection ports id s) [
      | err e ↦ (err e, none)
      | ok target ↦
          if not target.0.enabled
          then (err mcp_disabled, none)
          else elim (client target.0 target.1) [
            | err e ↦ (err (sanitize e), some target)
            | ok result ↦ (ok (record result { connection_id = target.0.id }), some target)
          ]
    ]

    abbrev called : McpConnection → Text → CallAnswer → McpToolCallResult
    called conn tool answer = elim answer.failure [
      | some e ↦ record {
        connection_id = conn.id;
        tool = tool;
        status = codes "error";
        content =
            content_or (record { type = codes "text"; text = sanitize e } ∷ []) answer.content;
        truncated = answer.truncated;
      }
      | none ↦ record {
        connection_id = conn.id;
        tool = tool;
        status = status_or (codes "success") answer.status;
        content = answer.content;
        truncated = answer.truncated;
      }
    ]

    unfoldable pub call_mcp_tool :
        {A : Type 0}
        → (McpConnection → Text → Text → A → CallAnswer)
        → Text
        → Text
        → A
        → S
        → Result Text McpToolCallResult × Handed
    unfolding resolve_mcp_connection trim_space is_empty status_or content_or
    call_mcp_tool client id raw_tool arguments s =
        let tool = trim_space raw_tool in
        if is_empty tool
        then (err (codes "tool name is required"), none)
        else elim (resolve_mcp_connection ports id s) [
          | err e ↦ (err e, none)
          | ok target ↦ if not target.0.enabled then (err mcp_disabled, none) else (
            ok (called target.0 tool (client target.0 target.1 tool arguments)),
            some target,
          )
        ]
