-- ===== src/Mcp/Contact.antt =====
-- When a remote server is contacted, and with what, of internal/application/mcp_connections.go.
use agent_workspace.Prelude.{
  ◌≡◌, ◌⊎◌, inl, inr, refl, sym, ◌∙◌, subst, true, none, some, [], Text, arith, text_eq, trim_space,
  ok, err, if◌then◌else◌, Bool-cases,
}
use agent_workspace.Mcp.{McpConnection, mcp_auth_bearer}
use agent_workspace.Mcp.Cases.{McpPorts, find_connection, secret_of, resolve_mcp_connection}
use agent_workspace.Mcp.Calls.{CallAnswer, call_mcp_tool}

module _ {S : Type 0} (ports : McpPorts S) where
  find_connection-ok :
      (id : Text) (s : S) (conn : McpConnection)
      → find_connection ports id s ≡ ok conn
      → ports.get_connection (trim_space id) s ≡ ok (some conn)
  unfolding find_connection
  find_connection-ok id s conn found = ground arith

  secret_of_plain :
      (conn : McpConnection) (s : S)
      → (text_eq conn.auth_type mcp_auth_bearer ≡ true) ⊎ (secret_of ports conn s ≡ [])
  secret_of_plain conn s = elim (Bool-cases (text_eq conn.auth_type mcp_auth_bearer)) [
    | inl bearer ↦ inl bearer
    | inr plain ↦ inr (opened ∙ rw plain)
  ]
    where
      opened : secret_of ports conn s ≡ (
          if text_eq conn.auth_type mcp_auth_bearer
          then elim (ports.get_secret conn.id s) [
            | err e ↦ []
            | ok found ↦ elim found [ none ↦ [] | some secret ↦ secret ]
          ]
          else [])
      opened = unfold secret_of in refl

  resolve-ok :
      (id : Text) (s : S) (conn : McpConnection) (secret : Text)
      → resolve_mcp_connection ports id s ≡ ok (conn, secret)
      → (ports.is_unlocked s ≡ true)
        × (find_connection ports id s ≡ ok conn)
        × (secret ≡ secret_of ports conn s)
  unfolding resolve_mcp_connection
  resolve-ok id s conn secret found = ground arith

  -- what a client may be handed
  abbrev pub IsHandable : Text → S → McpConnection → Text → Type 0
  IsHandable id s conn secret =
      (ports.is_unlocked s ≡ true)
      × (ports.get_connection (trim_space id) s ≡ ok (some conn))
      × (conn.enabled ≡ true)
      × ((text_eq conn.auth_type mcp_auth_bearer ≡ true) ⊎ (secret ≡ []))

  module _ (sanitize : Text → Text) where
    -- the call, once its connection is known
    handed_cases :
        {A : Type 0} (client : McpConnection → Text → Text → A → CallAnswer) (id tool : Text)
        (arguments : A) (s : S) (conn : McpConnection) (secret : Text)
        → (call_mcp_tool ports sanitize client id tool arguments s).1 ≡ some (conn, secret)
        → (resolve_mcp_connection ports id s ≡ ok (conn, secret)) × (conn.enabled ≡ true)
    unfolding call_mcp_tool
    handed_cases client id tool arguments s conn secret handed = ground arith

    -- A call of a tool reaches a server only when the vault is unlocked, the connection of that id is stored and
    -- enabled, and it carries a secret only if the connection's type is bearer.
    pub call_mcp_tool_guarded :
        {A : Type 0} (client : McpConnection → Text → Text → A → CallAnswer) (id tool : Text)
        (arguments : A) (s : S) (conn : McpConnection) (secret : Text)
        → (call_mcp_tool ports sanitize client id tool arguments s).1 ≡ some (conn, secret)
        → IsHandable id s conn secret
    call_mcp_tool_guarded client id tool arguments s conn secret handed =
        let reached = handed_cases client id tool arguments s conn secret handed in
        let resolved = resolve-ok id s conn secret reached.0 in
        (resolved.0, find_connection-ok id s conn resolved.1, reached.1, plain resolved.2)
      where
        plain :
            secret ≡ secret_of ports conn s
            → (text_eq conn.auth_type mcp_auth_bearer ≡ true) ⊎ (secret ≡ [])
        plain same =
            subst (λ t. (text_eq conn.auth_type mcp_auth_bearer ≡ true) ⊎ (t ≡ [])) (sym same)
              (secret_of_plain conn s)
