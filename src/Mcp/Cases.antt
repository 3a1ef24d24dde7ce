-- ===== src/Mcp/Cases.antt =====
-- The use cases of internal/application/mcp_connections.go, over the ports of connections, secrets and the MCP client.
use agent_workspace.Prelude.{
  ℕ, ◌++◌, Bool, false, not, ◌&&◌, Option, none, some, List, [], Text, codes, text_eq, is_empty,
  trim_space, Result, ok, err, if◌then◌else◌,
}
use agent_workspace.Mcp.{
  McpConnection, McpConnectionInput, McpConnectionPatch, ParseUrl, normalize_mcp_input,
  validate_mcp_name, validate_mcp_url, is_valid_mcp_auth_type, mcp_auth_bearer,
}

-- ports.McpConnectionStore and ports.McpCredentialStore, over a state of theirs
pub record McpPorts (S : Type 0) : Type 0 where
  pub is_unlocked : S → Bool
  pub list_connections : S → Result Text (List McpConnection)
  pub get_connection : Text → S → Result Text (Option McpConnection)
  pub create_connection : McpConnectionInput → S → Result Text McpConnection × S
  pub update_connection : Text → McpConnectionPatch → S → Result Text McpConnection × S
  pub delete_connection : Text → S → Result Text (Unit {0}) × S
  pub set_enabled : Text → Bool → S → Result Text McpConnection × S
  pub record_test : Text → Text → Text → ℕ → S → S
  pub get_secret : Text → S → Result Text (Option Text)
  pub set_secret : Text → Text → S → Result Text (Unit {0}) × S
  pub delete_secret : Text → S → Result Text (Unit {0}) × S

abbrev pub vault_locked : Text
vault_locked = codes "vault is locked"

abbrev not_found : Text → Text
not_found id = codes "connection not found: " ++ id

module _ {S : Type 0} (ports : McpPorts S) where
  unfoldable pub find_connection : Text → S → Result Text McpConnection
  unfolding trim_space
  find_connection id s = elim (ports.get_connection (trim_space id) s) [
    | err e ↦ err e
    | ok found ↦ elim found [ none ↦ err (not_found id) | some conn ↦ ok conn ]
  ]

  unfoldable pub list_mcp_connections : S → Result Text (List McpConnection)
  list_mcp_connections s =
      if not (ports.is_unlocked s) then err vault_locked else ports.list_connections s

  unfoldable pub get_mcp_connection : Text → S → Result Text McpConnection
  unfolding find_connection
  get_mcp_connection id s =
      if not (ports.is_unlocked s) then err vault_locked else find_connection id s

  -- the connection as it is stored now, where that can be read
  unfoldable pub refreshed : McpConnection → S → McpConnection
  refreshed conn s = elim (ports.get_connection conn.id s) [
    | err e ↦ conn
    | ok found ↦ elim found [ none ↦ conn | some now ↦ now ]
  ]

  unfoldable pub store_token : Text → McpConnection → S → Result Text McpConnection × S
  unfolding refreshed
  store_token token conn s =
      let written = ports.set_secret conn.id token s in
      elim written.0 [
        | err e ↦ (err e, written.1)
        | ok done ↦ (ok (refreshed conn written.1), written.1)
      ]

  unfoldable pub add_mcp_connection :
      ParseUrl → McpConnectionInput → Text → S → Result Text McpConnection × S
  unfolding normalize_mcp_input store_token is_empty trim_space
  add_mcp_connection parse input token s =
      if not (ports.is_unlocked s)
      then (err vault_locked, s)
      else elim (normalize_mcp_input parse input) [
        | err e ↦ (err e, s)
        | ok normalized ↦
            let created = ports.create_connection normalized s in
            elim created.0 [
              | err e ↦ (err e, created.1)
              | ok conn ↦
                  if not (is_empty (trim_space token))
                  then store_token token conn created.1
                  else (ok conn, created.1)
            ]
      ]

  -- a field of a patch, checked where it is set
  unfoldable pub check_field : (Text → Result Text Text) → Option Text → Result Text (Option Text)
  check_field check none = ok none
  check_field check (some t) = elim (check t) [ err e ↦ err e | ok clean ↦ ok (some clean) ]

  unfoldable pub check_auth_type : Text → Result Text Text
  unfolding is_valid_mcp_auth_type
  check_auth_type t =
      if not (is_valid_mcp_auth_type t) then err (codes "unsupported authType " ++ t) else ok t

  unfoldable pub validate_patch : ParseUrl → McpConnectionPatch → Result Text McpConnectionPatch
  unfolding check_field check_auth_type validate_mcp_name validate_mcp_url
  validate_patch parse patch = elim (check_field validate_mcp_name patch.name) [
    | err e ↦ err e
    | ok name ↦ elim (check_field (validate_mcp_url parse) patch.url) [
      | err e ↦ err e
      | ok url ↦ elim (check_field check_auth_type patch.auth_type) [
        | err e ↦ err e
        | ok auth_type ↦
            ok (record { name = name; enabled = patch.enabled; url = url; auth_type = auth_type })
      ]
    ]
  ]

  abbrev sets_token : Option Text → Bool
  sets_token none = false
  sets_token (some t) = not (is_empty (trim_space t))

  abbrev token_text : Option Text → Text
  token_text none = []
  token_text (some t) = t

  -- the `switch` on the token, after the row has been updated
  unfoldable pub update_token :
      Option Text → Bool → McpConnection → S → Result Text McpConnection × S
  unfolding store_token refreshed is_empty trim_space
  update_token token clear_token conn s =
      let cleared = ports.delete_secret conn.id s in
      if clear_token
      then elim cleared.0 [
        | err e ↦ (err e, cleared.1)
        | ok done ↦ (ok (refreshed conn cleared.1), cleared.1)
      ]
      else if sets_token token
      then store_token (token_text token) conn s
      else (ok (refreshed conn s), s)

  unfoldable pub update_mcp_connection :
      ParseUrl → Text → McpConnectionPatch → Option Text → Bool → S → Result Text McpConnection × S
  unfolding validate_patch update_token is_empty trim_space
  update_mcp_connection parse id patch token clear_token s =
      if not (ports.is_unlocked s)
      then (err vault_locked, s)
      else if sets_token token && clear_token
      then (err (codes "token and clearToken cannot both be set"), s)
      else elim (validate_patch parse patch) [
        | err e ↦ (err e, s)
        | ok clean ↦
            let updated = ports.update_connection (trim_space id) clean s in
            elim updated.0 [
              | err e ↦ (err e, updated.1)
              | ok conn ↦ update_token token clear_token conn updated.1
            ]
      ]

  unfoldable pub remove_mcp_connection : Text → S → Result Text McpConnection × S
  unfolding find_connection
  remove_mcp_connection id s =
      if not (ports.is_unlocked s) then (err vault_locked, s) else elim (find_connection id s) [
        | err e ↦ (err e, s)
        | ok conn ↦
            let forgotten = ports.delete_secret conn.id s in
            let removed = ports.delete_connection conn.id forgotten.1 in
            elim removed.0 [ err e ↦ (err e, removed.1) | ok done ↦ (ok conn, removed.1) ]
      ]

  unfoldable pub set_mcp_connection_enabled : Text → Bool → S → Result Text McpConnection × S
  unfolding trim_space
  set_mcp_connection_enabled id enabled s =
      if not (ports.is_unlocked s)
      then (err vault_locked, s)
      else ports.set_enabled (trim_space id) enabled s

  -- the secret that goes with a connection
  unfoldable pub secret_of : McpConnection → S → Text
  unfolding text_eq
  secret_of conn s =
      if text_eq conn.auth_type mcp_auth_bearer
      then elim (ports.get_secret conn.id s) [
        | err e ↦ []
        | ok found ↦ elim found [ none ↦ [] | some secret ↦ secret ]
      ]
      else []

  unfoldable pub resolve_mcp_connection : Text → S → Result Text (McpConnection × Text)
  unfolding find_connection secret_of
  resolve_mcp_connection id s =
      if not (ports.is_unlocked s)
      then err vault_locked
      else elim (find_connection id s) [ err e ↦ err e | ok conn ↦ ok (conn, secret_of conn s) ]
