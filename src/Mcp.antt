-- ===== src/Mcp.antt =====
-- Connections to external MCP servers: internal/domain/mcp_connection.go. The length of a text in bytes is that of
-- its UTF-8 form, and url.Parse is an argument.
pub mod Cases
pub mod Calls
pub mod Truncation
pub mod Contact
pub mod Inputs
mod Tests
use agent_workspace.Prelude.{
  ℕ, zero, suc, ◌+◌, Bool, true, false, not, ◌&&◌, ◌||◌, Option, none, some, List, [], ◌∷◌, ◌++◌,
  Text, codes, text_eq, is_empty, trim_space, to_lower, contains, length, take, ltb, leb, Result,
  ok, err, ◌>>=◌, some_of, if◌then◌else◌, ℤ, pos, negsuc,
}

abbrev pub mcp_transport_streamable_http : Text
mcp_transport_streamable_http = codes "streamable_http"

abbrev pub mcp_auth_none : Text
mcp_auth_none = codes "none"

abbrev pub mcp_auth_bearer : Text
mcp_auth_bearer = codes "bearer"

abbrev pub mcp_max_name_len : ℕ
mcp_max_name_len = 80

abbrev pub mcp_max_url_len : ℕ
mcp_max_url_len = 2048

pub record McpConnection : Type 0 where
  pub id : Text
  pub name : Text
  pub enabled : Bool
  pub transport : Text
  pub url : Text
  pub auth_type : Text
  pub has_secret : Bool
  pub last_status : Text
  pub last_checked_at : Text
  pub last_error : Text
  pub tool_count : ℕ
  pub created_at : Text
  pub updated_at : Text

pub record McpConnectionInput : Type 0 where
  pub name : Text
  pub enabled : Bool
  pub transport : Text
  pub url : Text
  pub auth_type : Text

pub record McpConnectionPatch : Type 0 where
  pub name : Option Text
  pub enabled : Option Bool
  pub url : Option Text
  pub auth_type : Option Text

unfoldable pub rune_bytes : ℕ → ℕ
rune_bytes c = if ltb c 0x80 then 1 else if ltb c 0x800 then 2 else if ltb c 0x10000 then 3 else 4

-- len of a string
unfoldable pub byte_length : Text → ℕ
unfolding rune_bytes
byte_length [] = 0
byte_length (c ∷ t) = rune_bytes c + byte_length t

unfoldable pub is_valid_mcp_transport : Text → Bool
unfolding text_eq
is_valid_mcp_transport transport = text_eq transport mcp_transport_streamable_http

unfoldable pub is_valid_mcp_auth_type : Text → Bool
unfolding text_eq
is_valid_mcp_auth_type auth_type =
    text_eq auth_type mcp_auth_none || text_eq auth_type mcp_auth_bearer

unfoldable pub validate_mcp_name : Text → Result Text Text
unfolding trim_space is_empty byte_length
validate_mcp_name raw =
    let name = trim_space raw in
    if is_empty name
    then err (codes "connection name is required")
    else if ltb mcp_max_name_len (byte_length name)
    then err (codes "connection name is too long (max 80)")
    else ok name

-- the scheme and the host that url.Parse finds
abbrev pub ParseUrl : Type 0
ParseUrl = Text → Option (Text × Text)

-- the end of `ValidateMcpURL`
unfoldable pub check_parsed : Text → Option (Text × Text) → Result Text Text
unfolding text_eq is_empty
check_parsed raw none = err (codes "connection url is not a valid URL")
check_parsed raw (some (scheme, host)) =
    if not (text_eq scheme (codes "http")) && not (text_eq scheme (codes "https"))
    then err (codes "connection url must be http:// or https://")
    else if is_empty host
    then err (codes "connection url must include a host")
    else ok raw

unfoldable pub validate_mcp_url : ParseUrl → Text → Result Text Text
unfolding trim_space is_empty byte_length check_parsed
validate_mcp_url parse text =
    let raw = trim_space text in
    if is_empty raw
    then err (codes "connection url is required")
    else if ltb mcp_max_url_len (byte_length raw)
    then err (codes "connection url is too long")
    else check_parsed raw (parse raw)

abbrev pub or_default : Text → Text → Text
or_default default [] = default
or_default default (c ∷ t) = c ∷ t

unfoldable pub normalize_mcp_input : ParseUrl → McpConnectionInput → Result Text McpConnectionInput
unfolding validate_mcp_name validate_mcp_url is_valid_mcp_transport is_valid_mcp_auth_type
normalize_mcp_input parse input =
    let transport = or_default mcp_transport_streamable_http input.transport in
    let auth_type = or_default mcp_auth_none input.auth_type in
    elim (validate_mcp_name input.name) [
      | err e ↦ err e
      | ok name ↦
          if not (is_valid_mcp_transport transport)
          then err (codes "unsupported transport " ++ transport)
          else if not (is_valid_mcp_auth_type auth_type)
          then err (codes "unsupported authType " ++ auth_type)
          else elim (validate_mcp_url parse input.url) [
            | err e ↦ err e
            | ok url ↦ ok (record {
              name = name;
              enabled = input.enabled;
              transport = transport;
              url = url;
              auth_type = auth_type;
            })
          ]
    ]

-- `s[i]`, where it is there
unfoldable pub byte_at : List ℕ → ℕ → ℕ
byte_at [] i = 0
byte_at (b ∷ s) zero = b
byte_at (b ∷ s) (suc i) = byte_at s i

-- `b&0xC0 == 0x80` of a byte
abbrev pub is_continuation : ℕ → Bool
is_continuation b = leb 0x80 b && ltb b 0xc0

-- the loop of `TruncateMcpText`
unfoldable pub back_up : List ℕ → ℕ → ℕ
unfolding byte_at
back_up s zero = zero
back_up s (suc cut) =
    let rest = back_up s cut in if is_continuation (byte_at s (suc cut)) then rest else suc cut

-- the bytes of "…[truncated]"
abbrev pub truncated_mark : List ℕ
truncated_mark = 226 ∷ 128 ∷ 166 ∷ codes "[truncated]"

unfoldable pub truncate_mcp_text : List ℕ → ℤ → List ℕ × Bool
unfolding back_up
truncate_mcp_text s (negsuc n) = (s, false)
truncate_mcp_text s (pos max_bytes) =
    if leb max_bytes 0 || leb (length s) max_bytes
    then (s, false)
    else (take (back_up s max_bytes) s ++ truncated_mark, true)

unfoldable pub mcp_connection_secret_key : Text → Text
mcp_connection_secret_key id = codes "_mcp_connection_" ++ id ++ codes "_token"

abbrev mcp_read_only_tool_hints : List Text
mcp_read_only_tool_hints =
    codes "search"
    ∷ codes "list"
    ∷ codes "get"
    ∷ codes "read"
    ∷ codes "fetch"
    ∷ codes "lookup"
    ∷ codes "find"
    ∷ codes "query"
    ∷ codes "describe"
    ∷ codes "show"
    ∷ codes "view"
    ∷ []

unfoldable pub mcp_tool_looks_mutating : (ℕ → ℕ) → Text → Bool
unfolding to_lower trim_space contains is_empty some_of
mcp_tool_looks_mutating lower_rune name =
    let lower = to_lower lower_rune (trim_space name) in
    is_empty lower || not (some_of (λ hint. contains lower hint) mcp_read_only_tool_hints)
