-- ===== src/Mcp/Inputs.antt =====
-- What `NormalizeMcpInput` of internal/domain/mcp_connection.go accepts.
use agent_workspace.Prelude.{
  ◌≡◌, ◌≤◌, ◌⊎◌, inl, inr, refl, sym, ap, ◌∙◌, subst, Bool-cases, or_rest, eq_of_text_eq, codes,
  is_empty, ◌||◌, true, false, Option, none, some, [], ◌∷◌, Text, arith, text_eq, trim_space,
  trim_space_idem, Result, ok,
}
use agent_workspace.Mcp.{
  McpConnectionInput, ParseUrl, byte_length, validate_mcp_name, check_parsed, validate_mcp_url,
  normalize_mcp_input, is_valid_mcp_transport, is_valid_mcp_auth_type, or_default, mcp_auth_none,
  mcp_transport_streamable_http,
}

same_ok : {a b : Text} → ◌≡◌ {A = Result Text Text} (ok a) (ok b) → a ≡ b
same_ok h = cc

validate_mcp_name-ok :
    (raw name : Text)
    → validate_mcp_name raw ≡ ok name
    → (name ≡ trim_space raw) × (validate_mcp_name name ≡ ok name)
unfolding validate_mcp_name
validate_mcp_name-ok raw name accepted = ground (arith, trim_space_idem raw)

check_parsed-ok :
    (raw url : Text) (parsed : Option (Text × Text)) → check_parsed raw parsed ≡ ok url → url ≡ raw
unfolding check_parsed
check_parsed-ok raw url none accepted = cc
check_parsed-ok raw url (some (scheme, host)) accepted = ground arith

validate_mcp_url-ok :
    (parse : ParseUrl) (raw url : Text)
    → validate_mcp_url parse raw ≡ ok url
    → validate_mcp_url parse url ≡ ok url
unfolding validate_mcp_url
validate_mcp_url-ok parse raw url accepted =
    ground
      (arith, trim_space_idem raw, check_parsed-ok (trim_space raw) url (parse (trim_space raw)))

valid_transport :
    (t : Text) → is_valid_mcp_transport t ≡ true → or_default mcp_transport_streamable_http t ≡ t
unfolding is_valid_mcp_transport text_eq
valid_transport [] h = cc
valid_transport (c ∷ t) h = refl

valid_auth : (t : Text) → is_valid_mcp_auth_type t ≡ true → or_default mcp_auth_none t ≡ t
unfolding is_valid_mcp_auth_type text_eq
valid_auth [] h = cc
valid_auth (c ∷ t) h = refl

normalized_parts :
    (parse : ParseUrl) (input out : McpConnectionInput)
    → normalize_mcp_input parse input ≡ ok out
    → (validate_mcp_name input.name ≡ ok out.name)
      × (is_valid_mcp_transport out.transport ≡ true)
      × (is_valid_mcp_auth_type out.auth_type ≡ true)
      × (validate_mcp_url parse input.url ≡ ok out.url)
      × (out.enabled ≡ input.enabled)
unfolding normalize_mcp_input
normalized_parts parse input out accepted = ground arith

normalize_mcp_input_lem :
    (parse : ParseUrl) (input : McpConnectionInput) (name url : Text)
    → validate_mcp_name input.name ≡ ok name
    → is_valid_mcp_transport (or_default mcp_transport_streamable_http input.transport) ≡ true
    → is_valid_mcp_auth_type (or_default mcp_auth_none input.auth_type) ≡ true
    → validate_mcp_url parse input.url ≡ ok url
    → normalize_mcp_input parse input
      ≡ ok (record {
        name = name;
        enabled = input.enabled;
        transport = or_default mcp_transport_streamable_http input.transport;
        url = url;
        auth_type = or_default mcp_auth_none input.auth_type;
      })
unfolding normalize_mcp_input
normalize_mcp_input_lem parse input name url named transported authorized located = ground arith

name_parts :
    (raw name : Text)
    → validate_mcp_name raw ≡ ok name
    → (is_empty name ≡ false) × (byte_length name ≤ 80)
unfolding validate_mcp_name
name_parts raw name accepted = ground arith

is_valid_mcp_transport_lem :
    (t : Text) → text_eq t (codes "streamable_http") ≡ is_valid_mcp_transport t
is_valid_mcp_transport_lem t = unfold is_valid_mcp_transport in refl

is_valid_mcp_auth_type_lem :
    (t : Text) → (text_eq t (codes "none") || text_eq t (codes "bearer")) ≡ is_valid_mcp_auth_type t
is_valid_mcp_auth_type_lem t = unfold is_valid_mcp_auth_type in refl

-- what is left of a URL that parses
abbrev pub IsReachableUrl : ParseUrl → Text → Type 0
IsReachableUrl parse url =
    (scheme : Text) × (host : Text) × (parse url ≡ some (scheme, host))
    × ((scheme ≡ codes "http") ⊎ (scheme ≡ codes "https"))
    × (is_empty host ≡ false)

parsed_parts :
    (raw url : Text) (parsed : Option (Text × Text))
    → check_parsed raw parsed ≡ ok url
    → (scheme : Text) × (host : Text) × (parsed ≡ some (scheme, host))
      × ((text_eq scheme (codes "http") || text_eq scheme (codes "https")) ≡ true)
      × (is_empty host ≡ false)
unfolding check_parsed
parsed_parts raw url none accepted = absurd (cc accepted)
parsed_parts raw url (some (scheme, host)) accepted =
    (scheme, host, refl, ground arith, ground arith)

one_of : (t a b : Text) → (text_eq t a || text_eq t b) ≡ true → (t ≡ a) ⊎ (t ≡ b)
one_of t a b h = elim (Bool-cases (text_eq t a)) [
  | inl same ↦ inl (eq_of_text_eq t a same)
  | inr other ↦ inr (eq_of_text_eq t b (or_rest _ _ other h))
]

url_parts :
    (parse : ParseUrl) (raw url : Text)
    → validate_mcp_url parse raw ≡ ok url
    → (is_empty (trim_space raw) ≡ false)
      × (byte_length (trim_space raw) ≤ 2048)
      × (check_parsed (trim_space raw) (parse (trim_space raw)) ≡ ok url)
unfolding validate_mcp_url
url_parts parse raw url accepted = ground arith

-- what a stored connection looks like
pub record IsNormal (parse : ParseUrl) (raw out : McpConnectionInput) : Type 0 where
  pub name_trimmed : out.name ≡ trim_space raw.name
  pub name_full : is_empty out.name ≡ false
  pub name_short : byte_length out.name ≤ 80
  pub transport_known : out.transport ≡ codes "streamable_http"
  pub auth_type_known : (out.auth_type ≡ codes "none") ⊎ (out.auth_type ≡ codes "bearer")
  pub url_trimmed : out.url ≡ trim_space raw.url
  pub url_full : is_empty out.url ≡ false
  pub url_short : byte_length out.url ≤ 2048
  pub url_reachable : IsReachableUrl parse out.url
  pub enabled_kept : out.enabled ≡ raw.enabled

normalize_mcp_input_idem :
    (parse : ParseUrl) (input out : McpConnectionInput)
    → normalize_mcp_input parse input ≡ ok out
    → normalize_mcp_input parse out ≡ ok out
normalize_mcp_input_idem parse input out accepted =
    let parts = normalized_parts parse input out accepted in
    let name = validate_mcp_name-ok input.name out.name parts.0 in
    let transport = valid_transport out.transport parts.1 in
    let auth_type = valid_auth out.auth_type parts.2 in
    normalize_mcp_input_lem parse out out.name out.url name.1
      (ap is_valid_mcp_transport transport ∙ parts.1)
      (ap is_valid_mcp_auth_type auth_type ∙ parts.2)
      (validate_mcp_url-ok parse input.url out.url parts.3)
    ∙ rw (transport, auth_type)

-- Of an input that is accepted, what is kept has the trimmed name, not empty and of at most 80 bytes; the one
-- transport; the type of authentication none or bearer; the trimmed URL, not empty, of at most 2048 bytes,
-- and parsed with the scheme http or https and a host; and the input's enabled flag. And normalizing it
-- again changes nothing.
pub normalize_mcp_input-IsNormal :
    (parse : ParseUrl) (input out : McpConnectionInput)
    → normalize_mcp_input parse input ≡ ok out
    → IsNormal parse input out × (normalize_mcp_input parse out ≡ ok out)
normalize_mcp_input-IsNormal parse input out accepted =
    let parts = normalized_parts parse input out accepted in
    let name = validate_mcp_name-ok input.name out.name parts.0 in
    let full = name_parts input.name out.name parts.0 in
    let url = url_parts parse input.url out.url parts.3 in
    let same = check_parsed-ok (trim_space input.url) out.url _ url.2 in
    let parsed = parsed_parts (trim_space input.url) out.url _ url.2 in
    (
      record {
        name_trimmed = name.0;
        name_full = full.0;
        name_short = full.1;
        transport_known =
            eq_of_text_eq out.transport (codes "streamable_http")
              (is_valid_mcp_transport_lem out.transport ∙ parts.1);
        auth_type_known =
            one_of out.auth_type (codes "none") (codes "bearer")
              (is_valid_mcp_auth_type_lem out.auth_type ∙ parts.2);
        url_trimmed = same;
        url_full = ap is_empty same ∙ url.0;
        url_short = subst (λ t. byte_length t ≤ 2048) (sym same) url.1;
        url_reachable = (
          parsed.0,
          parsed.1,
          ap parse same ∙ parsed.2,
          one_of parsed.0 (codes "http") (codes "https") parsed.3,
          parsed.4,
        );
        enabled_kept = parts.4;
      },
      normalize_mcp_input_idem parse input out accepted,
    )
