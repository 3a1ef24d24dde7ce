-- ===== src/Firewall/Acl.antt =====
-- The access-control list: `Decide`, `ruleMatches`, `selectorMatches`, `MatchOrigin`, `BindKinds` of
-- internal/infrastructure/agentfw/firewall.go and `PeerFilter` of net.go.
pub mod FirstMatch
pub mod Bind
use agent_workspace.Prelude.{
  ℕ, Bool, true, false, not, ◌&&◌, ◌||◌, Option, none, some, List, [], ◌∷◌, ◌++◌, Text, codes,
  text_eq, trim_space, to_lower, contains, elem, if◌then◌else◌,
}
use agent_workspace.Firewall.Rules.{
  FirewallRule, action_permit, service_all, iface_all, origin_any, valid_firewall_action,
  valid_firewall_interface,
}
use agent_workspace.Firewall.Address.{IpAddr, Net, net_contains, ip_equal, classify_host}

-- the words that stand for every source
unfoldable pub is_any_form : Text → Bool
unfolding text_eq
is_any_form o =
    text_eq o []
    || text_eq o origin_any
    || text_eq o (codes "0.0.0.0/0")
    || text_eq o (codes "::/0")

module _ (lower_rune : ℕ → ℕ) where
  -- strings.ToLower(strings.TrimSpace(s))
  unfoldable pub fold : Text → Text
  unfolding to_lower trim_space
  fold s = to_lower lower_rune (trim_space s)

  unfoldable pub selector_matches : Text → Text → Text → Bool
  unfolding fold text_eq
  selector_matches selector value wildcard =
      text_eq (fold selector) wildcard || text_eq (fold selector) (fold value)

  unfoldable pub match_host : Net → Text → IpAddr → Bool
  unfolding contains net_contains ip_equal
  match_host net origin ip =
      if contains origin (codes "/")
      then elim (net.parse_cidr origin) [ none ↦ false | some network ↦ net_contains network ip ]
      else elim (net.parse_ip origin) [ none ↦ false | some host ↦ ip_equal host ip ]

  unfoldable pub match_origin : Net → Text → Text → Bool
  unfolding fold is_any_form match_host
  match_origin net origin src_ip =
      if is_any_form (fold origin) then true else elim (net.parse_ip (trim_space src_ip)) [
        | none ↦ false
        | some ip ↦ match_host net (fold origin) ip
      ]

  unfoldable pub rule_matches : Net → FirewallRule → Text → Text → Text → Bool
  unfolding valid_firewall_action selector_matches match_origin
  rule_matches net rule service iface src_ip =
      if not (valid_firewall_action rule.action)
      then false
      else if not (selector_matches rule.service service service_all)
      then false
      else if not (selector_matches rule.interface iface iface_all)
      then false
      else match_origin net rule.origin src_ip

  unfoldable pub decide : Net → List FirewallRule → Text → Text → Text → Bool
  unfolding rule_matches
  decide net [] service iface src_ip = false
  decide net (rule ∷ rules) service iface src_ip =
      let rest = decide net rules service iface src_ip in
      if rule_matches net rule service iface src_ip then text_eq rule.action action_permit else rest

  -- `out` and the keys of `seen` are the same list
  unfoldable pub bind_loop : List FirewallRule → Text → List Text → List Text
  unfolding selector_matches valid_firewall_interface elem
  bind_loop [] service out = out
  bind_loop (rule ∷ rules) service out =
      let kind = fold rule.interface in
      let skip = bind_loop rules service out in
      let more = bind_loop rules service (out ++ kind ∷ []) in
      if not (text_eq rule.action action_permit)
      then skip
      else if not (selector_matches rule.service service service_all)
      then skip
      else if not (valid_firewall_interface kind) || elem kind out
      then skip
      else more

  unfoldable pub bind_kinds : List FirewallRule → Text → List Text
  unfolding bind_loop
  bind_kinds rules service = bind_loop rules service []

  -- the closure that each server's guard calls; `rules` is copied when it is made
  unfoldable pub peer_filter : Net → List FirewallRule → Text → Text → Text → Bool
  unfolding decide classify_host
  peer_filter net rules service local_ip remote_ip =
      decide net rules service (classify_host net local_ip) remote_ip
