-- ===== src/Firewall/Tests.antt =====
-- Runs of the firewall on a small network, and instances of its theorems there.
use agent_workspace.Prelude.{
  ℕ, ◌+◌, ◌*◌, ◌^◌, true, false, ◌||◌, ◌≡◌, refl, ◌↔◌, ◌⊎◌, none, some, List, [], ◌∷◌, Text, codes,
  text_eq, elem, trim_space, some_of, All, ok, err, if◌then◌else◌,
}
use agent_workspace.Firewall.Rules.{
  FirewallRule, FirewallConfig, NetworkInterface, action_permit, service_mcp, service_web,
  iface_all, iface_loopback, iface_tailscale,
}
use agent_workspace.Firewall.Address.{v4, Net, classify_addr}
use agent_workspace.Firewall.Acl.{decide, bind_kinds, peer_filter}
use agent_workspace.Firewall.Acl.FirstMatch.{FirstMatch, applies, decide-FirstMatch}
use agent_workspace.Firewall.Acl.Bind.{peer_filter_bound}
use agent_workspace.Firewall.Interfaces.{
  Os, ip_net, loopback_ip, list_interfaces, resolve_want, bind_addrs,
}
use agent_workspace.Firewall.Interfaces.Binding.{permits, bind_addrs_closed}
use agent_workspace.Firewall.Saving.{
  FirewallError, invalid_action, FirewallSettingsStore, WellFormed, validate_firewall_rules,
  save_firewall_rules, validate_firewall_rules-WellFormed, save_firewall_rules_guarded,
}

abbrev ascii : ℕ → ℕ
ascii c = c

-- 100.100.1.2, an address of the tailnet
abbrev tail_peer : ℕ
tail_peer = 100 * 2 ^ 24 + 100 * 2 ^ 16 + 258

-- a network stack that knows three addresses and one network
abbrev small_net : Net
small_net = record {
  parse_ip = λ t.
      if text_eq t loopback_ip
      then some (v4 (127 * 2 ^ 24 + 1))
      else if text_eq t (codes "100.100.1.2")
      then some (v4 tail_peer)
      else none;
  parse_cidr = λ t.
      if text_eq t (codes "100.64.0.0/10")
      then some (record { base = v4 (100 * 2 ^ 24 + 64 * 2 ^ 16); bits = 10 })
      else none;
}

abbrev deny_loopback : FirewallRule
deny_loopback = record {
  action = codes "DENY";
  service = codes "mcp";
  interface = codes "loopback";
  origin = codes "127.0.0.1";
}

abbrev permit_tailnet : FirewallRule
permit_tailnet = record {
  action = action_permit;
  service = codes "mcp";
  interface = codes "tailscale";
  origin = codes "100.64.0.0/10";
}

abbrev malformed : FirewallRule
malformed = record {
  action = codes "permit";
  service = codes "all";
  interface = codes "all";
  origin = codes "any";
}

abbrev two_rules : List FirewallRule
two_rules = deny_loopback ∷ permit_tailnet ∷ []

-- The tailnet may call the service on the tailnet's interface only.
decide_run :
    (decide ascii small_net two_rules service_mcp iface_tailscale (codes "100.100.1.2") ≡ true)
    × (decide ascii small_net two_rules service_mcp iface_loopback (codes "127.0.0.1") ≡ false)
    × (decide ascii small_net two_rules service_web iface_tailscale (codes "100.100.1.2") ≡ false)
unfolding decide
decide_run = (refl, refl, refl)

decide-FirstMatch_example :
    (decide ascii small_net two_rules service_mcp iface_tailscale (codes "100.100.1.2") ≡ true) ↔ (
      (r : FirewallRule) × FirstMatch
        (applies ascii small_net service_mcp iface_tailscale (codes "100.100.1.2"))
        two_rules
        r
      × (text_eq r.action action_permit ≡ true))
decide-FirstMatch_example =
    decide-FirstMatch ascii small_net service_mcp iface_tailscale (codes "100.100.1.2") two_rules

peer_filter_bound_example :
    (elem (classify_addr (v4 tail_peer)) (bind_kinds ascii two_rules service_mcp)
      || elem iface_all (bind_kinds ascii two_rules service_mcp))
    ≡ true
unfolding peer_filter trim_space
peer_filter_bound_example =
    peer_filter_bound ascii small_net two_rules service_mcp (codes "100.100.1.2")
      (codes "100.100.1.2") (v4 tail_peer) refl refl

-- a host with one interface that is up and one that is down
abbrev small_host : Os
small_host = ok (
    record {
      name = codes "utun3";
      up = true;
      addrs = ok (ip_net (some (v4 tail_peer)) ∷ ip_net none ∷ []);
    }
    ∷ record { name = codes "en0"; up = false; addrs = ok (ip_net (some (v4 167772161)) ∷ []) }
    ∷ record { name = codes "lo0"; up = true; addrs = ok (ip_net (some (v4 2130706433)) ∷ []) }
    ∷ [])

abbrev small_host_interfaces : List NetworkInterface
small_host_interfaces =
    record { name = codes "lo0"; ip = loopback_ip; kind = iface_loopback }
    ∷ record { name = codes "utun3"; ip = codes "100.100.1.2"; kind = iface_tailscale }
    ∷ []

list_interfaces_run : list_interfaces small_host ≡ ok small_host_interfaces
unfolding list_interfaces
list_interfaces_run = refl

abbrev two_kinds : List Text
two_kinds = iface_tailscale ∷ iface_loopback ∷ []

abbrev two_ips : List Text
two_ips = loopback_ip ∷ codes "100.100.1.2" ∷ []

resolve_want_run : resolve_want small_host two_kinds ≡ ok two_ips
unfolding resolve_want
resolve_want_run = refl

bind_addrs_closed_example : bind_addrs ascii small_host two_rules service_web 8080 ≡ ok []
unfolding some_of permits
bind_addrs_closed_example = bind_addrs_closed ascii small_host two_rules service_web 8080 refl

abbrev rules_store : FirewallSettingsStore
rules_store = record {
  State = FirewallConfig;
  load_firewall_config = λ c. c;
  save_firewall_rules = λ rules c. (record { rules = rules }, ok tt);
}

validate_firewall_rules-WellFormed_example :
    (validate_firewall_rules ascii small_net two_rules ≡ ok tt)
    ↔ All (WellFormed ascii small_net) two_rules
validate_firewall_rules-WellFormed_example =
    validate_firewall_rules-WellFormed ascii small_net two_rules

-- An unknown action is refused with the number of its rule.
save_firewall_rules_run :
    save_firewall_rules ascii small_net rules_store
      (permit_tailnet ∷ malformed ∷ [])
      (record { rules = two_rules })
    ≡ (record { rules = two_rules }, err (invalid_action 2 (codes "permit")))
unfolding save_firewall_rules
save_firewall_rules_run = refl

save_firewall_rules_guarded_example :
    (All (WellFormed ascii small_net) two_rules
      × (save_firewall_rules ascii small_net rules_store two_rules (record { rules = [] })
          ≡ rules_store.save_firewall_rules two_rules (record { rules = [] })))
    ⊎ ((¬ (All (WellFormed ascii small_net) two_rules))
        × ((e : FirewallError) × (save_firewall_rules ascii small_net rules_store two_rules
                (record { rules = [] })
              ≡ (record { rules = [] }, err e))))
save_firewall_rules_guarded_example =
    save_firewall_rules_guarded ascii small_net rules_store two_rules (record { rules = [] })
