-- ===== src/Firewall/Rules.antt =====
-- internal/domain/firewall.go: rules and the words that they are written in.
use agent_workspace.Prelude.{Bool, ◌||◌, List, Text, codes, text_eq}

abbrev pub action_permit : Text
action_permit = codes "PERMIT"

abbrev pub action_deny : Text
action_deny = codes "DENY"

abbrev pub service_all : Text
service_all = codes "all"

abbrev pub service_mcp : Text
service_mcp = codes "mcp"

abbrev pub service_rest : Text
service_rest = codes "rest"

abbrev pub service_web : Text
service_web = codes "web"

abbrev pub iface_all : Text
iface_all = codes "all"

abbrev pub iface_loopback : Text
iface_loopback = codes "loopback"

abbrev pub iface_tailscale : Text
iface_tailscale = codes "tailscale"

abbrev pub iface_lan : Text
iface_lan = codes "lan"

abbrev pub iface_public : Text
iface_public = codes "public"

abbrev pub origin_any : Text
origin_any = codes "any"

pub record FirewallRule : Type 0 where
  pub action : Text
  pub service : Text
  pub interface : Text
  pub origin : Text

pub record NetworkInterface : Type 0 where
  pub name : Text
  pub ip : Text
  pub kind : Text

pub record FirewallConfig : Type 0 where
  pub rules : List FirewallRule

unfoldable pub valid_firewall_action : Text → Bool
unfolding text_eq
valid_firewall_action s = text_eq s action_permit || text_eq s action_deny

unfoldable pub valid_firewall_service : Text → Bool
unfolding text_eq
valid_firewall_service s =
    text_eq s service_all
    || text_eq s service_mcp
    || text_eq s service_rest
    || text_eq s service_web

unfoldable pub valid_firewall_interface : Text → Bool
unfolding text_eq
valid_firewall_interface s =
    text_eq s iface_all
    || text_eq s iface_loopback
    || text_eq s iface_tailscale
    || text_eq s iface_lan
    || text_eq s iface_public
