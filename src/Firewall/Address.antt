-- ===== src/Firewall/Address.antt =====
-- Go's `net.IP` and `net.IPNet` as the firewall uses them, and `ClassifyIP` of
-- internal/infrastructure/agentfw/firewall.go. An address is the number that its bytes spell, in the
-- form that `To4` gives. The parsers of Go's `net` package are the parameter `Net`.
use agent_workspace.Prelude.{
  ℕ, ◌-◌, ◌+◌, ◌*◌, ◌/◌, ◌^◌, Bool, false, ◌||◌, Option, none, some, [], Text, ◌==◌, if◌then◌else◌,
  trim_space,
}
use agent_workspace.Firewall.Rules.{iface_loopback, iface_tailscale, iface_lan, iface_public}

pub data IpAddr : Type 0 where
  v4 : ℕ → IpAddr
  v6 : ℕ → IpAddr

-- a network: its base address and the number of leading bits that are fixed
pub record IpNet : Type 0 where
  pub base : IpAddr
  pub bits : ℕ

-- net.ParseIP and net.ParseCIDR
pub record Net : Type 0 where
  pub parse_ip : Text → Option IpAddr
  pub parse_cidr : Text → Option IpNet

-- the leading `bits` of a number of `width` bits
abbrev pub leading : ℕ → ℕ → ℕ → ℕ
leading width bits a = a / 2 ^ (width - bits)

abbrev same_network : ℕ → IpAddr → IpAddr → Bool
same_network bits (v4 b) (v4 a) = leading 32 bits b == leading 32 bits a
same_network bits (v6 b) (v6 a) = leading 128 bits b == leading 128 bits a
same_network bits _ _ = false

-- IPNet.Contains: never across the two address families
unfoldable pub net_contains : IpNet → IpAddr → Bool
net_contains n ip = same_network n.bits n.base ip

-- IP.Equal
unfoldable pub ip_equal : IpAddr → IpAddr → Bool
ip_equal (v4 a) (v4 b) = a == b
ip_equal (v6 a) (v6 b) = a == b
ip_equal _ _ = false

-- 100.64.0.0/10
abbrev pub tailscale_cgnat : IpNet
tailscale_cgnat = record { base = v4 (100 * 2 ^ 24 + 64 * 2 ^ 16); bits = 10 }

-- 127.0.0.0/8 and ::1
unfoldable pub is_loopback : IpAddr → Bool
is_loopback (v4 a) = a / 2 ^ 24 == 127
is_loopback (v6 a) = a == 1

-- 10.0.0.0/8, 172.16.0.0/12, 192.168.0.0/16 and fc00::/7
unfoldable pub is_private : IpAddr → Bool
is_private (v4 a) = a / 2 ^ 24 == 10 || a / 2 ^ 20 == 172 * 16 + 1 || a / 2 ^ 16 == 192 * 256 + 168
is_private (v6 a) = a / 2 ^ 121 == 0x7e

-- 169.254.0.0/16 and fe80::/10
unfoldable pub is_link_local_unicast : IpAddr → Bool
is_link_local_unicast (v4 a) = a / 2 ^ 16 == 169 * 256 + 254
is_link_local_unicast (v6 a) = a / 2 ^ 118 == 0x3fa

unfoldable pub classify_addr : IpAddr → Text
unfolding net_contains is_loopback is_private is_link_local_unicast
classify_addr ip =
    if is_loopback ip
    then iface_loopback
    else if net_contains tailscale_cgnat ip
    then iface_tailscale
    else if is_private ip || is_link_local_unicast ip
    then iface_lan
    else iface_public

-- `none` is the nil IP
unfoldable pub classify_ip : Option IpAddr → Text
unfolding classify_addr
classify_ip none = []
classify_ip (some ip) = classify_addr ip

unfoldable pub classify_host : Net → Text → Text
unfolding classify_ip trim_space
classify_host net host = classify_ip (net.parse_ip (trim_space host))
