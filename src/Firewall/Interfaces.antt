-- ===== src/Firewall/Interfaces.antt =====
-- internal/infrastructure/agentfw/net.go: the local interfaces, and the addresses that a service
-- must listen on. What the operating system enumerates is the argument `os`.
pub mod Binding
use agent_workspace.Prelude.{
  ℕ, ◌/◌, ◌%◌, ◌^◌, Bool, true, false, not, ◌&&◌, ◌||◌, Option, none, some, List, [], ◌∷◌, ◌++◌,
  map, Text, codes, text_eq, is_empty, elem, contains, decimal, text_lt, sort_stable, ltb, ◌==◌,
  if◌then◌else◌, Result, ok, err, ◌>>=◌,
}
use agent_workspace.Firewall.Rules.{
  FirewallRule, NetworkInterface, iface_all, iface_loopback, iface_tailscale, iface_lan,
  iface_public,
}
use agent_workspace.Firewall.Address.{IpAddr, v4, v6, classify_addr}
use agent_workspace.Firewall.Acl.{fold, bind_kinds}

-- the failure of `net.Interfaces` or of one interface's `Addrs`
pub data NetError : Type 0 where
  not_enumerated : NetError

-- the dynamic types of a `net.Addr`
pub data OsAddr : Type 0 where
  ip_net : Option IpAddr → OsAddr
  ip_addr : Option IpAddr → OsAddr
  other_addr : OsAddr

pub record OsInterface : Type 0 where
  pub name : Text
  pub up : Bool
  pub addrs : Result NetError (List OsAddr)

abbrev pub Os : Type 0
Os = Result NetError (List OsInterface)

unfoldable pub addr_ip : OsAddr → Option IpAddr
addr_ip (ip_net ip) = ip
addr_ip (ip_addr ip) = ip
addr_ip other_addr = none

-- IP.String of an IPv4 address
unfoldable pub v4_string : ℕ → Text
unfolding decimal
v4_string a =
    let byte = λ (i : ℕ). decimal (a / 2 ^ i % 256) in
    byte 24 ++ codes "." ++ byte 16 ++ codes "." ++ byte 8 ++ codes "." ++ byte 0

-- the inner loop of `ListInterfaces`: IPv4 only
unfoldable pub list_addrs : Text → List OsAddr → List NetworkInterface
unfolding addr_ip v4_string classify_addr
list_addrs name [] = []
list_addrs name (a ∷ rest) =
    let others = list_addrs name rest in
    elim (addr_ip a) [
      | none ↦ others
      | some (v6 n) ↦ others
      | some (v4 n) ↦ record { name = name; ip = v4_string n; kind = classify_addr (v4 n) } ∷ others
    ]

unfoldable pub list_ifaces : List OsInterface → List NetworkInterface
unfolding list_addrs
list_ifaces [] = []
list_ifaces (iface ∷ rest) =
    let others = list_ifaces rest in
    if not iface.up
    then others
    else elim iface.addrs [ err e ↦ others | ok addrs ↦ list_addrs iface.name addrs ++ others ]

unfoldable pub kind_order : Text → ℕ
unfolding text_eq
kind_order kind =
    if text_eq kind iface_loopback
    then 0
    else if text_eq kind iface_tailscale
    then 1
    else if text_eq kind iface_lan
    then 2
    else if text_eq kind iface_public
    then 3
    else 4

unfoldable pub interface_less : NetworkInterface → NetworkInterface → Bool
unfolding kind_order text_lt
interface_less a b =
    let oi = kind_order a.kind in
    let oj = kind_order b.kind in if not (oi == oj) then ltb oi oj else text_lt a.ip b.ip

unfoldable pub list_interfaces : Os → Result NetError (List NetworkInterface)
unfolding list_ifaces interface_less sort_stable
list_interfaces os = do ifaces ← os; ok (sort_stable interface_less (list_ifaces ifaces))

-- `add`; the keys of `seen` are `out`
unfoldable pub add_ip : List Text → Text → List Text
unfolding is_empty elem
add_ip out ip = if not (is_empty ip) && not (elem ip out) then out ++ ip ∷ [] else out

unfoldable pub add_wanted : List Text → List NetworkInterface → List Text → List Text
unfolding add_ip
add_wanted want [] out = out
add_wanted want (iface ∷ rest) out =
    add_wanted want rest (if elem iface.kind want then add_ip out iface.ip else out)

abbrev pub loopback_ip : Text
loopback_ip = codes "127.0.0.1"

abbrev pub every_ip : Text
every_ip = codes "0.0.0.0"

-- the part of `ResolveBindIPs` behind the early return for no kinds
unfoldable pub resolve_want : Os → List Text → Result NetError (List Text)
unfolding add_wanted elem list_interfaces
resolve_want os want =
    let out = if elem iface_loopback want then add_ip [] loopback_ip else [] in
    if elem iface_all want
    then ok (every_ip ∷ [])
    else if elem iface_tailscale want || elem iface_lan want || elem iface_public want
    then (do ifaces ← list_interfaces os; ok (add_wanted want ifaces out))
    else ok out

-- net.JoinHostPort
unfoldable pub join_host_port : Text → Text → Text
unfolding contains
join_host_port host port =
    if contains host (codes ":") || contains host (codes "%")
    then codes "[" ++ host ++ codes "]:" ++ port
    else host ++ codes ":" ++ port

module _ (lower_rune : ℕ → ℕ) (os : Os) where
  unfoldable pub resolve_bind_ips : List Text → Result NetError (List Text)
  unfolding resolve_want fold
  resolve_bind_ips [] = ok []
  resolve_bind_ips (k ∷ ks) = resolve_want os (map (fold lower_rune) (k ∷ ks))

  unfoldable pub bind_addrs : List FirewallRule → Text → ℕ → Result NetError (List Text)
  unfolding resolve_bind_ips bind_kinds join_host_port decimal
  bind_addrs rules service port = do
    ips ← resolve_bind_ips (bind_kinds lower_rune rules service)
    ok (map (λ ip. join_host_port ip (decimal port)) ips)
