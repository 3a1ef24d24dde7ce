-- ===== src/Firewall/Interfaces/Binding.antt =====
-- What a service listens on: nothing without a PERMIT rule, and otherwise only what the rules name.
use agent_workspace.Prelude.{
  ℕ, Bool, true, false, not, ◌&&◌, ◌||◌, ◌≡◌, refl, List, [], ◌∷◌, map, Text, arith, text_eq,
  text_eq_iff, is_empty, elem, elem-append, some_of, distinct, distinct-append_one, IsSorted,
  sort_stable-IsSorted, text_lt_asym, Result, ok, err, ok-injective, ◌>>=◌, Bool-cases,
  if◌then◌else◌, inl, inr, subst, sym, Result-cases, decimal,
}
use agent_workspace.Firewall.Rules.{
  FirewallRule, NetworkInterface, action_permit, service_all, iface_all, iface_loopback,
  iface_tailscale, iface_lan, iface_public,
}
use agent_workspace.Firewall.Acl.{selector_matches, bind_loop}
use agent_workspace.Firewall.Interfaces.{
  Os, NetError, interface_less, list_ifaces, list_interfaces, add_ip, add_wanted, loopback_ip,
  every_ip, join_host_port, resolve_want, resolve_bind_ips, bind_addrs,
}

interface_less_asym :
    (a b : NetworkInterface) → interface_less a b ≡ true → interface_less b a ≡ false
unfolding interface_less
interface_less_asym a b h = ground (arith, text_lt_asym a.ip b.ip)

-- The interfaces are listed by kind in the order loopback, tailscale, lan, public, and within a kind
-- by address: no entry is less than the one in front of it.
pub list_interfaces-IsSorted :
    (os : Os) (ifaces : List NetworkInterface)
    → list_interfaces os ≡ ok ifaces
    → IsSorted interface_less ifaces
unfolding list_interfaces
list_interfaces-IsSorted (ok found) ifaces h =
    subst (IsSorted interface_less) (ok-injective h)
      (sort_stable-IsSorted interface_less interface_less_asym (list_ifaces found))
list_interfaces-IsSorted (err e) ifaces h = cc

-- an interface of a wanted kind with that address
pub wanted : List Text → Text → NetworkInterface → Bool
wanted want ip i = elem i.kind want && (text_eq ip i.ip && not (is_empty ip))

add_ip-elem :
    (out : List Text) (new ip : Text)
    → elem ip (add_ip out new) ≡ (elem ip out || (text_eq ip new && not (is_empty ip)))
unfolding add_ip some_of
add_ip-elem out new ip =
    ground (arith, elem-append ip out (new ∷ []), elem-one ip new, text_eq_iff ip new)
  where
    elem-one : (t u : Text) → elem t (u ∷ []) ≡ text_eq t u
    elem-one t u = unfold elem some_of in ground arith

add_wanted-elem :
    (want : List Text) (ifaces : List NetworkInterface) (out : List Text) (ip : Text)
    → elem ip (add_wanted want ifaces out) ≡ (elem ip out || some_of (wanted want ip) ifaces)
unfolding add_wanted some_of wanted
add_wanted-elem want [] out ip = ground arith
add_wanted-elem want (i ∷ ifaces) out ip = elim (Bool-cases (elem i.kind want)) [
  | inl e ↦
      rw (e, add_wanted-elem want ifaces (add_ip out i.ip) ip, add_ip-elem out i.ip ip)
        (ground arith)
  | inr n ↦ rw (n, add_wanted-elem want ifaces out ip)
]

add_ip-distinct :
    (out : List Text) (ip : Text) → distinct out ≡ true → distinct (add_ip out ip) ≡ true
unfolding add_ip
add_ip-distinct out ip d = ground (arith, distinct-append_one out ip)

add_wanted-distinct :
    (want : List Text) (ifaces : List NetworkInterface) (out : List Text)
    → distinct out ≡ true
    → distinct (add_wanted want ifaces out) ≡ true
unfolding add_wanted
add_wanted-distinct want [] out d = d
add_wanted-distinct want (i ∷ ifaces) out d = elim (Bool-cases (elem i.kind want)) [
  | inl e ↦ rw e (add_wanted-distinct want ifaces (add_ip out i.ip) (add_ip-distinct out i.ip d))
  | inr n ↦ rw n (add_wanted-distinct want ifaces out d)
]

abbrev pub asks_os : List Text → Bool
asks_os want = elem iface_tailscale want || elem iface_lan want || elem iface_public want

-- what is collected before the interfaces are listed
start : List Text → List Text
start want = if elem iface_loopback want then add_ip [] loopback_ip else []

resolve_want_lem :
    (os : Os) (want : List Text)
    → resolve_want os want ≡ (
        if elem iface_all want
        then ok (every_ip ∷ [])
        else if asks_os want
        then list_interfaces os >>= (λ ifaces. ok (add_wanted want ifaces (start want)))
        else ok (start want))
unfolding resolve_want start
resolve_want_lem os want = refl

start-elem :
    (want : List Text) (ip : Text)
    → elem ip (start want) ≡ (elem iface_loopback want && text_eq ip loopback_ip)
unfolding start
start-elem want ip = elim (Bool-cases (elem iface_loopback want)) [
  | inl e ↦ rw (e, add_ip-elem [] loopback_ip ip) (unfold is_empty elem some_of in ground arith)
  | inr n ↦ rw n (unfold elem some_of in refl)
]

start-distinct : (want : List Text) → distinct (start want) ≡ true
unfolding start
start-distinct want = elim (Bool-cases (elem iface_loopback want)) [
  | inl e ↦ rw e (unfold add_ip distinct in refl)
  | inr n ↦ rw n (unfold distinct in refl)
]

-- When the wildcard is not wanted, the addresses to bind are exactly 127.0.0.1 if loopback is wanted
-- and, if tailscale, lan or public is wanted, the addresses of the listed interfaces of wanted kinds.
pub resolve_want-elem :
    (os : Os) (want ips : List Text) (ifaces : List NetworkInterface) (ip : Text)
    → elem iface_all want ≡ false
    → list_interfaces os ≡ ok ifaces
    → resolve_want os want ≡ ok ips
    → elem ip ips ≡ (
        elem iface_loopback want && text_eq ip loopback_ip
        || asks_os want && some_of (wanted want ip) ifaces)
resolve_want-elem os want ips ifaces ip no_all listed h = ground (
  arith,
  resolve_want_lem os want,
  add_wanted-elem want ifaces (start want) ip,
  start-elem want ip,
)

every_ip-distinct : distinct (every_ip ∷ []) ≡ true
unfolding distinct
every_ip-distinct = refl

-- No address is bound twice.
pub resolve_want-distinct :
    (os : Os) (want ips : List Text) → resolve_want os want ≡ ok ips → distinct ips ≡ true
resolve_want-distinct os want ips h = elim (Result-cases (list_interfaces os)) [
  | inl (ifaces, listed) ↦ ground (
    arith,
    resolve_want_lem os want,
    start-distinct want,
    add_wanted-distinct want ifaces (start want),
    every_ip-distinct,
  )
  | inr (e, failed) ↦
      ground (arith, resolve_want_lem os want, start-distinct want, every_ip-distinct)
]

-- whether the rule is a PERMIT rule for the service
unfoldable pub permits : (ℕ → ℕ) → Text → FirewallRule → Bool
unfolding text_eq selector_matches
permits lower_rune service r =
    text_eq r.action action_permit && selector_matches lower_rune r.service service service_all

module _ (lower_rune : ℕ → ℕ) (os : Os) where
  unpermitted :
      (rules : List FirewallRule) (service : Text) (out : List Text)
      → some_of (permits lower_rune service) rules ≡ false
      → bind_loop lower_rune rules service out ≡ out
  unfolding bind_loop some_of permits
  unpermitted [] service out h = refl
  unpermitted (r ∷ rules) service out h = ground (arith, unpermitted rules service out)

  -- A service that no PERMIT rule names binds no address at all, whatever the interfaces are, so
  -- its listener is not started.
  pub bind_addrs_closed :
      (rules : List FirewallRule) (service : Text) (port : ℕ)
      → some_of (permits lower_rune service) rules ≡ false
      → bind_addrs lower_rune os rules service port ≡ ok []
  unfolding bind_addrs
  bind_addrs_closed rules service port h =
      subst (λ ks. (resolve_bind_ips lower_rune os ks >>= listen) ≡ ok [])
        (sym (unpermitted rules service [] h)) refl
    where
      listen : List Text → Result NetError (List Text)
      listen ips = ok (map (λ ip. join_host_port ip (decimal port)) ips)
