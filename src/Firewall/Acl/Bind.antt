-- ===== src/Firewall/Acl/Bind.antt =====
-- Which interface kinds a service listens on (`BindKinds`), and that this agrees with `Decide`.
use agent_workspace.Prelude.{
  ℕ, Bool, true, ◌&&◌, ◌||◌, ◌≡◌, refl, inl, inr, some, List, [], ◌∷◌, ◌++◌, Text, arith, text_eq,
  text_eq_iff, elem, elem-append, some_of, trim_space, distinct, distinct-append_one, Bool-cases,
}
use agent_workspace.Firewall.Rules.{
  FirewallRule, action_permit, service_all, iface_all, valid_firewall_interface,
}
use agent_workspace.Firewall.Address.{IpAddr, Net, classify_host, classify_ip, classify_addr}
use agent_workspace.Firewall.Acl.{
  fold, selector_matches, rule_matches, decide, bind_loop, bind_kinds, peer_filter,
}

or_left : (a b c d : Bool) → (a || b) ≡ true → ((a || c) || (b || d)) ≡ true
or_left a b c d h = ground arith

or_right : (a b c d : Bool) → (c || d) ≡ true → ((a || c) || (b || d)) ≡ true
or_right a b c d h = ground arith

module _ (lower_rune : ℕ → ℕ) where
  -- a PERMIT rule for the service on interface `kind`
  pub opens : Text → Text → FirewallRule → Bool
  opens service kind r =
      text_eq r.action action_permit
      && selector_matches lower_rune r.service service service_all
      && text_eq kind (fold lower_rune r.interface)

  bind_loop-elem :
      (rules : List FirewallRule) (service : Text) (out : List Text) (kind : Text)
      → elem kind (bind_loop lower_rune rules service out)
        ≡ (elem kind out || valid_firewall_interface kind && some_of (opens service kind) rules)
  unfolding bind_loop some_of opens
  bind_loop-elem [] service out kind = ground arith
  bind_loop-elem (r ∷ rules) service out kind =
      let k = fold lower_rune r.interface in
      ground (
        arith,
        bind_loop-elem rules service out kind,
        bind_loop-elem rules service (out ++ k ∷ []) kind,
        elem-append kind out (k ∷ []),
        text_eq_iff kind k,
      )

  -- A kind is bound exactly when it is one of the known interface selectors and some PERMIT rule for
  -- the service names it.
  pub bind_kinds-elem :
      (rules : List FirewallRule) (service kind : Text)
      → elem kind (bind_kinds lower_rune rules service)
        ≡ (valid_firewall_interface kind && some_of (opens service kind) rules)
  unfolding bind_kinds elem
  bind_kinds-elem rules service kind = bind_loop-elem rules service [] kind

  bind_loop-distinct :
      (rules : List FirewallRule) (service : Text) (out : List Text)
      → distinct out ≡ true
      → distinct (bind_loop lower_rune rules service out) ≡ true
  unfolding bind_loop
  bind_loop-distinct [] service out d = d
  bind_loop-distinct (r ∷ rules) service out d =
      let k = fold lower_rune r.interface in
      ground (
        arith,
        bind_loop-distinct rules service out,
        bind_loop-distinct rules service (out ++ k ∷ []),
        distinct-append_one out k,
      )

  -- No kind is bound twice.
  pub bind_kinds-distinct :
      (rules : List FirewallRule) (service : Text)
      → distinct (bind_kinds lower_rune rules service) ≡ true
  unfolding bind_kinds distinct
  bind_kinds-distinct rules service = bind_loop-distinct rules service [] refl

  module _ (net : Net) (service iface src_ip : Text) where
    opens_of_match :
        (r : FirewallRule)
        → rule_matches lower_rune net r service iface src_ip ≡ true
        → text_eq r.action action_permit ≡ true
        → (opens service (fold lower_rune iface) r || opens service iface_all r) ≡ true
    unfolding rule_matches selector_matches opens
    opens_of_match r m p = ground (
      arith,
      text_eq_iff (fold lower_rune r.interface) iface_all,
      text_eq_iff iface_all (fold lower_rune r.interface),
      text_eq_iff (fold lower_rune r.interface) (fold lower_rune iface),
      text_eq_iff (fold lower_rune iface) (fold lower_rune r.interface),
    )

    opens_of_decide :
        (rules : List FirewallRule)
        → decide lower_rune net rules service iface src_ip ≡ true
        → (some_of (opens service (fold lower_rune iface)) rules
            || some_of (opens service iface_all) rules)
          ≡ true
    unfolding decide some_of
    opens_of_decide [] h = cc
    opens_of_decide (r ∷ rules) h =
        elim (Bool-cases (rule_matches lower_rune net r service iface src_ip)) [
          | inl m ↦
              or_left _ (opens service iface_all r)
                (some_of (opens service (fold lower_rune iface)) rules)
                (some_of (opens service iface_all) rules) (opens_of_match r m (rw m at h))
          | inr n ↦
              or_right (opens service (fold lower_rune iface) r) (opens service iface_all r) _
                (some_of (opens service iface_all) rules) (opens_of_decide rules (rw n at h))
        ]

    bound_of_decide :
        (rules : List FirewallRule)
        → decide lower_rune net rules service iface src_ip ≡ true
        → valid_firewall_interface (fold lower_rune iface) ≡ true
        → (elem (fold lower_rune iface) (bind_kinds lower_rune rules service)
            || elem iface_all (bind_kinds lower_rune rules service))
          ≡ true
    unfolding valid_firewall_interface
    bound_of_decide rules h v =
        rw
          (
            bind_kinds-elem rules service (fold lower_rune iface),
            bind_kinds-elem rules service iface_all,
            v,
          )
          (opens_of_decide rules h)

  -- the words of `ClassifyIP` are known selectors, in the form that the rules are compared in
  classify_addr-valid :
      (ip : IpAddr)
      → (fold lower_rune (classify_addr ip) ≡ classify_addr ip)
        × (valid_firewall_interface (classify_addr ip) ≡ true)
  unfolding classify_addr fold valid_firewall_interface
  classify_addr-valid ip = ground arith

  -- If the filter lets a connection in and the local address that it arrived on parses, then the
  -- listeners of that service are bound on that address's interface kind or on all interfaces.
  pub peer_filter_bound :
      (net : Net) (rules : List FirewallRule) (service local_ip remote_ip : Text) (ip : IpAddr)
      → net.parse_ip (trim_space local_ip) ≡ some ip
      → peer_filter lower_rune net rules service local_ip remote_ip ≡ true
      → (elem (classify_addr ip) (bind_kinds lower_rune rules service)
          || elem iface_all (bind_kinds lower_rune rules service))
        ≡ true
  unfolding peer_filter classify_host classify_ip
  peer_filter_bound net rules service local_ip remote_ip ip parsed h =
      let (folds, valid) = classify_addr-valid ip in
      let iface : Text = classify_addr ip in
      let permitted : decide lower_rune net rules service iface remote_ip ≡ true =
        ground (arith, parsed, h) in
      rw folds at (bound_of_decide net service iface remote_ip rules permitted (rw folds valid))
