-- ===== src/Firewall/Acl/FirstMatch.antt =====
-- Top-down evaluation of `Decide`: the first matching rule decides, and no match is a denial.
use agent_workspace.Prelude.{
  ℕ, Bool, true, false, ◌≡◌, ◌∙◌, ◌↔◌, inl, inr, List, [], ◌∷◌, ◌++◌, Text, text_eq, Bool-cases,
}
use agent_workspace.Firewall.Rules.{FirewallRule, action_permit, valid_firewall_action}
use agent_workspace.Firewall.Address.{Net}
use agent_workspace.Firewall.Acl.{decide, rule_matches}

-- `rule` is the first of the rules that passes the test
pub data FirstMatch (test : FirewallRule → Bool) : List FirewallRule → FirewallRule → Type 0 where
  here : {r : FirewallRule} {rs : List FirewallRule} → test r ≡ true → FirstMatch test (r ∷ rs) r
  later :
      {r x : FirewallRule} {rs : List FirewallRule}
      → test r ≡ false
      → FirstMatch test rs x
      → FirstMatch test (r ∷ rs) x

module _ (lower_rune : ℕ → ℕ) (net : Net) (service iface src_ip : Text) where
  abbrev pub applies : FirewallRule → Bool
  applies r = rule_matches lower_rune net r service iface src_ip

  permitted_by :
      (rules : List FirewallRule)
      → decide lower_rune net rules service iface src_ip ≡ true
      → (r : FirewallRule) × FirstMatch applies rules r × (text_eq r.action action_permit ≡ true)
  unfolding decide
  permitted_by [] h = cc
  permitted_by (r ∷ rs) h = elim (Bool-cases (applies r)) [
    | inl m ↦ (r, here m, rw m at h)
    | inr n ↦ let (x, first, permit) = permitted_by rs (rw n at h) in (x, later n first, permit)
  ]

  decided_by :
      {rules : List FirewallRule} {r : FirewallRule}
      → FirstMatch applies rules r
      → decide lower_rune net rules service iface src_ip ≡ text_eq r.action action_permit
  unfolding decide
  decided_by (here m) = rw m
  decided_by (later n first) = rw n (decided_by first)

  -- A connection is permitted exactly when some rule is the first of the list that matches it and
  -- that rule's action is PERMIT; so a connection that no rule matches is denied.
  pub decide-FirstMatch :
      (rules : List FirewallRule)
      → (decide lower_rune net rules service iface src_ip ≡ true) ↔ (
          (r : FirewallRule) × FirstMatch applies rules r × (text_eq r.action action_permit ≡ true))
  decide-FirstMatch rules = (permitted_by rules, λ w. decided_by w.1 ∙ w.2)

  -- Deleting a rule with a malformed action, wherever it stands, changes no decision.
  pub decide_malformed :
      (before after : List FirewallRule) (bad : FirewallRule)
      → valid_firewall_action bad.action ≡ false
      → decide lower_rune net (before ++ bad ∷ after) service iface src_ip
        ≡ decide lower_rune net (before ++ after) service iface src_ip
  unfolding decide rule_matches
  decide_malformed [] after bad h = rw h
  decide_malformed (r ∷ before) after bad h = rw (decide_malformed before after bad h)
