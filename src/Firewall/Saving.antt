-- ===== src/Firewall/Saving.antt =====
-- internal/application/firewall.go: validation of a ruleset, and saving it through the settings
-- store, which is the argument `FirewallSettingsStore` (internal/domain/ports).
use agent_workspace.Prelude.{
  ℕ, ◌+◌, true, not, ◌≡◌, refl, ◌↔◌, List, [], ◌∷◌, Text, arith, All, Result, ok, err, ◌>>◌,
  Result-cases, sym, ◌∙◌, ◌⊎◌, if◌then◌else◌, inl, inr,
}
use agent_workspace.Firewall.Rules.{
  FirewallRule, FirewallConfig, valid_firewall_action, valid_firewall_service,
  valid_firewall_interface,
}
use agent_workspace.Firewall.Address.{Net}
use agent_workspace.Firewall.Origins.{
  OriginError, validate_origin, OriginParses, validate_origin-OriginParses,
  OriginParses-validate_origin,
}

-- the number is the rule's, from 1
pub data FirewallError : Type 0 where
  invalid_action invalid_service invalid_interface : ℕ → Text → FirewallError
  invalid_origin : ℕ → OriginError → FirewallError
  not_saved : FirewallError

pub record FirewallSettingsStore : Type 1 where
  pub State : Type 0
  pub load_firewall_config : State → FirewallConfig
  pub save_firewall_rules : List FirewallRule → State → State × Result FirewallError (Unit {0})

module _ (lower_rune : ℕ → ℕ) (net : Net) where
  -- one round of the loop, for the rule with number `i`
  unfoldable pub validate_rule : ℕ → FirewallRule → Result FirewallError (Unit {0})
  unfolding valid_firewall_action valid_firewall_service valid_firewall_interface validate_origin
  validate_rule i rule =
      if not (valid_firewall_action rule.action)
      then err (invalid_action i rule.action)
      else if not (valid_firewall_service rule.service)
      then err (invalid_service i rule.service)
      else if not (valid_firewall_interface rule.interface)
      then err (invalid_interface i rule.interface)
      else elim (validate_origin lower_rune net rule.origin) [
        | ok u ↦ ok tt
        | err e ↦ err (invalid_origin i e)
      ]

  unfoldable pub validate_from : ℕ → List FirewallRule → Result FirewallError (Unit {0})
  unfolding validate_rule
  validate_from i [] = ok tt
  validate_from i (rule ∷ rules) = validate_rule i rule >> validate_from (i + 1) rules

  unfoldable pub validate_firewall_rules : List FirewallRule → Result FirewallError (Unit {0})
  unfolding validate_from
  validate_firewall_rules rules = validate_from 1 rules

  module _ (store : FirewallSettingsStore) where
    open store use {State, load_firewall_config}

    unfoldable pub load_firewall_rules : State → List FirewallRule
    load_firewall_rules s = (load_firewall_config s).rules

    unfoldable pub save_firewall_rules :
        List FirewallRule → State → State × Result FirewallError (Unit {0})
    unfolding validate_firewall_rules
    save_firewall_rules rules s = elim (validate_firewall_rules rules) [
      | err e ↦ (s, err e)
      | ok u ↦ store.save_firewall_rules rules s
    ]

  -- a rule of known words, whose origin parses
  pub record WellFormed (rule : FirewallRule) : Type 0 where
    pub action_known : valid_firewall_action rule.action ≡ true
    pub service_known : valid_firewall_service rule.service ≡ true
    pub interface_known : valid_firewall_interface rule.interface ≡ true
    pub origin_parses : OriginParses lower_rune net rule.origin

  validate_rule_lem :
      (i : ℕ) (rule : FirewallRule)
      → validate_rule i rule ≡ (
          if not (valid_firewall_action rule.action)
          then err (invalid_action i rule.action)
          else if not (valid_firewall_service rule.service)
          then err (invalid_service i rule.service)
          else if not (valid_firewall_interface rule.interface)
          then err (invalid_interface i rule.interface)
          else elim (validate_origin lower_rune net rule.origin) [
            | ok u ↦ ok tt
            | err e ↦ err (invalid_origin i e)
          ])
  unfolding validate_rule
  validate_rule_lem i rule = refl

  validate_rule-WellFormed :
      (i : ℕ) (rule : FirewallRule) → validate_rule i rule ≡ ok tt → WellFormed rule
  validate_rule-WellFormed i rule h =
      let (action, service, interface, origin) = accepted in
      record {
        action_known = action;
        service_known = service;
        interface_known = interface;
        origin_parses = validate_origin-OriginParses lower_rune net rule.origin origin;
      }
    where
      accepted :
          (valid_firewall_action rule.action ≡ true)
          × (valid_firewall_service rule.service ≡ true)
          × (valid_firewall_interface rule.interface ≡ true)
          × (validate_origin lower_rune net rule.origin ≡ ok tt)
      accepted = ground (arith, validate_rule_lem i rule)

  WellFormed-validate_rule :
      (i : ℕ) (rule : FirewallRule) → WellFormed rule → validate_rule i rule ≡ ok tt
  WellFormed-validate_rule i rule w = ground (
    arith,
    validate_rule_lem i rule,
    w.action_known,
    w.service_known,
    w.interface_known,
    OriginParses-validate_origin lower_rune net rule.origin w.origin_parses,
  )

  validate_from_lem :
      (i : ℕ) (rule : FirewallRule) (rules : List FirewallRule)
      → validate_from i (rule ∷ rules) ≡ (validate_rule i rule >> validate_from (i + 1) rules)
  unfolding validate_from
  validate_from_lem i rule rules = refl

  validate_from-WellFormed :
      (i : ℕ) (rules : List FirewallRule) → validate_from i rules ≡ ok tt → All WellFormed rules
  validate_from-WellFormed i [] h = tt
  validate_from-WellFormed i (rule ∷ rules) h = elim (Result-cases (validate_rule i rule)) [
    | inl (u, first) ↦ (
      validate_rule-WellFormed i rule first,
      validate_from-WellFormed (i + 1) rules (ground (arith, validate_from_lem i rule rules)),
    )
    | inr (e, failed) ↦ absurd (ground (arith, validate_from_lem i rule rules))
  ]

  WellFormed-validate_from :
      (i : ℕ) (rules : List FirewallRule) → All WellFormed rules → validate_from i rules ≡ ok tt
  WellFormed-validate_from i [] w = unfold validate_from in refl
  WellFormed-validate_from i (rule ∷ rules) (first, others) =
      validate_from_lem i rule rules
      ∙ rw (WellFormed-validate_rule i rule first) (WellFormed-validate_from (i + 1) rules others)

  -- Validation accepts exactly the rulesets all of whose rules have a known action, service and interface
  -- and an origin that is one of the words for every source, a range that parses or an address that
  -- parses.
  pub validate_firewall_rules-WellFormed :
      (rules : List FirewallRule) → (validate_firewall_rules rules ≡ ok tt) ↔ All WellFormed rules
  unfolding validate_firewall_rules
  validate_firewall_rules-WellFormed rules =
      (validate_from-WellFormed 1 rules, WellFormed-validate_from 1 rules)

  module _ (store : FirewallSettingsStore) where
    -- Saving writes a ruleset through to the store only if all of its rules are well-formed; any other
    -- ruleset is refused with an error and leaves the stored policy as it was.
    pub save_firewall_rules_guarded :
        (rules : List FirewallRule) (s : store.State)
        → (All WellFormed rules
            × (save_firewall_rules store rules s ≡ store.save_firewall_rules rules s))
          ⊎ ((¬ (All WellFormed rules))
              × ((e : FirewallError) × (save_firewall_rules store rules s ≡ (s, err e))))
    unfolding save_firewall_rules
    save_firewall_rules_guarded rules s = elim (Result-cases (validate_firewall_rules rules)) [
      | inl (u, accepted) ↦ inl (
        (validate_firewall_rules-WellFormed rules).0 accepted,
        rw (accepted, save_firewall_rules),
      )
      | inr (e, refused) ↦ inr (
        λ w. absurd_ok (sym refused ∙ (validate_firewall_rules-WellFormed rules).1 w),
        (e, rw (refused, save_firewall_rules)),
      )
    ]
      where
        absurd_ok :
            {e : FirewallError} → ◌≡◌ {A = Result FirewallError (Unit {0})} (err e) (ok tt) → ⊥
        absurd_ok h = cc
