-- ===== src/Firewall/Origins.antt =====
-- What `validateOrigin` of internal/application/firewall.go accepts.
use agent_workspace.Prelude.{
  ℕ, Bool, true, false, ◌≡◌, refl, sym, ap, ◌∙◌, ◌⊎◌, inl, inr, Option, none, some, [], Text, codes,
  trim_space, contains, text_eq, eq_of_text_eq, Bool-cases, Result, ok, err, ◌||◌, if◌then◌else◌,
}
use agent_workspace.Firewall.Address.{Net, IpNet, IpAddr}
use agent_workspace.Firewall.Acl.{fold, is_any_form}

pub data OriginError : Type 0 where
  invalid_cidr invalid_ip : Text → OriginError

abbrev IsWildcard : Text → Type 0
IsWildcard o = (o ≡ []) ⊎ (o ≡ codes "any") ⊎ (o ≡ codes "0.0.0.0/0") ⊎ (o ≡ codes "::/0")

is_any_form_lem :
    (o : Text)
    → is_any_form o ≡ (
        text_eq o []
        || text_eq o (codes "any")
        || text_eq o (codes "0.0.0.0/0")
        || text_eq o (codes "::/0"))
is_any_form_lem o = unfold is_any_form in refl

or_cases : (a b : Bool) → (a || b) ≡ true → (a ≡ true) ⊎ (b ≡ true)
or_cases true b h = inl refl
or_cases false b h = inr h

named_words : (o : Text) → is_any_form o ≡ true → IsWildcard o
named_words o h =
    let words = sym (is_any_form_lem o) ∙ h in
    elim (or_cases _ (text_eq o (codes "::/0")) words) [
      | inr e ↦ inr (inr (inr (eq_of_text_eq o (codes "::/0") e)))
      | inl rest ↦ elim (or_cases _ (text_eq o (codes "0.0.0.0/0")) rest) [
        | inr e ↦ inr (inr (inl (eq_of_text_eq o (codes "0.0.0.0/0") e)))
        | inl more ↦ elim (or_cases (text_eq o []) (text_eq o (codes "any")) more) [
          | inl e ↦ inl (eq_of_text_eq o [] e)
          | inr e ↦ inr (inl (eq_of_text_eq o (codes "any") e))
        ]
      ]
    ]

IsWildcard-is_any_form : (o : Text) → IsWildcard o → is_any_form o ≡ true
unfolding is_any_form
IsWildcard-is_any_form o (inl e) = ap is_any_form e ∙ (unfold text_eq in refl)
IsWildcard-is_any_form o (inr (inl e)) = ap is_any_form e ∙ (unfold text_eq in refl)
IsWildcard-is_any_form o (inr (inr (inl e))) = ap is_any_form e ∙ (unfold text_eq in refl)
IsWildcard-is_any_form o (inr (inr (inr e))) = ap is_any_form e ∙ (unfold text_eq in refl)

module _ (lower_rune : ℕ → ℕ) (net : Net) where
  unfoldable pub is_any_origin : Text → Bool
  unfolding fold is_any_form
  is_any_origin origin = is_any_form (fold lower_rune origin)

  unfoldable pub validate_origin : Text → Result OriginError (Unit {0})
  unfolding is_any_origin trim_space contains
  validate_origin origin =
      let o = trim_space origin in
      if is_any_origin origin
      then ok tt
      else if contains o (codes "/")
      then elim (net.parse_cidr o) [ none ↦ err (invalid_cidr origin) | some n ↦ ok tt ]
      else elim (net.parse_ip o) [ none ↦ err (invalid_ip origin) | some ip ↦ ok tt ]

  -- What an origin may be: nothing, "any", a range of all addresses, a range that parses, or an address that
  -- parses.
  abbrev pub OriginParses : Text → Type 0
  OriginParses origin =
      (fold lower_rune origin ≡ [])
      ⊎ (fold lower_rune origin ≡ codes "any")
      ⊎ (fold lower_rune origin ≡ codes "0.0.0.0/0")
      ⊎ (fold lower_rune origin ≡ codes "::/0")
      ⊎ ((contains (trim_space origin) (codes "/") ≡ true)
          × ((network : IpNet) × (net.parse_cidr (trim_space origin) ≡ some network)))
      ⊎ ((contains (trim_space origin) (codes "/") ≡ false)
          × ((ip : IpAddr) × (net.parse_ip (trim_space origin) ≡ some ip)))

  validate_origin_lem :
      (origin : Text)
      → validate_origin origin ≡ (
          if is_any_form (fold lower_rune origin)
          then ok tt
          else if contains (trim_space origin) (codes "/")
          then elim (net.parse_cidr (trim_space origin)) [
            | none ↦ err (invalid_cidr origin)
            | some n ↦ ok tt
          ]
          else elim (net.parse_ip (trim_space origin)) [
            | none ↦ err (invalid_ip origin)
            | some ip ↦ ok tt
          ])
  validate_origin_lem origin = unfold validate_origin in unfold is_any_origin in refl

  any_accepted :
      (origin : Text) → IsWildcard (fold lower_rune origin) → validate_origin origin ≡ ok tt
  any_accepted origin any =
      validate_origin_lem origin ∙ rw (IsWildcard-is_any_form (fold lower_rune origin) any)

  pub validate_origin-OriginParses :
      (origin : Text) → validate_origin origin ≡ ok tt → OriginParses origin
  validate_origin-OriginParses origin h = elim (Bool-cases (is_any_form (fold lower_rune origin))) [
    | inl any ↦ named (named_words (fold lower_rune origin) any)
    | inr given ↦ elim (Bool-cases (contains (trim_space origin) (codes "/"))) [
      | inl range ↦ inr (
          inr (
            inr (
              inr (
                inl (
                  range,
                  cidr_parsed (net.parse_cidr (trim_space origin))
                      (sym (opened ∙ rw (given, range)) ∙ h),
                )))))
      | inr host ↦ inr (
          inr (
            inr (
              inr (
                inr (
                  host,
                  ip_parsed (net.parse_ip (trim_space origin))
                      (sym (opened ∙ rw (given, host)) ∙ h),
                )))))
    ]
  ]
    where
      opened : validate_origin origin ≡ (
          if is_any_form (fold lower_rune origin)
          then ok tt
          else if contains (trim_space origin) (codes "/")
          then elim (net.parse_cidr (trim_space origin)) [
            | none ↦ err (invalid_cidr origin)
            | some n ↦ ok tt
          ]
          else elim (net.parse_ip (trim_space origin)) [
            | none ↦ err (invalid_ip origin)
            | some ip ↦ ok tt
          ])
      opened = validate_origin_lem origin

      named : IsWildcard (fold lower_rune origin) → OriginParses origin
      named (inl e) = inl e
      named (inr (inl e)) = inr (inl e)
      named (inr (inr (inl e))) = inr (inr (inl e))
      named (inr (inr (inr e))) = inr (inr (inr (inl e)))

      cidr_parsed :
          (o : Option IpNet)
          → ◌≡◌ {A = Result OriginError (Unit {0})}
              (elim o [ none ↦ err (invalid_cidr origin) | some n ↦ ok tt ])
              (ok tt)
          → (network : IpNet) × (o ≡ some network)
      cidr_parsed none q = cc
      cidr_parsed (some n) q = (n, refl)

      ip_parsed :
          (o : Option IpAddr)
          → ◌≡◌ {A = Result OriginError (Unit {0})}
              (elim o [ none ↦ err (invalid_ip origin) | some ip ↦ ok tt ])
              (ok tt)
          → (ip : IpAddr) × (o ≡ some ip)
      ip_parsed none q = cc
      ip_parsed (some ip) q = (ip, refl)

  pub OriginParses-validate_origin :
      (origin : Text) → OriginParses origin → validate_origin origin ≡ ok tt
  OriginParses-validate_origin origin (inl e) = any_accepted origin (inl e)
  OriginParses-validate_origin origin (inr (inl e)) = any_accepted origin (inr (inl e))
  OriginParses-validate_origin origin (inr (inr (inl e))) = any_accepted origin (inr (inr (inl e)))
  OriginParses-validate_origin origin (inr (inr (inr (inl e)))) =
      any_accepted origin (inr (inr (inr e)))
  OriginParses-validate_origin origin (inr (inr (inr (inr (inl (range, (network, parsed))))))) =
      elim (Bool-cases (is_any_form (fold lower_rune origin))) [
        | inl any ↦ validate_origin_lem origin ∙ rw any
        | inr given ↦ validate_origin_lem origin ∙ rw (given, range, parsed)
      ]
  OriginParses-validate_origin origin (inr (inr (inr (inr (inr (host, (ip, parsed))))))) =
      elim (Bool-cases (is_any_form (fold lower_rune origin))) [
        | inl any ↦ validate_origin_lem origin ∙ rw any
        | inr given ↦ validate_origin_lem origin ∙ rw (given, host, parsed)
      ]
