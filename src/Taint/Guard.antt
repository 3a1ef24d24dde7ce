-- ===== src/Taint/Guard.antt =====
-- The guard that sensitive actions pass: `requireExternalActionGuard` of
-- internal/infrastructure/tools/external_safety.go, with `requireConfirmationStrict` of tools.go. What the
-- content scanner, the JSON decoder and the user answer are arguments.
use agent_workspace.Prelude.{
  join_texts, ℕ, ◌≡◌, refl, sym, ap, ◌∙◌, ◌⊎◌, inl, inr, Bool-cases, some_of, Bool, true, false,
  not, ◌&&◌, Option, none, some, List, [], ◌∷◌, ◌++◌, Text, codes, arith, text_eq, is_empty,
  trim_space, Dict, lookup, insert, Result, ok, err, ok-injective, if◌then◌else◌,
}
use agent_workspace.Taint.{
  ExternalContentSafety, ExternalContentResult, no_safety, result_safety, merge_safety,
  decide_external_action, taint_safety, action_read, taint_safety,
}
use agent_workspace.Taint.Decisions.{requires, decide-alarm}
use agent_workspace.Taint.Turns.{Store, store_safety, record_all, taint_of}
use agent_workspace.Taint.Lattice.{alarm, contamination, taints_scope, alarm-record_all}

-- what stands under a key of the arguments: the struct itself, an object or a text that JSON decodes to a
-- struct, or anything else
pub data EchoedValue : Type 0 where
  typed : ExternalContentSafety → EchoedValue
  decoded : ExternalContentSafety → EchoedValue
  undecodable : EchoedValue

unfoldable pub decode_external_safety : EchoedValue → Option ExternalContentSafety
decode_external_safety (typed s) = some s
decode_external_safety (decoded s) = if s.untrusted then some s else none
decode_external_safety undecodable = none

-- `externalSafetyFromArgs` over the values of its two keys, missing or null ones left out
unfoldable pub external_safety_from_args : List EchoedValue → ExternalContentSafety
unfolding decode_external_safety
external_safety_from_args [] = no_safety
external_safety_from_args (v ∷ vs) =
    let rest = external_safety_from_args vs in
    elim (decode_external_safety v) [ none ↦ rest | some s ↦ s ]

pub record ActionCall : Type 0 where
  pub scope : Text
  pub tool : Text
  pub kind : Text
  pub echoed : List EchoedValue
  pub args_text : Text

-- how the workspace asks: the permissions mode, the confirm function's answer if one is wired, and the
-- answer that stands in for a missing one
pub record Confirming : Type 0 where
  pub module_policy : Text
  pub confirm : Option (Result Text Bool)
  pub auto_approve : Bool

unfoldable pub require_confirmation_strict : Confirming → Result Text Bool
unfolding text_eq
require_confirmation_strict c =
    if text_eq c.module_policy (codes "permit_all")
    then ok true
    else elim c.confirm [ none ↦ ok c.auto_approve | some answer ↦ answer ]

abbrev pub confirmation_denied : Text
confirmation_denied = codes "action was not approved by the user"

-- fmt.Sprint of a flag
unfoldable pub flag_text : Bool → Text
flag_text b = if b then codes "true" else codes "false"

unfoldable pub external_approval_key : Text → Text → Text → ExternalContentSafety → Text
unfolding is_empty trim_space join_texts flag_text
external_approval_key scope tool kind safety =
    if is_empty (trim_space scope)
    then []
    else join_texts (codes "|") (
        trim_space scope
        ∷ trim_space tool
        ∷ kind
        ∷ trim_space safety.risk_level
        ∷ flag_text safety.suspicious
        ∷ [])

unfoldable pub has_external_approval : Dict Bool → Text → Bool
unfolding lookup
has_external_approval approvals key = elim (lookup key approvals) [ none ↦ false | some b ↦ b ]

unfoldable pub record_external_approval : Dict Bool → Text → Dict Bool
unfolding insert
record_external_approval approvals key = insert key true approvals

-- what follows the answer
unfoldable pub settle_approval :
    Dict Bool → Text → Result Text Bool → Result Text (Unit {0}) × Dict Bool
unfolding record_external_approval is_empty
settle_approval approvals key (err e) = (err e, approvals)
settle_approval approvals key (ok approved) =
    if not approved
    then (err confirmation_denied, approvals)
    else if is_empty key
    then (ok tt, approvals)
    else (ok tt, record_external_approval approvals key)

-- an action that asks and passes was answered yes
settle_approval-ok :
    (approvals : Dict Bool) (key : Text) (answer : Result Text Bool)
    → (settle_approval approvals key answer).0 ≡ ok tt
    → answer ≡ ok true
unfolding settle_approval
settle_approval-ok approvals key (err e) passed = cc
settle_approval-ok approvals key (ok true) passed = refl
settle_approval-ok approvals key (ok false) passed = cc

-- The ways to a yes: no prompt is asked for in the mode that permits everything, a confirm function answers
-- yes, or none is wired and the stand-in is yes.
abbrev pub Approved : Confirming → Type 0
Approved c =
    (text_eq c.module_policy (codes "permit_all") ≡ true)
    ⊎ (c.confirm ≡ some (ok true))
    ⊎ ((c.confirm ≡ none) × (c.auto_approve ≡ true))

require_confirmation_strict_lem :
    (c : Confirming)
    → require_confirmation_strict c ≡ (
        if text_eq c.module_policy (codes "permit_all")
        then ok true
        else elim c.confirm [ none ↦ ok c.auto_approve | some answer ↦ answer ])
require_confirmation_strict_lem c = unfold require_confirmation_strict in refl

strict-Approved : (c : Confirming) → require_confirmation_strict c ≡ ok true → Approved c
strict-Approved c h = elim (Bool-cases (text_eq c.module_policy (codes "permit_all"))) [
  | inl all ↦ inl all
  | inr asks ↦ inr (answered c.confirm refl (sym (require_confirmation_strict_lem c ∙ rw asks) ∙ h))
]
  where
    answered :
        (confirm : Option (Result Text Bool))
        → c.confirm ≡ confirm
        → ◌≡◌ {A = Result Text Bool}
            (elim confirm [ none ↦ ok c.auto_approve | some answer ↦ answer ])
            (ok true)
        → (c.confirm ≡ some (ok true)) ⊎ ((c.confirm ≡ none) × (c.auto_approve ≡ true))
    answered none e q = inr (e, ok-injective q)
    answered (some answer) e q = inl (e ∙ ap (λ a. some a) q)

module _ (lower_rune : ℕ → ℕ) (scan : Text → Text → ExternalContentResult) where
  -- what the call itself carries
  unfoldable pub call_safety : ActionCall → ExternalContentSafety
  unfolding external_safety_from_args is_empty trim_space result_safety
  call_safety call =
      let echoed : ExternalContentSafety = external_safety_from_args call.echoed in
      let scanned : ExternalContentSafety =
        result_safety (scan (call.tool ++ codes ".args") call.args_text) in
      if not echoed.untrusted && (not (is_empty (trim_space call.args_text)) && scanned.suspicious)
      then scanned
      else echoed

  unfoldable pub guarded_safety : Store → ActionCall → ExternalContentSafety
  unfolding call_safety merge_safety store_safety
  guarded_safety taints call =
      merge_safety lower_rune (call_safety call) (store_safety taints call.scope)

  abbrev pub approval_key : Store → ActionCall → Text
  approval_key taints call =
      external_approval_key call.scope call.tool call.kind (guarded_safety taints call)

  unfoldable pub require_external_action_guard :
      Store → Dict Bool → ActionCall → Confirming → Result Text (Unit {0}) × Dict Bool
  unfolding guarded_safety decide_external_action external_approval_key has_external_approval
      settle_approval require_confirmation_strict is_empty
  require_external_action_guard taints approvals call c =
      let safety : ExternalContentSafety = guarded_safety taints call in
      let key = external_approval_key call.scope call.tool call.kind safety in
      let decision = decide_external_action lower_rune call.kind safety in
      if not decision.require_confirmation
      then (ok tt, approvals)
      else if not (is_empty key) && has_external_approval approvals key
      then (ok tt, approvals)
      else settle_approval approvals key (require_confirmation_strict c)

  abbrev pub guard_requires : Store → ActionCall → Bool
  guard_requires taints call =
      requires (decide_external_action lower_rune call.kind (guarded_safety taints call))

  guard_lem :
      (taints : Store) (approvals : Dict Bool) (call : ActionCall) (c : Confirming)
      → guard_requires taints call ≡ true
      → require_external_action_guard taints approvals call c ≡ (
          if not (is_empty (approval_key taints call))
            && has_external_approval approvals (approval_key taints call)
          then (ok tt, approvals)
          else settle_approval approvals (approval_key taints call) (require_confirmation_strict c))
  guard_lem taints approvals call c required = opened ∙ rw required
    where
      opened : require_external_action_guard taints approvals call c ≡ (
          if not (guard_requires taints call)
          then (ok tt, approvals)
          else if not (is_empty (approval_key taints call))
              && has_external_approval approvals (approval_key taints call)
          then (ok tt, approvals)
          else settle_approval approvals (approval_key taints call) (require_confirmation_strict c))
      opened = unfold require_external_action_guard in refl

  guarded_safety_lem :
      (taints : Store) (call : ActionCall)
      → guarded_safety taints call
        ≡ merge_safety lower_rune (call_safety call) (taint_safety (taint_of taints call.scope))
  guarded_safety_lem taints call = unfold guarded_safety in unfold store_safety in refl

  guard_requires_tainted :
      (taints : Store) (call : ActionCall)
      → alarm (contamination lower_rune (taint_of taints call.scope)) ≡ true
      → text_eq call.kind action_read ≡ false
      → guard_requires taints call ≡ true
  guard_requires_tainted taints call raised acts =
      ap (λ s. requires (decide_external_action lower_rune call.kind s))
        (guarded_safety_lem taints call)
      ∙ decide-alarm lower_rune call.kind (call_safety call) (taint_of taints call.scope) raised
          acts

  -- When a reading of the turn is suspicious or of high risk, whatever the other turns and this one read
  -- before and after it, an action of another kind than `read` passes the guard of that turn only if its
  -- approval key is cached, the confirm function answers yes, the mode is permit_all, which asks nobody, or
  -- no confirm function is wired and approving is the default then; whatever safety the model echoes.
  pub guard_tainted :
      (st : Store) (readings : List (Text × ExternalContentSafety)) (approvals : Dict Bool)
      (call : ActionCall) (c : Confirming)
      → some_of (taints_scope lower_rune call.scope) readings ≡ true
      → text_eq call.kind action_read ≡ false
      → (require_external_action_guard (record_all lower_rune st readings) approvals call c).0
        ≡ ok tt
      → (has_external_approval approvals (approval_key (record_all lower_rune st readings) call)
          ≡ true)
        ⊎ Approved c
  guard_tainted st readings approvals call c seen acts passed = elim (Bool-cases cached) [
    | inl held ↦ inl (ground arith)
    | inr missing ↦
        let asked : require_external_action_guard taints approvals call c
            ≡ settle_approval approvals (approval_key taints call) (require_confirmation_strict c) =
          guard_lem taints approvals call c required ∙ rw missing in
        inr (
          strict-Approved c (
            settle_approval-ok approvals (approval_key taints call) (require_confirmation_strict c)
              (ap (λ r. r.0) (sym asked) ∙ passed)))
  ]
    where
      taints : Store
      taints = record_all lower_rune st readings

      cached : Bool
      cached =
          not (is_empty (approval_key taints call))
          && has_external_approval approvals (approval_key taints call)

      required : guard_requires taints call ≡ true
      required =
          guard_requires_tainted taints call
            (ground (arith, alarm-record_all lower_rune st readings call.scope)) acts
