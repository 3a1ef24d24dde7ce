-- ===== src/Taint/Decisions.antt =====
-- When a taint makes an action ask: the decision on a merged safety, of
-- internal/domain/external_safety.go.
use agent_workspace.Prelude.{
  ℕ, ◌≡◌, refl, ◌∙◌, Bool, true, false, not, ◌&&◌, ◌||◌, [], ◌∷◌, Text, arith, text_eq, is_empty,
  ltb,
}
use agent_workspace.Taint.{
  ExternalContentSafety, ExternalTaint, ExternalActionDecision, contaminates,
  decide_external_action, action_read, risk_rank, folded, risk_high, merge_safety, taint_safety,
}
use agent_workspace.Taint.Lattice.{alarm, contamination, rank-raised}

abbrev pub requires : ExternalActionDecision → Bool
requires d = d.require_confirmation

nil_of_is_empty : (xs : Text) → is_empty xs ≡ true → xs ≡ []
unfolding is_empty
nil_of_is_empty [] h = refl
nil_of_is_empty (x ∷ xs) h = cc

-- the levels of `taint_safety`, its texts left out
risk_of_taint : (t : ExternalTaint) → (taint_safety t).risk_level ≡ t.risk_level
unfolding taint_safety
risk_of_taint t = ground (arith, nil_of_is_empty t.risk_level)

suspicion_of_taint : (t : ExternalTaint) → (taint_safety t).suspicious ≡ t.suspicious
unfolding taint_safety
suspicion_of_taint t = ground arith

untrusted_taint :
    (t : ExternalTaint)
    → (taint_safety t).untrusted ≡ not (not t.suspicious && is_empty t.risk_level)
unfolding taint_safety
untrusted_taint t = ground arith

module _ (lower_rune : ℕ → ℕ) where
  contaminates_lem :
      (s : ExternalContentSafety)
      → contaminates lower_rune s
        ≡ (s.suspicious || not (ltb (risk_rank lower_rune s.risk_level) 3))
  contaminates_lem s = unfold contaminates in refl

  risk_rank_high :
      (level : Text)
      → ltb (risk_rank lower_rune level) 3 ≡ false
      → text_eq (folded lower_rune level) risk_high ≡ true
  unfolding risk_rank
  risk_rank_high level high = ground arith

  decide-contaminates :
      (kind : Text) (s : ExternalContentSafety)
      → s.untrusted ≡ true
      → contaminates lower_rune s ≡ true
      → text_eq kind action_read ≡ false
      → requires (decide_external_action lower_rune kind s) ≡ true
  unfolding decide_external_action
  decide-contaminates kind s untrusted taints acts =
      ground (arith, contaminates_lem s, risk_rank_high s.risk_level)

  merge_safety-contaminates :
      (a b : ExternalContentSafety)
      → contaminates lower_rune (merge_safety lower_rune a b)
        ≡ (contaminates lower_rune a || contaminates lower_rune b)
  unfolding merge_safety contaminates
  merge_safety-contaminates a b = ground (arith, rank-raised lower_rune a.risk_level b.risk_level)

  merge_safety-untrusted :
      (a b : ExternalContentSafety)
      → (merge_safety lower_rune a b).untrusted ≡ (a.untrusted || b.untrusted)
  merge_safety-untrusted a b = unfold merge_safety in refl

  taint_safety-contaminates :
      (t : ExternalTaint)
      → contaminates lower_rune (taint_safety t) ≡ alarm (contamination lower_rune t)
  taint_safety-contaminates t =
      contaminates_lem (taint_safety t) ∙ ground (arith, risk_of_taint t, suspicion_of_taint t)

  risk_rank-nil : risk_rank lower_rune [] ≡ 0
  unfolding risk_rank
  risk_rank-nil = refl

  taint_safety-untrusted :
      (t : ExternalTaint)
      → alarm (contamination lower_rune t) ≡ true
      → (taint_safety t).untrusted ≡ true
  taint_safety-untrusted t raised =
      ground (arith, untrusted_taint t, nil_of_is_empty t.risk_level, risk_rank-nil)

  -- A taint with the alarm makes every kind but `read` ask, whatever safety it is merged with.
  pub decide-alarm :
      (kind : Text) (base : ExternalContentSafety) (t : ExternalTaint)
      → alarm (contamination lower_rune t) ≡ true
      → text_eq kind action_read ≡ false
      → requires
          (decide_external_action lower_rune kind (merge_safety lower_rune base (taint_safety t)))
        ≡ true
  decide-alarm kind base t raised acts = ground (
    arith,
    decide-contaminates kind (merge_safety lower_rune base (taint_safety t)),
    merge_safety-contaminates base (taint_safety t),
    merge_safety-untrusted base (taint_safety t),
    taint_safety-contaminates t,
    taint_safety-untrusted t,
  )
