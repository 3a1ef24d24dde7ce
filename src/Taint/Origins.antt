-- ===== src/Taint/Origins.antt =====
-- The origins that a taint lists, of internal/domain/external_safety.go and
-- internal/infrastructure/externaltaint/store.go.
use agent_workspace.Prelude.{
  ℕ, ◌≡◌, ◌≤◌, sym, ◌∙◌, subst, true, List, [], ◌∷◌, Text, arith, text_eq, trim_space, length,
  length-append, distinct, distinct-append_one, Bool-cases, inl, inr,
}
use agent_workspace.Taint.{
  ExternalContentSafety, ExternalTaint, add_origin, contains_origin, with_observation,
}
use agent_workspace.Taint.Turns.{Store, taint_of, record_safety, record_all}
use agent_workspace.Taint.Lattice.{record_safety_lem, record_all_lem, record_all-nil}

-- at most 16 origins, no two alike
abbrev pub IsBounded : List Text → Type 0
IsBounded origins = (length origins ≤ 16) × (distinct origins ≡ true)

add_origin-IsBounded :
    (origins : List Text) (origin : Text)
    → IsBounded origins
    → IsBounded (add_origin origins origin)
unfolding add_origin contains_origin
add_origin-IsBounded origins origin (short, fresh) =
    ground (arith, distinct-append_one origins origin, length-append origins (origin ∷ []))

module _ (lower_rune : ℕ → ℕ) where
  with_observation-IsBounded :
      (t : ExternalTaint) (s : ExternalContentSafety)
      → IsBounded t.origins
      → IsBounded (with_observation lower_rune t s).origins
  unfolding with_observation
  with_observation-IsBounded t s bounded =
      ground (arith, add_origin-IsBounded t.origins (trim_space s.origin) bounded)

  record_safety-IsBounded :
      (st : Store) (turn scope : Text) (s : ExternalContentSafety)
      → ((u : Text) → IsBounded (taint_of st u).origins)
      → IsBounded (taint_of (record_safety lower_rune st turn s) scope).origins
  record_safety-IsBounded st turn scope s bounded = elim (Bool-cases (text_eq turn scope)) [
    | inl same ↦
        let seen : taint_of (record_safety lower_rune st turn s) scope
            ≡ with_observation lower_rune (taint_of st turn) s =
          record_safety_lem lower_rune st scope turn s ∙ rw same in
        subst (λ t. IsBounded (ExternalTaint.origins t)) (sym seen)
          (with_observation-IsBounded (taint_of st turn) s (bounded turn))
    | inr other ↦
        let kept : taint_of (record_safety lower_rune st turn s) scope ≡ taint_of st scope =
          record_safety_lem lower_rune st scope turn s ∙ rw other in
        subst (λ t. IsBounded (ExternalTaint.origins t)) (sym kept) (bounded scope)
  ]

  -- If every turn of a store lists at most 16 origins, no two alike, then so does every turn after any
  -- readings of any turns.
  pub record_all-IsBounded :
      (st : Store) (readings : List (Text × ExternalContentSafety)) (scope : Text)
      → ((u : Text) → IsBounded (taint_of st u).origins)
      → IsBounded (taint_of (record_all lower_rune st readings) scope).origins
  record_all-IsBounded st [] scope bounded =
      subst (λ x. IsBounded (taint_of x scope).origins) (sym (record_all-nil lower_rune st))
        (bounded scope)
  record_all-IsBounded st ((turn, s) ∷ readings) scope bounded =
      subst (λ x. IsBounded (taint_of x scope).origins)
        (sym (record_all_lem lower_rune st turn s readings))
        (record_all-IsBounded (record_safety lower_rune st turn s) readings scope
          (λ u. record_safety-IsBounded st turn u s bounded))
