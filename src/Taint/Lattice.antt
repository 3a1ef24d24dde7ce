-- ===== src/Taint/Lattice.antt =====
-- The abstract view of a taint: two flags and a rank, with their least upper bound. The raw level, the
-- origins and the order of the readings are forgotten.
use agent_workspace.Prelude.{
  ℕ, ◌≡◌, refl, sym, ap, ◌∙◌, Bool, false, not, ◌&&◌, ◌||◌, List, [], ◌∷◌, Text, arith, text_eq,
  eq_of_text_eq, trim_space, to_lower, lookup-insert, ltb, if◌then◌else◌, Bool-cases, inl, inr,
  some_of,
}
use agent_workspace.Taint.{
  ExternalContentSafety, ExternalTaint, risk_rank, risk_high, risk_medium, risk_low, folded,
  contaminates, is_external, with_observation, add_origin,
}
use agent_workspace.Taint.Turns.{Store, taint_of, record_safety, record_all}

pub record Contamination : Type 0 where
  pub suspicious : Bool
  pub rank : ℕ
  pub external : Bool

abbrev pub uncontaminated : Contamination
uncontaminated = record { suspicious = false; rank = 0; external = false }

abbrev pub max : ℕ → ℕ → ℕ
max a b = if ltb a b then b else a

-- the least upper bound
abbrev pub join : Contamination → Contamination → Contamination
join a b = record {
  suspicious = a.suspicious || b.suspicious;
  rank = max a.rank b.rank;
  external = a.external || b.external;
}

join_assoc : (a b c : Contamination) → join (join a b) c ≡ join a (join b c)
join_assoc a b c = ground arith

join-uncontaminated : (a : Contamination) → join a uncontaminated ≡ a
join-uncontaminated a = ground arith

module _ (lower_rune : ℕ → ℕ) where
  abbrev pub contamination : ExternalTaint → Contamination
  contamination t = record {
    suspicious = t.suspicious;
    rank = risk_rank lower_rune t.risk_level;
    external = t.saw_external;
  }

  -- suspicious, or marked as of high risk, in any case and with spaces around
  unfoldable pub is_alarming : ExternalContentSafety → Bool
  unfolding text_eq to_lower trim_space
  is_alarming s = s.suspicious || text_eq (to_lower lower_rune (trim_space s.risk_level)) risk_high

  contaminates_lem : (s : ExternalContentSafety) → contaminates lower_rune s ≡ is_alarming s
  contaminates_lem s = ground (arith, opened, alarming, ranked)
    where
      opened :
          contaminates lower_rune s
          ≡ (s.suspicious || not (ltb (risk_rank lower_rune s.risk_level) 3))
      opened = unfold contaminates in refl

      alarming :
          is_alarming s
          ≡ (s.suspicious || text_eq (to_lower lower_rune (trim_space s.risk_level)) risk_high)
      alarming = unfold is_alarming in refl

      ranked : risk_rank lower_rune s.risk_level ≡ (
          if text_eq (to_lower lower_rune (trim_space s.risk_level)) risk_high
          then 3
          else if text_eq (to_lower lower_rune (trim_space s.risk_level)) risk_medium
          then 2
          else if text_eq (to_lower lower_rune (trim_space s.risk_level)) risk_low
          then 1
          else 0)
      ranked = unfold risk_rank in unfold folded in refl

  -- what one reading contributes: nothing unless it is suspicious or of high risk
  abbrev pub contribution : ExternalContentSafety → Contamination
  contribution s =
      if is_alarming s
      then record {
        suspicious = s.suspicious;
        rank = risk_rank lower_rune s.risk_level;
        external = is_external s;
      }
      else uncontaminated

  -- the least upper bound of the alarming readings of one turn
  unfoldable pub worst_alarming : Text → List (Text × ExternalContentSafety) → Contamination
  unfolding text_eq is_alarming risk_rank is_external
  worst_alarming scope [] = uncontaminated
  worst_alarming scope ((turn, s) ∷ rest) =
      let others = worst_alarming scope rest in
      if text_eq turn scope then join (contribution s) others else others

  pub rank-raised :
      (a b : Text)
      → risk_rank lower_rune
          (if ltb (risk_rank lower_rune a) (risk_rank lower_rune b) then b else a)
        ≡ max (risk_rank lower_rune a) (risk_rank lower_rune b)
  rank-raised a b = elim (Bool-cases (ltb (risk_rank lower_rune a) (risk_rank lower_rune b))) [
    | inl less ↦ rw less
    | inr more ↦ rw more
  ]

  with_observation_lem :
      (t : ExternalTaint) (s : ExternalContentSafety)
      → contamination (with_observation lower_rune t s) ≡ join (contamination t) (contribution s)
  with_observation_lem t s = elim (Bool-cases (contaminates lower_rune s)) [
    | inl taints ↦
        let seen : with_observation lower_rune t s ≡ raised = opened ∙ rw taints in
        let held : contribution s ≡ record {
          suspicious = s.suspicious;
          rank = risk_rank lower_rune s.risk_level;
          external = is_external s;
        } =
          rw (sym (contaminates_lem s) ∙ taints) in
        let ranked : contamination raised ≡ record {
          suspicious = t.suspicious || s.suspicious;
          rank = max (risk_rank lower_rune t.risk_level) (risk_rank lower_rune s.risk_level);
          external = t.saw_external || is_external s;
        } =
          rw (rank-raised t.risk_level s.risk_level) in
        ap contamination seen ∙ ranked ∙ ap (join (contamination t)) (sym held)
    | inr benign ↦
        let seen : with_observation lower_rune t s ≡ t = opened ∙ rw benign in
        let held : contribution s ≡ uncontaminated = rw (sym (contaminates_lem s) ∙ benign) in
        ap contamination seen
        ∙ sym (join-uncontaminated (contamination t))
        ∙ ap (join (contamination t)) (sym held)
  ]
    where
      raised : ExternalTaint
      raised = record {
        suspicious = t.suspicious || s.suspicious;
        risk_level =
            if ltb (risk_rank lower_rune t.risk_level) (risk_rank lower_rune s.risk_level)
            then s.risk_level
            else t.risk_level;
        origins = add_origin t.origins (trim_space s.origin);
        saw_external = t.saw_external || is_external s;
      }

      opened :
          with_observation lower_rune t s ≡ (if not (contaminates lower_rune s) then t else raised)
      opened = unfold with_observation in refl

  pub record_safety_lem :
      (st : Store) (scope turn : Text) (s : ExternalContentSafety)
      → taint_of (record_safety lower_rune st turn s) scope ≡ (
          if text_eq turn scope
          then with_observation lower_rune (taint_of st turn) s
          else taint_of st scope)
  unfolding record_safety taint_of
  record_safety_lem st scope turn s =
      let t : ExternalTaint = with_observation lower_rune (taint_of st turn) s in
      ground (arith, lookup-insert turn scope t st)

  pub record_all_lem :
      (st : Store) (turn : Text) (s : ExternalContentSafety)
      (readings : List (Text × ExternalContentSafety))
      → record_all lower_rune st ((turn, s) ∷ readings)
        ≡ record_all lower_rune (record_safety lower_rune st turn s) readings
  record_all_lem st turn s readings = unfold record_all in refl

  worst_alarming_lem :
      (scope turn : Text) (s : ExternalContentSafety)
      (readings : List (Text × ExternalContentSafety))
      → worst_alarming scope ((turn, s) ∷ readings) ≡ (
          if text_eq turn scope
          then join (contribution s) (worst_alarming scope readings)
          else worst_alarming scope readings)
  worst_alarming_lem scope turn s readings = unfold worst_alarming in refl

  pub record_all-nil : (st : Store) → record_all lower_rune st [] ≡ st
  record_all-nil st = unfold record_all in refl

  worst_alarming-nil : (scope : Text) → worst_alarming scope [] ≡ uncontaminated
  worst_alarming-nil scope = unfold worst_alarming in refl

  record_safety-contamination :
      (st : Store) (scope turn : Text) (s : ExternalContentSafety) (b : Contamination)
      → join (contamination (taint_of (record_safety lower_rune st turn s) scope)) b
        ≡ join
            (contamination (taint_of st scope))
            (if text_eq turn scope then join (contribution s) b else b)
  record_safety-contamination st scope turn s b = elim (Bool-cases (text_eq turn scope)) [
    | inl same ↦
        let seen : taint_of (record_safety lower_rune st turn s) scope
            ≡ with_observation lower_rune (taint_of st turn) s =
          record_safety_lem st scope turn s ∙ rw same in
        ap (λ t. join (contamination t) b) seen
        ∙ ap (λ c. join c b) (with_observation_lem (taint_of st turn) s)
        ∙ join_assoc (contamination (taint_of st turn)) (contribution s) b
        ∙ ap (λ u. join (contamination (taint_of st u)) (join (contribution s) b))
            (eq_of_text_eq turn scope same)
        ∙ rw same
    | inr other ↦
        let kept : taint_of (record_safety lower_rune st turn s) scope ≡ taint_of st scope =
          record_safety_lem st scope turn s ∙ rw other in
        ap (λ t. join (contamination t) b) kept ∙ rw other
  ]

  -- What the store holds for a turn is, seen abstractly, the least upper bound of what it held before and
  -- that turn's own readings that are suspicious or of high risk, whatever other turns read in between. A
  -- reading that is neither adds nothing, not even a medium rank.
  pub record_all_refines :
      (st : Store) (readings : List (Text × ExternalContentSafety)) (scope : Text)
      → contamination (taint_of (record_all lower_rune st readings) scope)
        ≡ join (contamination (taint_of st scope)) (worst_alarming scope readings)
  record_all_refines st [] scope =
      ap (λ x. contamination (taint_of x scope)) (record_all-nil st)
      ∙ sym (join-uncontaminated (contamination (taint_of st scope)))
      ∙ ap (join (contamination (taint_of st scope))) (sym (worst_alarming-nil scope))
  record_all_refines st ((turn, s) ∷ readings) scope =
      ap (λ x. contamination (taint_of x scope)) (record_all_lem st turn s readings)
      ∙ record_all_refines (record_safety lower_rune st turn s) readings scope
      ∙ record_safety-contamination st scope turn s (worst_alarming scope readings)
      ∙ ap (join (contamination (taint_of st scope)))
          (sym (worst_alarming_lem scope turn s readings))

-- suspicious, or of the highest rank
abbrev pub alarm : Contamination → Bool
alarm c = c.suspicious || not (ltb c.rank 3)

alarm-join : (a b : Contamination) → alarm (join a b) ≡ (alarm a || alarm b)
alarm-join a b = ground arith

module _ (lower_rune : ℕ → ℕ) where
  alarm-contribution :
      (s : ExternalContentSafety) → alarm (contribution lower_rune s) ≡ is_alarming lower_rune s
  alarm-contribution s = elim (Bool-cases (is_alarming lower_rune s)) [
    | inl taints ↦
        let held : contribution lower_rune s ≡ record {
          suspicious = s.suspicious;
          rank = risk_rank lower_rune s.risk_level;
          external = is_external s;
        } =
          rw taints in
        ap alarm held ∙ sym alarming
    | inr benign ↦
        let held : contribution lower_rune s ≡ uncontaminated = rw benign in
        ap alarm held ∙ sym benign
  ]
    where
      alarming :
          is_alarming lower_rune s
          ≡ (s.suspicious || not (ltb (risk_rank lower_rune s.risk_level) 3))
      alarming = sym (contaminates_lem lower_rune s) ∙ (unfold contaminates in refl)

  -- a reading of `scope` that is suspicious or of high risk
  unfoldable pub taints_scope : Text → Text × ExternalContentSafety → Bool
  unfolding text_eq is_alarming
  taints_scope scope (turn, s) = text_eq turn scope && is_alarming lower_rune s

  some_of-nil : (scope : Text) → some_of (taints_scope scope) [] ≡ false
  some_of-nil scope = unfold some_of in refl

  alarm-worst_alarming :
      (scope : Text) (readings : List (Text × ExternalContentSafety))
      → alarm (worst_alarming lower_rune scope readings) ≡ some_of (taints_scope scope) readings
  alarm-worst_alarming scope [] =
      ap alarm (worst_alarming-nil lower_rune scope) ∙ sym (some_of-nil scope)
  alarm-worst_alarming scope ((turn, s) ∷ readings) =
      ap alarm (worst_alarming_lem lower_rune scope turn s readings)
      ∙ (elim (Bool-cases (text_eq turn scope)) [
        | inl same ↦ ground (
          arith,
          alarm-join (contribution lower_rune s) (worst_alarming lower_rune scope readings),
          alarm-contribution s,
          alarm-worst_alarming scope readings,
          some_of_lem,
        )
        | inr other ↦ ground (arith, alarm-worst_alarming scope readings, some_of_lem)
      ])
    where
      some_of_lem : some_of (taints_scope scope) ((turn, s) ∷ readings) ≡ (
          (text_eq turn scope && is_alarming lower_rune s) || some_of (taints_scope scope) readings)
      some_of_lem = unfold some_of in unfold taints_scope in refl

  -- A turn is contaminated exactly if it was before or one of its own readings is suspicious or of high risk.
  pub alarm-record_all :
      (st : Store) (readings : List (Text × ExternalContentSafety)) (scope : Text)
      → alarm (contamination lower_rune (taint_of (record_all lower_rune st readings) scope)) ≡ (
          alarm (contamination lower_rune (taint_of st scope))
          || some_of (taints_scope scope) readings)
  alarm-record_all st readings scope =
      ap alarm (record_all_refines lower_rune st readings scope)
      ∙ alarm-join (contamination lower_rune (taint_of st scope))
          (worst_alarming lower_rune scope readings)
      ∙ ap (λ b. alarm (contamination lower_rune (taint_of st scope)) || b)
          (alarm-worst_alarming scope readings)
