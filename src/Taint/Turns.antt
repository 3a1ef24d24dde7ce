-- ===== src/Taint/Turns.antt =====
-- internal/infrastructure/externaltaint/store.go: the taint of each turn. A method holds the mutex for its
-- whole body, so it is one step; a scope is the opaque name of a turn.
use agent_workspace.Prelude.{ℕ, none, some, List, [], ◌∷◌, Text, Dict, lookup, insert}
use agent_workspace.Taint.{
  ExternalContentSafety, ExternalContentResult, ExternalTaint, clean_taint, result_safety,
  with_observation, taint_safety,
}

abbrev pub Store : Type 0
Store = Dict ExternalTaint

-- `s.taints[scope]`, with the zero value for a missing key
unfoldable pub taint_of : Store → Text → ExternalTaint
unfolding lookup
taint_of s scope = elim (lookup scope s) [ none ↦ clean_taint | some t ↦ t ]

unfoldable pub store_safety : Store → Text → ExternalContentSafety
unfolding taint_of taint_safety
store_safety s scope = taint_safety (taint_of s scope)

module _ (lower_rune : ℕ → ℕ) where
  unfoldable pub record_safety : Store → Text → ExternalContentSafety → Store
  unfolding taint_of with_observation insert
  record_safety s scope safety =
      insert scope (with_observation lower_rune (taint_of s scope) safety) s

  unfoldable pub record_external_content : Store → Text → ExternalContentResult → Store
  unfolding record_safety result_safety
  record_external_content s scope result = record_safety s scope (result_safety result)

  -- the readings of all turns, in the order in which the lock is taken
  unfoldable pub record_all : Store → List (Text × ExternalContentSafety) → Store
  unfolding record_safety
  record_all s [] = s
  record_all s ((scope, safety) ∷ rest) = record_all (record_safety s scope safety) rest
