-- ===== src/Cooldown/Tests.antt =====
-- Runs of the circuit breaker, and instances of its theorems there.
use agent_workspace.Prelude.{
  ◌+◌, ◌≡◌, refl, arith, true, false, [], ◌∷◌, Text, codes, has_key, pos, negsuc,
}
use agent_workspace.Cooldown.{ProviderCooldown, penalize, active, until_restart}
use agent_workspace.Cooldown.Lazy.{after, ask_benched, active-after}

abbrev provider_a : Text
provider_a = codes "anthropic"

abbrev provider_b : Text
provider_b = codes "openai"

-- one provider is benched until time 20
abbrev one_benched : ProviderCooldown
one_benched = record { until = (provider_a, 20) ∷ []; duration = pos 10 }

-- A provider leaves the bench at its deadline, and is then forgotten.
active_run :
    (active one_benched provider_a 19 ≡ (one_benched, true))
    × ((active one_benched provider_a 20).0.until ≡ [])
    × ((active one_benched provider_b 19).1 ≡ false)
unfolding active
active_run = (refl, refl, refl)

-- A negative duration benches until the restart.
penalize_run :
    (penalize (record { until = []; duration = negsuc 0 }) provider_a 5).until
    ≡ (provider_a, 5 + until_restart) ∷ []
unfolding penalize
penalize_run = refl

active-after_example :
    (active (after ask_benched one_benched 15) provider_a 19).1
    ≡ (active one_benched provider_a 19).1
unfolding has_key
active-after_example =
    active-after ask_benched one_benched provider_a 15 19 (refl, tt) (omega arith)
