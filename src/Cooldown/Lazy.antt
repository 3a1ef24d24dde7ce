-- ===== src/Cooldown/Lazy.antt =====
-- Queries drop expired entries from the map; under a clock that does not run backwards nobody can tell.
use agent_workspace.Prelude.{
  ℕ, ◌≤◌, ◌≡◌, refl, ◌∙◌, sym, none, [], ◌∷◌, Text, arith, text_eq_iff, Dict, IsDict, has_key,
  lookup, lookup-delete,
}
use agent_workspace.Cooldown.{ProviderCooldown, active, remaining, benched, unexpired}
use agent_workspace.Cooldown.Queries.{ahead, active_lem}

unexpired-has_key :
    (now : ℕ) (m : Dict ℕ) (k : Text) → lookup k m ≡ none → lookup k (unexpired now m) ≡ none
unfolding unexpired lookup
unexpired-has_key now [] k h = refl
unexpired-has_key now ((j, deadline) ∷ m) k h = ground (arith, unexpired-has_key now m k)

-- dropping what has expired by `now` does not show at any later time
unexpired-ahead :
    (now later : ℕ) (m : Dict ℕ) (id : Text)
    → now ≤ later
    → IsDict m
    → ahead later (lookup id (unexpired now m)) ≡ ahead later (lookup id m)
unfolding unexpired lookup has_key
unexpired-ahead now later [] id le d = refl
unexpired-ahead now later ((j, deadline) ∷ m) id le (fresh, d) =
    ground
      (arith, unexpired-ahead now later m id le d, unexpired-has_key now m id, text_eq_iff j id)

pub data Query : Type 0 where
  ask_active ask_remaining : Text → Query
  ask_benched : Query

-- the state that a query leaves
abbrev pub after : Query → ProviderCooldown → ℕ → ProviderCooldown
after (ask_active id) c now = (active c id now).0
after (ask_remaining id) c now = (remaining c id now).0
after ask_benched c now = (benched c now).0

-- After any query at time `now`, a provider is benched at any time from `now` on exactly if it would
-- have been benched then without the query.
pub active-after :
    (q : Query) (c : ProviderCooldown) (id : Text) (now later : ℕ)
    → IsDict c.until
    → now ≤ later
    → (active (after q c now) id later).1 ≡ (active c id later).1
active-after q c id now later d le =
    active_lem (after q c now) id later ∙ go q ∙ sym (active_lem c id later)
  where
    go :
        (q : Query)
        → ahead later (lookup id (after q c now).until) ≡ ahead later (lookup id c.until)
    go (ask_active j) =
        unfold active in ground (arith, lookup-delete j id c.until, text_eq_iff j id)
    go (ask_remaining j) =
        unfold remaining in ground (arith, lookup-delete j id c.until, text_eq_iff j id)
    go ask_benched = unfold benched in unexpired-ahead now later c.until id le d
