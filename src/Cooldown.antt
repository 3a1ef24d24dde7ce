-- ===== src/Cooldown.antt =====
-- internal/application/provider_cooldown.go: the circuit breaker for the chain of LLM providers. Times
-- and durations are in nanoseconds; what the clock `c.now` returns at a call is the argument `now`.
-- Each method holds the mutex for its whole body, so a method is one step.
pub mod Queries
pub mod Lazy
mod Tests
use agent_workspace.Prelude.{
  ℕ, ◌+◌, ◌-◌, ◌*◌, ◌^◌, Bool, true, false, not, Option, none, some, List, [], ◌∷◌, Text, is_empty,
  text_lt, sort_stable, Dict, lookup, insert, delete, ltb, leb, if◌then◌else◌, ℤ, pos, negsuc,
}

pub record ProviderCooldown : Type 0 where
  pub until : Dict ℕ
  pub duration : ℤ

abbrev pub new_provider_cooldown : ℤ → ProviderCooldown
new_provider_cooldown duration = record { until = []; duration = duration }

-- 100 * 365 * 24 * time.Hour
abbrev pub until_restart : ℕ
until_restart = 100 * 365 * 24 * 3600000000000

-- the greatest time.Duration; `Time.Sub` stops there
abbrev pub max_duration : ℕ
max_duration = 2 ^ 63 - 1

unfoldable pub set_duration : ProviderCooldown → ℤ → ProviderCooldown
set_duration c duration = record c { duration = duration }

unfoldable pub bench_for : ℤ → ℕ
bench_for (pos d) = d
bench_for (negsuc d) = until_restart

abbrev is_zero : ℤ → Bool
is_zero (pos d) = leb d 0
is_zero (negsuc d) = false

unfoldable pub penalize : ProviderCooldown → Text → ℕ → ProviderCooldown
unfolding is_empty bench_for insert
penalize c provider_id now =
    if is_empty provider_id
    then c
    else if is_zero c.duration
    then c
    else record c { until = insert provider_id (now + bench_for c.duration) c.until }

-- what `Active` and `Remaining` do with the deadline that they find
abbrev active_at : ProviderCooldown → Text → ℕ → Option ℕ → ProviderCooldown × Bool
active_at c provider_id now none = (c, false)
active_at c provider_id now (some deadline) =
    if not (ltb now deadline)
    then (record c { until = delete provider_id c.until }, false)
    else (c, true)

unfoldable pub active : ProviderCooldown → Text → ℕ → ProviderCooldown × Bool
unfolding lookup delete
active c provider_id now = active_at c provider_id now (lookup provider_id c.until)

-- `deadline.Sub(now)`, where it is positive
abbrev pub until_deadline : ℕ → ℕ → ℕ
until_deadline deadline now =
    if ltb max_duration (deadline - now) then max_duration else deadline - now

abbrev remaining_at : ProviderCooldown → Text → ℕ → Option ℕ → ProviderCooldown × ℕ
remaining_at c provider_id now none = (c, 0)
remaining_at c provider_id now (some deadline) =
    if leb deadline now
    then (record c { until = delete provider_id c.until }, 0)
    else (c, until_deadline deadline now)

unfoldable pub remaining : ProviderCooldown → Text → ℕ → ProviderCooldown × ℕ
unfolding lookup delete
remaining c provider_id now = remaining_at c provider_id now (lookup provider_id c.until)

unfoldable pub clear : ProviderCooldown → Text → ProviderCooldown
unfolding delete
clear c provider_id = record c { until = delete provider_id c.until }

unfoldable pub reset : ProviderCooldown → ProviderCooldown
reset c = record c { until = [] }

-- the loop of `Benched` over the map: what it collects, and what it leaves in the map
unfoldable pub benched_ids : ℕ → Dict ℕ → List Text
benched_ids now [] = []
benched_ids now ((id, deadline) ∷ rest) =
    let ids = benched_ids now rest in if ltb now deadline then id ∷ ids else ids

unfoldable pub unexpired : ℕ → Dict ℕ → Dict ℕ
unexpired now [] = []
unexpired now ((id, deadline) ∷ rest) =
    let kept = unexpired now rest in if ltb now deadline then (id, deadline) ∷ kept else kept

unfoldable pub benched : ProviderCooldown → ℕ → ProviderCooldown × List Text
unfolding benched_ids unexpired sort_stable text_lt
benched c now =
    (record c { until = unexpired now c.until }, sort_stable text_lt (benched_ids now c.until))
