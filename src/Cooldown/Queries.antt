-- ===== src/Cooldown/Queries.antt =====
-- What a query answers after a penalty, and that the queries agree with one another.
use agent_workspace.Prelude.{
  ℕ, ◌+◌, Bool, false, ◌≡◌, refl, Option, none, some, [], ◌∷◌, Text, arith, text_eq, text_eq_iff,
  is_empty, elem, elem-cons, some_of, text_lt, text_lt_asym, IsSorted, sort_stable-IsSorted,
  sort_stable-some_of, Dict, IsDict, has_key, lookup, lookup-insert, ltb, if◌then◌else◌, sym, ◌∙◌,
}
use agent_workspace.Cooldown.{
  ProviderCooldown, bench_for, is_zero, penalize, active, remaining, benched, benched_ids,
}

-- whether a deadline, if there is one, lies ahead
abbrev pub ahead : ℕ → Option ℕ → Bool
ahead now none = false
ahead now (some deadline) = ltb now deadline

pub active_lem :
    (c : ProviderCooldown) (id : Text) (now : ℕ)
    → (active c id now).1 ≡ ahead now (lookup id c.until)
unfolding active
active_lem c id now = ground arith

-- After a penalty at time `now` under a duration that is not zero, the provider is benched at a time
-- `later` exactly until the duration has passed (100 years for a negative one), and every other
-- provider is benched as it was before.
pub active-penalize :
    (c : ProviderCooldown) (id other : Text) (now later : ℕ)
    → is_empty id ≡ false
    → is_zero c.duration ≡ false
    → (active (penalize c id now) other later).1 ≡ (
        if text_eq id other
        then ltb later (now + bench_for c.duration)
        else (active c other later).1)
active-penalize c id other now later named timed =
    active_lem (penalize c id now) other later
    ∙ rw (active_lem c other later) (
        unfold penalize in
        ground (arith, lookup-insert id other (now + bench_for c.duration) c.until))

-- A provider is benched exactly when some of its time remains, and both queries leave the same state.
pub active-remaining :
    (c : ProviderCooldown) (id : Text) (now : ℕ)
    → ((active c id now).1 ≡ ltb 0 (remaining c id now).1)
      × ((active c id now).0 ≡ (remaining c id now).0)
unfolding active remaining
active-remaining c id now = ground arith

benched_ids_lem :
    (now : ℕ) (j : Text) (deadline : ℕ) (m : Dict ℕ)
    → benched_ids now ((j, deadline) ∷ m)
      ≡ (if ltb now deadline then j ∷ benched_ids now m else benched_ids now m)
unfolding benched_ids
benched_ids_lem now j deadline m = refl

lookup_lem :
    (id j : Text) (deadline : ℕ) (m : Dict ℕ)
    → lookup id ((j, deadline) ∷ m) ≡ (if text_eq j id then some deadline else lookup id m)
unfolding lookup
lookup_lem id j deadline m = refl

absent : (j : Text) (m : Dict ℕ) → has_key j m ≡ false → lookup j m ≡ none
unfolding has_key
absent j m h = ground arith

-- the deadlines of a map: an id is collected exactly if its deadline lies ahead
benched_ids-elem :
    (now : ℕ) (m : Dict ℕ) (id : Text)
    → IsDict m
    → elem id (benched_ids now m) ≡ ahead now (lookup id m)
benched_ids-elem now [] id d = unfold elem some_of benched_ids lookup in refl
benched_ids-elem now ((j, deadline) ∷ m) id (fresh, d) = ground (
  arith,
  benched_ids_lem now j deadline m,
  lookup_lem id j deadline m,
  elem-cons id j (benched_ids now m),
  benched_ids-elem now m id d,
  text_eq_iff j id,
  text_eq_iff id j,
  absent j m fresh,
)

-- `Benched` lists exactly the providers that are benched at that time, in the order of strings.
pub benched_lem :
    (c : ProviderCooldown) (id : Text) (now : ℕ)
    → IsDict c.until
    → (elem id (benched c now).1 ≡ (active c id now).1) × IsSorted text_lt (benched c now).1
unfolding benched
benched_lem c id now d = (
  unfold elem in
      (sort_stable-some_of text_lt (text_eq id) (benched_ids now c.until)
        ∙ benched_ids-elem now c.until id d
        ∙ sym (active_lem c id now)),
  sort_stable-IsSorted text_lt text_lt_asym (benched_ids now c.until),
)
