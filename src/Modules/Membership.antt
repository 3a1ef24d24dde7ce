-- ===== src/Modules/Membership.antt =====
-- Which modules are in the workspace after `AddModule` and `RemoveModule`.
use agent_workspace.Prelude.{
  ◌≡◌, refl, ◌∙◌, subst, Bool, true, false, not, ◌&&◌, ◌||◌, some, List, [], ◌∷◌, ◌++◌, map, Text,
  arith, text_eq, text_eq_iff, elem, elem-cons, distinct, some_of, All, trim_space, keep,
  Bool-cases, inl, inr,
}
use agent_workspace.Modules.Catalog.{
  ModuleSpec, module_by_id, legacy_module_id, legacy_tasks_id, stored_set, added_loop, added_of,
  without,
}

-- what the compiled-in catalog satisfies: ids are trimmed, none is the old name of the tasks module,
-- and none occurs twice
pub record IsCatalog (catalog : List ModuleSpec) : Type 0 where
  pub trimmed : All (λ spec. trim_space spec.id ≡ spec.id) catalog
  pub renamed : All (λ spec. text_eq spec.id legacy_tasks_id ≡ false) catalog
  pub unique : distinct (map (λ spec. spec.id) catalog) ≡ true

-- the test of the loop in `AddedModuleIDs`
abbrev pub included : List Text → ModuleSpec → Bool
included set spec = spec.core || (elem spec.id set && not spec.coming_soon)

added_loop-elem :
    (catalog : List ModuleSpec) (set : List Text) (id : Text)
    → elem id (added_loop catalog set)
      ≡ some_of (λ spec. text_eq id spec.id && included set spec) catalog
unfolding added_loop some_of
added_loop-elem [] set id = unfold elem in refl
added_loop-elem (spec ∷ catalog) set id =
    elim (Bool-cases (spec.core || (elem spec.id set && not spec.coming_soon))) [
      | inl y ↦ rw y (
          elem-cons id spec.id (added_loop catalog set)
          ∙ rw (added_loop-elem catalog set id) (ground arith))
      | inr n ↦ rw n (rw (added_loop-elem catalog set id) (ground arith))
    ]

absent_id :
    (q : ModuleSpec → Bool) (id : Text) (catalog : List ModuleSpec)
    → elem id (map (λ spec. spec.id) catalog) ≡ false
    → some_of (λ spec. text_eq id spec.id && q spec) catalog ≡ false
unfolding some_of
absent_id q id [] h = refl
absent_id q id (spec ∷ catalog) h =
    ground
      (arith, absent_id q id catalog, elem-cons id spec.id (map (λ (s : ModuleSpec). s.id) catalog))

-- where ids are unique, a statement about the specs with an id is one about the spec that is found
some_of-found :
    (q : ModuleSpec → Bool) (id : Text) (catalog : List ModuleSpec) (spec : ModuleSpec)
    → distinct (map (λ spec. spec.id) catalog) ≡ true
    → module_by_id catalog id ≡ some spec
    → some_of (λ spec. text_eq id spec.id && q spec) catalog ≡ q spec
unfolding some_of module_by_id distinct
some_of-found q id [] spec d h = cc
some_of-found q id (x ∷ catalog) spec d h = ground (
  arith,
  some_of-found q id catalog spec,
  absent_id q x.id catalog,
  text_eq_iff x.id id,
  text_eq_iff id x.id,
)

pub found-id :
    (id : Text) (catalog : List ModuleSpec) (spec : ModuleSpec)
    → module_by_id catalog id ≡ some spec
    → spec.id ≡ id
unfolding module_by_id
found-id id [] spec h = cc
found-id id (x ∷ catalog) spec h = ground (arith, found-id id catalog spec, text_eq_iff x.id id)

found-All {ℓ} :
    (P : ModuleSpec → Type ℓ) (id : Text) (catalog : List ModuleSpec) (spec : ModuleSpec)
    → All P catalog
    → module_by_id catalog id ≡ some spec
    → P spec
unfolding module_by_id
found-All P id [] spec h e = absurd (cc)
found-All P id (x ∷ catalog) spec (px, h) e = elim (Bool-cases (text_eq x.id id)) [
  | inl here ↦ subst P (ground arith) px
  | inr later ↦ found-All P id catalog spec h (rw later at e)
]

-- an id that the catalog knows is stored as it is
pub stored_id :
    (id : Text) (catalog : List ModuleSpec) (spec : ModuleSpec)
    → IsCatalog catalog
    → module_by_id catalog id ≡ some spec
    → legacy_module_id (trim_space id) ≡ id
unfolding legacy_module_id
stored_id id catalog spec ok_catalog h =
    let same : spec.id ≡ id = found-id id catalog spec h in
    let trimmed : trim_space id ≡ id =
      subst (λ i. trim_space i ≡ i) same
        (found-All (λ s. trim_space s.id ≡ s.id) id catalog spec ok_catalog.trimmed h) in
    let renamed : text_eq id legacy_tasks_id ≡ false =
      subst (λ i. text_eq i legacy_tasks_id ≡ false) same
        (found-All (λ s. text_eq s.id legacy_tasks_id ≡ false) id catalog spec ok_catalog.renamed
          h) in
    rw (trimmed, renamed)

pub elem-added_of :
    (id : Text) (catalog : List ModuleSpec) (spec : ModuleSpec) (stored : List Text)
    → IsCatalog catalog
    → module_by_id catalog id ≡ some spec
    → elem id (added_of catalog stored) ≡ included (stored_set stored) spec
unfolding added_of
elem-added_of id catalog spec stored ok_catalog h =
    added_loop-elem catalog (stored_set stored) id
    ∙ some_of-found (included (stored_set stored)) id catalog spec ok_catalog.unique h

pub stored_set-append_one :
    (xs : List Text) (y : Text)
    → stored_set (xs ++ y ∷ []) ≡ stored_set xs ++ legacy_module_id (trim_space y) ∷ []
unfolding stored_set
stored_set-append_one [] y = refl
stored_set-append_one (x ∷ xs) y = rw (stored_set-append_one xs y)

-- a list of ids that the catalog has is stored as it is
abbrev pub Stable : Text → Type 0
Stable id = legacy_module_id (trim_space id) ≡ id

pub stored_set-Stable : (xs : List Text) → All Stable xs → stored_set xs ≡ xs
unfolding stored_set
stored_set-Stable [] h = refl
stored_set-Stable (x ∷ xs) (hx, h) = rw (hx, stored_set-Stable xs h)

pub added_loop-Stable :
    (catalog : List ModuleSpec) (set : List Text)
    → All (λ spec. Stable spec.id) catalog
    → All Stable (added_loop catalog set)
unfolding added_loop
added_loop-Stable [] set h = tt
added_loop-Stable (spec ∷ catalog) set (hx, h) =
    elim (Bool-cases (spec.core || (elem spec.id set && not spec.coming_soon))) [
      | inl y ↦ rw y (hx, added_loop-Stable catalog set h)
      | inr n ↦ rw n (added_loop-Stable catalog set h)
    ]

pub without-Stable : (id : Text) (xs : List Text) → All Stable xs → All Stable (without id xs)
unfolding without keep
without-Stable id [] h = tt
without-Stable id (x ∷ xs) (hx, h) = elim (Bool-cases (text_eq x id)) [
  | inl e ↦ rw e (without-Stable id xs h)
  | inr n ↦ rw n (hx, without-Stable id xs h)
]

pub IsCatalog-Stable :
    (catalog : List ModuleSpec)
    → All (λ spec. trim_space spec.id ≡ spec.id) catalog
    → All (λ spec. text_eq spec.id legacy_tasks_id ≡ false) catalog
    → All (λ spec. Stable spec.id) catalog
unfolding legacy_module_id
IsCatalog-Stable [] t r = tt
IsCatalog-Stable (spec ∷ catalog) (hx, t) (rx, r) = (rw (hx, rx), IsCatalog-Stable catalog t r)

pub added_of-Stable :
    (catalog : List ModuleSpec) (stored : List Text)
    → IsCatalog catalog
    → All Stable (added_of catalog stored)
unfolding added_of
added_of-Stable catalog stored ok_catalog =
    added_loop-Stable catalog (stored_set stored)
      (IsCatalog-Stable catalog ok_catalog.trimmed ok_catalog.renamed)
