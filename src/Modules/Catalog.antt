-- ===== src/Modules/Catalog.antt =====
-- internal/domain/module.go (the declaration of a module, `ModuleByID`), and what
-- internal/application/modules.go computes from the catalog and the stored lists alone.
use agent_workspace.Prelude.{
  ℕ, zero, suc, ◌+◌, Bool, true, false, not, ◌&&◌, ◌||◌, Option, none, some, List, [], ◌∷◌, ◌++◌,
  map, Text, codes, text_eq, elem, trim_space, keep, length, leb, if◌then◌else◌,
}

pub record ModuleAction : Type 0 where
  pub name : Text
  pub args : Text
  pub summary : Text

pub record ModuleSpec : Type 0 where
  pub id : Text
  pub name : Text
  pub icon : Text
  pub description : Text
  pub actions : List ModuleAction
  pub prompt : Text
  pub core : Bool
  pub fixed : Bool
  pub coming_soon : Bool

unfoldable pub module_by_id : List ModuleSpec → Text → Option ModuleSpec
unfolding text_eq
module_by_id [] id = none
module_by_id (spec ∷ catalog) id =
    let rest = module_by_id catalog id in if text_eq spec.id id then some spec else rest

abbrev pub legacy_tasks_id : Text
legacy_tasks_id = codes "backlog"

abbrev pub tasks_id : Text
tasks_id = codes "tasks"

unfoldable pub legacy_module_id : Text → Text
unfolding text_eq
legacy_module_id id = if text_eq id legacy_tasks_id then tasks_id else id

-- the keys of `storedSet` and of the result of `hiddenModuleSet`
unfoldable pub stored_set : List Text → List Text
unfolding legacy_module_id trim_space
stored_set stored = map (λ id. legacy_module_id (trim_space id)) stored

-- the loop of `AddedModuleIDs` over the catalog
unfoldable pub added_loop : List ModuleSpec → List Text → List Text
unfolding elem
added_loop [] set = []
added_loop (spec ∷ catalog) set =
    let ids = added_loop catalog set in
    if spec.core || (elem spec.id set && not spec.coming_soon) then spec.id ∷ ids else ids

unfoldable pub added_of : List ModuleSpec → List Text → List Text
unfolding added_loop stored_set
added_of catalog stored = added_loop catalog (stored_set stored)

unfoldable pub is_core : Option ModuleSpec → Bool
is_core none = false
is_core (some spec) = spec.core

unfoldable pub is_known : Option ModuleSpec → Bool
is_known none = false
is_known (some spec) = true

-- the test of the loop that fills `sidebar`, and of the one in `HideAllModules`
unfoldable pub in_sidebar : List ModuleSpec → Text → Bool
unfolding module_by_id is_known is_core
in_sidebar catalog id =
    is_known (module_by_id catalog id) && not (is_core (module_by_id catalog id))

-- both loops that fill `order`; the keys of `seen` are `order`
unfoldable pub order_loop : List Text → List Text → List Text → List Text
unfolding elem
order_loop sidebar [] order = order
order_loop sidebar (id ∷ ids) order =
    order_loop sidebar ids
      (if elem id sidebar && not (elem id order) then order ++ id ∷ [] else order)

unfoldable pub sidebar_of : List ModuleSpec → List Text → List Text
unfolding in_sidebar keep
sidebar_of catalog added = keep (in_sidebar catalog) added

unfoldable pub order_of : List ModuleSpec → List Text → List Text → List Text
unfolding sidebar_of order_loop trim_space
order_of catalog added stored =
    let sidebar = sidebar_of catalog added in
    order_loop sidebar added (order_loop sidebar (map trim_space stored) [])

-- the loop of `HideAllModules`
unfoldable pub hide_rest : List ModuleSpec → List Text → List Text → List Text
unfolding in_sidebar elem
hide_rest catalog hidden_set [] = []
hide_rest catalog hidden_set (id ∷ added) =
    let rest = hide_rest catalog hidden_set added in
    if not (in_sidebar catalog id)
    then rest
    else if not (elem id hidden_set)
    then id ∷ rest
    else rest

-- the index of the first entry that is `id`
unfoldable pub index_of : Text → List Text → Option ℕ
unfolding text_eq
index_of id [] = none
index_of id (x ∷ xs) =
    let rest = index_of id xs in
    if text_eq x id then some 0 else elim rest [ none ↦ none | some i ↦ some (suc i) ]

-- swaps the entries at `i` and `i + 1`
unfoldable pub swap_next : ℕ → List Text → List Text
swap_next i [] = []
swap_next i (x ∷ []) = x ∷ []
swap_next zero (x ∷ y ∷ ys) = y ∷ x ∷ ys
swap_next (suc i) (x ∷ y ∷ ys) = x ∷ swap_next i (y ∷ ys)

-- the loop of `NavigableViews`
unfoldable pub views_loop : List Text → List Text → List Text
unfolding elem
views_loop [] views = views
views_loop (id ∷ added) views = views_loop added (if elem id views then views else views ++ id ∷ [])

-- the entries that `ShowModule` keeps
unfoldable pub shown : Text → List Text → List Text
unfolding keep text_eq trim_space
shown id hidden = keep (λ existing. not (text_eq (trim_space existing) id)) hidden

-- the order with the module at `index` one slot up or down, `none` past an edge
unfoldable pub moved : Bool → ℕ → List Text → Option (List Text)
unfolding swap_next
moved true zero order = none
moved true (suc index) order = some (swap_next index order)
moved false index order =
    if leb (length order) (index + 1) then none else some (swap_next index order)

-- the entries that `RemoveModule` keeps
unfoldable pub without : Text → List Text → List Text
unfolding keep text_eq
without id added = keep (λ existing. not (text_eq existing id)) added
