-- ===== src/Modules.antt =====
-- The workspace modules (mini-apps): internal/application/modules.go over the port
-- `WorkspaceModuleStore` of internal/domain/ports/modules.go. The store is an argument: its loads can
-- fail, and so can its saves. `catalog` is the list that the composition root passes.
pub mod Catalog
pub mod Registry
pub mod Membership
pub mod Presence
pub mod Changes
pub mod Removal
pub mod Fence
pub mod Sidebar
pub mod Legacy
mod Tests
use agent_workspace.Prelude.{
  ℕ, zero, suc, ◌+◌, ◌-◌, Bool, true, false, not, ◌&&◌, ◌||◌, Option, none, some, List, [], ◌∷◌,
  ◌++◌, map, Text, codes, text_eq, elem, is_empty, trim_space, keep, length, ltb, leb, ◌==◌, Result,
  ok, err, ◌>>=◌, if◌then◌else◌,
}
use agent_workspace.Modules.Catalog.{
  ModuleSpec, module_by_id, added_of, order_of, hide_rest, index_of, swap_next, views_loop,
  stored_set, shown, moved, without,
}

pub data ModuleError : Type 0 where
  load_failed save_failed unknown_module not_available : ModuleError
  core_not_closable core_not_removable fixed_not_removable not_in_sidebar : ModuleError

pub record WorkspaceModuleStore : Type 1 where
  pub State : Type 0
  pub load_added : State → Result ModuleError (List Text)
  pub load_hidden : State → Result ModuleError (List Text)
  pub load_order : State → Result ModuleError (List Text)
  pub save_added : List Text → State → State × Result ModuleError (Unit {0})
  pub save_hidden : List Text → State → State × Result ModuleError (Unit {0})
  pub save_order : List Text → State → State × Result ModuleError (Unit {0})

pub record ModuleStatus : Type 0 where
  pub spec : ModuleSpec
  pub added : Bool
  pub hidden : Bool
  -- `none` is the position -1
  pub sidebar_position : Option ℕ

abbrev pub home_view : Text
home_view = codes "home"

abbrev pub settings_view : Text
settings_view = codes "settings"

module _ (store : WorkspaceModuleStore) (catalog : List ModuleSpec) where
  open store use {State, load_added, load_hidden, load_order, save_added, save_hidden, save_order}

  -- a method returns the store's new state and its error
  abbrev pub Reply : Type 0
  Reply = State × Result ModuleError (Unit {0})

  abbrev done : State → Reply
  done s = (s, ok tt)

  abbrev fail : State → ModuleError → Reply
  fail s e = (s, err e)

  -- a load, whose error is returned
  abbrev with {ℓ} : {A : Type ℓ} → Result ModuleError A → State → (A → Reply) → Reply
  with (ok a) s f = f a
  with (err e) s f = fail s e

  -- what is done behind a save that returned no error
  abbrev behind : Reply → (State → Reply) → Reply
  behind (s, ok u) f = f s
  behind (s, err e) f = fail s e

  unfoldable pub added_module_ids : State → Result ModuleError (List Text)
  unfolding added_of
  added_module_ids s = do stored ← load_added s; ok (added_of catalog stored)

  -- the loop of `AddedModuleSpecs`
  unfoldable pub specs_loop : List Text → List ModuleSpec
  unfolding module_by_id
  specs_loop [] = []
  specs_loop (id ∷ ids) =
      let specs = specs_loop ids in
      elim (module_by_id catalog id) [ none ↦ specs | some spec ↦ spec ∷ specs ]

  unfoldable pub added_module_specs : State → Result ModuleError (List ModuleSpec)
  unfolding added_module_ids specs_loop
  added_module_specs s = do ids ← added_module_ids s; ok (specs_loop ids)

  unfoldable pub hidden_module_set : State → Result ModuleError (List Text)
  unfolding stored_set
  hidden_module_set s = do stored ← load_hidden s; ok (stored_set stored)

  unfoldable pub sidebar_module_order : State → Result ModuleError (List Text)
  unfolding added_module_ids order_of
  sidebar_module_order s = do
    added ← added_module_ids s
    stored ← load_order s
    ok (order_of catalog added stored)

  unfoldable pub list_modules : State → Result ModuleError (List ModuleStatus)
  unfolding added_module_ids hidden_module_set sidebar_module_order elem index_of
  list_modules s = do
    added ← added_module_ids s
    hidden ← hidden_module_set s
    order ← sidebar_module_order s
    ok (
        map
          (λ (spec : ModuleSpec). record {
            spec = spec;
            added = elem spec.id added;
            hidden = elem spec.id added && elem spec.id hidden;
            sidebar_position = index_of spec.id order;
          })
          catalog)

  unfoldable pub hide_all_modules : State → Reply
  unfolding added_module_ids hide_rest trim_space
  hide_all_modules s = with (added_module_ids s) s λ added.
      with (load_hidden s) s
        λ hidden. save_hidden (hidden ++ hide_rest catalog (map trim_space hidden) added) s

  unfoldable pub navigable_views : State → Result ModuleError (List Text)
  unfolding added_module_ids views_loop
  navigable_views s = do
    added ← added_module_ids s
    ok (views_loop added (home_view ∷ settings_view ∷ []))

  unfoldable pub validate_restore_view : State → Text → Text
  unfolding navigable_views trim_space is_empty elem
  validate_restore_view s view =
      if is_empty (trim_space view) then home_view else elim (navigable_views s) [
        | err e ↦ home_view
        | ok views ↦ if elem (trim_space view) views then trim_space view else home_view
      ]

  hide_known : State → Text → ModuleSpec → Reply
  unfolding trim_space elem
  hide_known s id spec =
      if spec.core
      then fail s core_not_closable
      else with (load_hidden s) s λ hidden.
        if elem id (map trim_space hidden) then done s else save_hidden (hidden ++ id ∷ []) s

  unfoldable pub hide_module : State → Text → Reply
  unfolding hide_known module_by_id trim_space
  hide_module s id = elim (module_by_id catalog (trim_space id)) [
    | none ↦ fail s unknown_module
    | some spec ↦ hide_known s (trim_space id) spec
  ]

  show_known : State → Text → Reply
  unfolding shown
  show_known s id = with (load_hidden s) s λ hidden.
      if length (shown id hidden) == length hidden then done s else save_hidden (shown id hidden) s

  unfoldable pub show_module : State → Text → Reply
  unfolding show_known module_by_id trim_space
  show_module s id = elim (module_by_id catalog (trim_space id)) [
    | none ↦ fail s unknown_module
    | some spec ↦ show_known s (trim_space id)
  ]

  move_to : State → Option (List Text) → Reply
  move_to s none = done s
  move_to s (some next) = save_order next s

  move_found : State → Bool → List Text → Option ℕ → Reply
  unfolding move_to moved
  move_found s up order none = fail s not_in_sidebar
  move_found s up order (some index) = move_to s (moved up index order)

  unfoldable pub move_module : State → Text → Bool → Reply
  unfolding sidebar_module_order index_of move_found trim_space
  move_module s id up =
      with (sidebar_module_order s) s
        λ order. move_found s up order (index_of (trim_space id) order)

  add_known : State → Text → ModuleSpec → Reply
  unfolding added_module_ids show_module elem
  add_known s id spec =
      if spec.coming_soon
      then fail s not_available
      else with (added_module_ids s) s λ added.
        if elem id added
        then show_module s id
        else behind (save_added (added ++ id ∷ []) s) λ t. show_module t id

  unfoldable pub add_module : State → Text → Reply
  unfolding add_known module_by_id trim_space
  add_module s id = elim (module_by_id catalog (trim_space id)) [
    | none ↦ fail s unknown_module
    | some spec ↦ add_known s (trim_space id) spec
  ]

  remove_known : State → Text → ModuleSpec → Reply
  unfolding added_module_ids show_module without
  remove_known s id spec =
      if spec.core
      then fail s core_not_removable
      else if spec.fixed
      then fail s fixed_not_removable
      else with (added_module_ids s) s λ added.
        if length (without id added) == length added
        then done s
        else behind (save_added (without id added) s) λ t. show_module t id

  unfoldable pub remove_module : State → Text → Reply
  unfolding remove_known module_by_id trim_space
  remove_module s id = elim (module_by_id catalog (trim_space id)) [
    | none ↦ fail s unknown_module
    | some spec ↦ remove_known s (trim_space id) spec
  ]
