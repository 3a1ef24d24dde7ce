-- ===== src/Modules/Tests.antt =====
-- Runs of the module operations on a small catalog, and instances of their theorems there.
use agent_workspace.Prelude.{
  ◌≡◌, refl, sym, ap, Bool, true, false, ◌&&◌, ◌⊎◌, List, [], ◌∷◌, Text, codes, text_eq, elem,
  trim_space, distinct, ok,
}
use agent_workspace.Modules.Catalog.{ModuleSpec, tasks_id, in_sidebar}
use agent_workspace.Modules.{
  WorkspaceModuleStore, added_module_ids, hidden_module_set, sidebar_module_order, hide_module,
  show_module, move_module, hide_all_modules, add_module, remove_module,
}
use agent_workspace.Modules.Membership.{IsCatalog}
use agent_workspace.Modules.Registry.Personal.{tasks_prompt, tasks_actions}
use agent_workspace.Modules.Fence.{StoreLaws, added_unchanged}
use agent_workspace.Modules.Changes.{Added, Visible, add_module_lem}
use agent_workspace.Modules.Removal.{remove_module_lem}
use agent_workspace.Modules.Sidebar.{sidebar_module_order_lem}
use agent_workspace.Modules.Legacy.{show_tasks_stays_hidden}

-- the three lists of a workspace's configuration file
record Lists : Type 0 where
  added : List Text
  hidden : List Text
  order : List Text

abbrev file_store : WorkspaceModuleStore
file_store = record {
  State = Lists;
  load_added = λ s. ok s.added;
  load_hidden = λ s. ok s.hidden;
  load_order = λ s. ok s.order;
  save_added = λ ids s. (record s { added = ids }, ok tt);
  save_hidden = λ ids s. (record s { hidden = ids }, ok tt);
  save_order = λ ids s. (record s { order = ids }, ok tt);
}

file_laws : StoreLaws file_store
file_laws = record {
  added_saved = λ ids s t e. ap (λ p. ok p.0.added) (sym e);
  hidden_saved = λ ids s t e. ap (λ p. ok p.0.hidden) (sym e);
  order_saved = λ ids s t e. ap (λ p. ok p.0.order) (sym e);
  hidden-save_added = λ ids s. refl;
  added-save_hidden = λ ids s. refl;
  added-save_order = λ ids s. refl;
}

abbrev spec_of : Text → Bool → ModuleSpec
spec_of id core = record {
  id = id;
  name = id;
  icon = [];
  description = [];
  actions = [];
  prompt = [];
  core = core;
  fixed = false;
  coming_soon = false;
}

abbrev small_catalog : List ModuleSpec
small_catalog =
    spec_of (codes "chat") true ∷ spec_of tasks_id false ∷ spec_of (codes "notes") false ∷ []

small_catalog-IsCatalog : IsCatalog small_catalog
unfolding trim_space text_eq distinct
small_catalog-IsCatalog = record {
  trimmed = (refl, (refl, (refl, tt)));
  renamed = (refl, (refl, (refl, tt)));
  unique = refl;
}

abbrev old_workspace : Lists
old_workspace = record {
  added = codes "backlog" ∷ [];
  hidden = codes "backlog" ∷ [];
  order = codes "notes" ∷ [];
}

abbrev with_notes : Lists
with_notes = record {
  added = codes "chat" ∷ tasks_id ∷ codes "notes" ∷ [];
  hidden = codes "backlog" ∷ [];
  order = codes "notes" ∷ [];
}

add_module_run :
    add_module file_store small_catalog old_workspace (codes " notes") ≡ (with_notes, ok tt)
unfolding add_module
add_module_run = refl

add_module_lem_example :
    Added file_store file_laws small_catalog with_notes (trim_space (codes " notes")) true
    × Visible file_store file_laws small_catalog with_notes (trim_space (codes " notes"))
add_module_lem_example =
    add_module_lem file_store file_laws small_catalog old_workspace with_notes (codes " notes")
      small_catalog-IsCatalog add_module_run

abbrev without_notes : Lists
without_notes = record {
  added = codes "chat" ∷ tasks_id ∷ [];
  hidden = codes "backlog" ∷ [];
  order = codes "notes" ∷ [];
}

remove_module_run :
    remove_module file_store small_catalog with_notes (codes "notes") ≡ (without_notes, ok tt)
unfolding remove_module
remove_module_run = refl

remove_module_lem_example :
    Added file_store file_laws small_catalog without_notes (trim_space (codes "notes")) false
    × ((without_notes ≡ with_notes)
        ⊎ Visible file_store file_laws small_catalog without_notes (trim_space (codes "notes")))
remove_module_lem_example =
    remove_module_lem file_store file_laws small_catalog with_notes without_notes (codes "notes")
      small_catalog-IsCatalog remove_module_run

added_unchanged_example :
    (added_module_ids file_store small_catalog
        (hide_module file_store small_catalog old_workspace tasks_id).0
      ≡ added_module_ids file_store small_catalog old_workspace)
    × (added_module_ids file_store small_catalog
          (show_module file_store small_catalog old_workspace tasks_id).0
        ≡ added_module_ids file_store small_catalog old_workspace)
    × (added_module_ids file_store small_catalog
          (move_module file_store small_catalog old_workspace tasks_id true).0
        ≡ added_module_ids file_store small_catalog old_workspace)
    × (added_module_ids file_store small_catalog
          (hide_all_modules file_store small_catalog old_workspace).0
        ≡ added_module_ids file_store small_catalog old_workspace)
added_unchanged_example =
    added_unchanged file_store file_laws small_catalog old_workspace tasks_id true

sidebar_module_order_lem_example :
    (elem tasks_id (codes "notes" ∷ tasks_id ∷ [])
      ≡ (elem tasks_id with_notes.added && in_sidebar small_catalog tasks_id))
    × (distinct (codes "notes" ∷ tasks_id ∷ []) ≡ true)
unfolding added_module_ids sidebar_module_order
sidebar_module_order_lem_example =
    sidebar_module_order_lem file_store small_catalog with_notes with_notes.added
      (codes "notes" ∷ tasks_id ∷ []) tasks_id refl refl

show_tasks_stays_hidden_example :
    (set : List Text) × (hidden_module_set file_store small_catalog old_workspace ≡ ok set)
    × (elem tasks_id set ≡ true)
unfolding show_module elem trim_space
show_tasks_stays_hidden_example =
    show_tasks_stays_hidden file_store file_laws small_catalog old_workspace old_workspace
      old_workspace.hidden refl refl refl

abbrev tasks_spec : ModuleSpec
tasks_spec = record {
  id = tasks_id;
  name = codes "Tasks";
  icon = codes "checklist";
  description = codes "A simple task list you and the agent share.";
  actions = tasks_actions;
  prompt = tasks_prompt;
  core = false;
  fixed = false;
  coming_soon = false;
}
