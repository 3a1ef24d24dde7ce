-- ===== src/Modules/Presence.antt =====
-- Which modules of the catalog a workspace has, and that the shipped catalog is in order.
use agent_workspace.Prelude.{
  ◌≡◌, refl, sym, ◌∙◌, ap, not, ◌&&◌, ◌||◌, some, List, Text, text_eq, elem, trim_space, distinct,
  ok, ok-injective,
}
use agent_workspace.Modules.Catalog.{ModuleSpec, module_by_id, stored_set, added_of}
use agent_workspace.Modules.{WorkspaceModuleStore, added_module_ids}
use agent_workspace.Modules.Membership.{IsCatalog, elem-added_of}
use agent_workspace.Modules.Registry.{module_catalog}

-- The ids of the shipped catalog are trimmed, distinct, and none is the tasks module's old name.
pub module_catalog-IsCatalog : IsCatalog module_catalog
unfolding trim_space text_eq distinct
module_catalog-IsCatalog = record {
  trimmed = (
    refl,
    (
      refl,
      (refl, (refl, (refl, (refl, (refl, (refl, (refl, (refl, (refl, (refl, (refl, tt))))))))))),
    ),
  );
  renamed = (
    refl,
    (
      refl,
      (refl, (refl, (refl, (refl, (refl, (refl, (refl, (refl, (refl, (refl, (refl, tt))))))))))),
    ),
  );
  unique = refl;
}

-- A module of the catalog is in the workspace exactly if it is core, or if it is not coming soon and its
-- id is stored, be it with spaces around it or under the tasks module's old name.
pub added_module_ids_lem :
    (store : WorkspaceModuleStore) (catalog : List ModuleSpec) (s : store.State)
    (stored ids : List Text) (id : Text) (spec : ModuleSpec)
    → IsCatalog catalog
    → module_by_id catalog id ≡ some spec
    → store.load_added s ≡ ok stored
    → added_module_ids store catalog s ≡ ok ids
    → elem id ids ≡ (spec.core || elem spec.id (stored_set stored) && not spec.coming_soon)
unfolding added_module_ids
added_module_ids_lem store catalog s stored ids id spec in_order known loaded added =
    let e : added_of catalog stored ≡ ids = ok-injective (rw (loaded, added_module_ids) at added) in
    ap (elem id) (sym e) ∙ elem-added_of id catalog spec stored in_order known
