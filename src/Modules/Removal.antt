-- ===== src/Modules/Removal.antt =====
-- What `RemoveModule` leaves, and which modules it refuses.
use agent_workspace.Prelude.{
  ◌≡◌, sym, ap, ◌∙◌, subst, true, false, ◌||◌, some, List, Text, arith, elem, elem-without,
  text_eq_refl, trim_space, trim_space_idem, length, ◌==◌, ==_iff, ok, err, Result-cases,
  Option-cases, Bool-cases, inl, inr, ◌⊎◌, ok-injective, if◌then◌else◌,
}
use agent_workspace.Modules.Catalog.{ModuleSpec, module_by_id, added_of, without}
use agent_workspace.Modules.{
  core_not_removable, fixed_not_removable, WorkspaceModuleStore, show_module, remove_module,
  remove_known, added_module_ids,
}
use agent_workspace.Modules.Fence.{StoreLaws, keep_all}
use agent_workspace.Modules.Membership.{IsCatalog}
use agent_workspace.Modules.Changes.{
  Added, Visible, behind_ok, saved-Added, removed_itself, show_module-Visible,
}

module _ (store : WorkspaceModuleStore) (laws : StoreLaws store) (catalog : List ModuleSpec) where
  open store use {State, load_added, save_added}

  stored_of :
      (s : State) (ids : List Text)
      → added_module_ids store catalog s ≡ ok ids
      → (stored : List Text) × (added_of catalog stored ≡ ids)
  unfolding added_module_ids
  stored_of s ids h = elim (Result-cases (load_added s)) [
    | inl (stored, loaded) ↦ (stored, ok-injective (rw (loaded, added_module_ids) at h))
    | inr (x, failed) ↦ absurd (cc (rw (failed, added_module_ids) at h))
  ]

  none_taken :
      (id : Text) (ids : List Text)
      → (length (without id ids) == length ids) ≡ true
      → elem id ids ≡ false
  unfolding without
  none_taken id ids same =
      ap (elem id) (sym (keep_all _ ids ((==_iff _ _).0 same)))
      ∙ elem-without id id ids
      ∙ rw (text_eq_refl id)

  -- the module was in the workspace, so its id was taken from the stored list, or it was not
  remove_known_lem :
      (s t : State) (id : Text) (spec : ModuleSpec)
      → IsCatalog catalog
      → module_by_id catalog id ≡ some spec
      → remove_known store catalog s id spec ≡ (t, ok tt)
      → Added store laws catalog t id false
        × ((t ≡ s) ⊎ ((u : State) × (show_module store catalog u id ≡ (t, ok tt))))
  unfolding remove_known
  remove_known_lem s t id spec ok_catalog known e = elim (Bool-cases spec.core) [
    | inl core ↦ absurd (cc (ap (λ p. p.1) (rw (core, remove_known) at e)))
    | inr optional ↦ elim (Bool-cases spec.fixed) [
      | inl fixed ↦ absurd (cc (ap (λ p. p.1) (rw (optional, fixed, remove_known) at e)))
      | inr loose ↦ elim (Result-cases (added_module_ids store catalog s)) [
        | inr (x, failed) ↦
            absurd (cc (ap (λ p. p.1) (rw (optional, loose, failed, remove_known) at e)))
        | inl (ids, loaded) ↦ elim (Bool-cases (length (without id ids) == length ids)) [
          | inl same ↦
              let q : s ≡ t =
                ap (λ p. p.0) (rw (optional, loose, loaded, same, remove_known) at e) in
              (
                record { ids = ids; loaded = rw (← q) loaded; member = none_taken id ids same },
                inl (sym q),
              )
          | inr fewer ↦
              let (u, saved, q) =
                behind_ok store laws catalog (save_added (without id ids) s)
                  (λ u. show_module store catalog u id) t
                  (rw (optional, loose, loaded, fewer, remove_known) at e) in
              let (stored, of_stored) = stored_of s ids loaded in
              (
                saved-Added store laws catalog s u t id (without id ids) false saved q (
                    subst (λ xs. elem id (added_of catalog (without id xs)) ≡ false) of_stored
                      (removed_itself catalog id stored spec ok_catalog known optional)),
                inr (u, q),
              )
        ]
      ]
    ]
  ]

  -- If removing a module succeeds, the module is afterwards not in the workspace; and unless nothing was
  -- changed, no entry of the stored hidden list is its id.
  pub remove_module_lem :
      (s t : State) (id : Text)
      → IsCatalog catalog
      → remove_module store catalog s id ≡ (t, ok tt)
      → Added store laws catalog t (trim_space id) false
        × ((t ≡ s) ⊎ Visible store laws catalog t (trim_space id))
  unfolding remove_module
  remove_module_lem s t id ok_catalog e =
      elim (Option-cases (module_by_id catalog (trim_space id))) [
        | inl unknown ↦ absurd (cc (ap (λ p. p.1) (rw (unknown, remove_module) at e)))
        | inr (spec, known) ↦
            let (gone, changed) =
              remove_known_lem s t (trim_space id) spec ok_catalog known
                (rw (known, remove_module) at e) in
            (gone, shown_again changed)
      ]
    where
      shown_again :
          (t ≡ s) ⊎ ((u : State) × (show_module store catalog u (trim_space id) ≡ (t, ok tt)))
          → (t ≡ s) ⊎ Visible store laws catalog t (trim_space id)
      shown_again (inl same) = inl same
      shown_again (inr (u, q)) = inr (
          subst (Visible store laws catalog t) (trim_space_idem id)
            (show_module-Visible store laws catalog u t (trim_space id) q))

  -- A core or fixed module is never removed: the call is refused and leaves the store as it was.
  pub remove_module_refused :
      (s : State) (id : Text) (spec : ModuleSpec)
      → module_by_id catalog (trim_space id) ≡ some spec
      → (spec.core || spec.fixed) ≡ true
      → remove_module store catalog s id
        ≡ (s, err (if spec.core then core_not_removable else fixed_not_removable))
  unfolding remove_module remove_known
  remove_module_refused s id spec known kept = elim (Bool-cases spec.core) [
    | inl core ↦ rw (known, core, remove_module)
    | inr optional ↦ elim (Bool-cases spec.fixed) [
      | inl fixed ↦ rw (known, optional, fixed, remove_module)
      | inr loose ↦ absurd (ground arith)
    ]
  ]
