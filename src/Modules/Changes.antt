-- ===== src/Modules/Changes.antt =====
-- What a successful `AddModule` and a successful `RemoveModule` leave.
use agent_workspace.Prelude.{
  ◌≡◌, refl, ap, ◌∙◌, subst, Bool, true, false, some, List, [], ◌∷◌, ◌++◌, map, Text, arith,
  text_eq_refl, elem, elem-cons, elem-append, elem-without, trim_space, trim_space_idem, length,
  ◌==◌, ==_iff, Result, ok, err, Result-cases, Option-cases, Bool-cases, inl, inr, ◌⊎◌,
  if◌then◌else◌,
}
use agent_workspace.Modules.Catalog.{ModuleSpec, module_by_id, stored_set, added_of, shown, without}
use agent_workspace.Modules.{
  ModuleError, WorkspaceModuleStore, behind, show_module, show_known, add_module, add_known,
  added_module_ids,
}
use agent_workspace.Modules.Fence.{StoreLaws, keep_all, shown-elem, show_module-added}
use agent_workspace.Modules.Membership.{
  IsCatalog, found-id, elem-added_of, stored_id, stored_set-append_one, stored_set-Stable,
  added_of-Stable, without-Stable,
}

added_itself :
    (catalog : List ModuleSpec) (id : Text) (ids : List Text) (spec : ModuleSpec)
    → IsCatalog catalog
    → module_by_id catalog id ≡ some spec
    → spec.coming_soon ≡ false
    → elem id (added_of catalog (ids ++ id ∷ [])) ≡ true
added_itself catalog id ids spec ok_catalog known ready =
    elem-added_of id catalog spec (ids ++ id ∷ []) ok_catalog known
    ∙ rw
        (
          stored_set-append_one ids id,
          stored_id id catalog spec ok_catalog known,
          found-id id catalog spec known,
        )
        (ground
          (arith, elem-append id (stored_set ids) (id ∷ []), elem-cons id id [], text_eq_refl id))

-- a module that is not core is gone once its id is taken from the ids that were added
pub removed_itself :
    (catalog : List ModuleSpec) (id : Text) (stored : List Text) (spec : ModuleSpec)
    → IsCatalog catalog
    → module_by_id catalog id ≡ some spec
    → spec.core ≡ false
    → elem id (added_of catalog (without id (added_of catalog stored))) ≡ false
removed_itself catalog id stored spec ok_catalog known optional =
    let ids = added_of catalog stored in
    elem-added_of id catalog spec (without id ids) ok_catalog known
    ∙ rw
        (
          stored_set-Stable (without id ids)
              (without-Stable id ids (added_of-Stable catalog stored ok_catalog)),
          found-id id catalog spec known,
        )
        (ground (arith, gone ids, optional))
  where
    gone : (ids : List Text) → elem id (without id ids) ≡ false
    gone ids = unfold without in (elem-without id id ids ∙ rw (text_eq_refl id))

module _ (store : WorkspaceModuleStore) (laws : StoreLaws store) (catalog : List ModuleSpec) where
  open store use {State, load_added, load_hidden, save_added, save_hidden}

  -- no stored hidden entry is the module's id
  pub record Visible (t : State) (id : Text) : Type 0 where
    pub hidden : List Text
    pub loaded : load_hidden t ≡ ok hidden
    pub visible : elem id (map trim_space hidden) ≡ false

  show_known-Visible :
      (s t : State) (id : Text) → show_known store catalog s id ≡ (t, ok tt) → Visible t id
  unfolding show_known
  show_known-Visible s t id e = elim (Result-cases (load_hidden s)) [
    | inl (hidden, h) ↦
        kept hidden h (Bool-cases (length (shown id hidden) == length hidden)) (rw h at e)
    | inr (x, h) ↦ absurd (no_error (ap (λ p. p.1) (rw h at e)))
  ]
    where
      no_error : {x : ModuleError} → ◌≡◌ {A = Result ModuleError (Unit {0})} (err x) (ok tt) → ⊥
      no_error q = cc

      all_kept :
          (hidden : List Text)
          → (length (shown id hidden) == length hidden) ≡ true
          → shown id hidden ≡ hidden
      all_kept hidden same = unfold shown in keep_all _ hidden ((==_iff _ _).0 same)

      kept :
          (hidden : List Text)
          → load_hidden s ≡ ok hidden
          → ((length (shown id hidden) == length hidden) ≡ true)
            ⊎ ((length (shown id hidden) == length hidden) ≡ false)
          → ◌≡◌ {A = State × Result ModuleError (Unit {0})}
              (if length (shown id hidden) == length hidden
                then (s, ok tt)
                else save_hidden (shown id hidden) s)
              (t, ok tt)
          → Visible t id
      kept hidden h (inl same) q = record {
        hidden = hidden;
        loaded = subst (λ u. load_hidden u ≡ ok hidden) (ap (λ p. p.0) (rw same at q)) h;
        visible =
            subst (λ xs. elem id (map trim_space xs) ≡ false) (all_kept hidden same)
              (shown-elem id hidden);
      }
      kept hidden h (inr fewer) q = record {
        hidden = shown id hidden;
        loaded = laws.hidden_saved (shown id hidden) s t (rw fewer at q);
        visible = shown-elem id hidden;
      }

  pub show_module-Visible :
      (s t : State) (id : Text)
      → show_module store catalog s id ≡ (t, ok tt)
      → Visible t (trim_space id)
  unfolding show_module
  show_module-Visible s t id e = elim (Option-cases (module_by_id catalog (trim_space id))) [
    | inl unknown ↦ absurd (cc (ap (λ p. p.1) (rw (unknown, show_module) at e)))
    | inr (spec, known) ↦ show_known-Visible s t (trim_space id) (rw (known, show_module) at e)
  ]

  -- the module's id is in the workspace
  pub record Added (t : State) (id : Text) (present : Bool) : Type 0 where
    pub ids : List Text
    pub loaded : added_module_ids store catalog t ≡ ok ids
    pub member : elem id ids ≡ present

  added_ok :
      (t : State) (stored ids : List Text)
      → load_added t ≡ ok stored
      → added_of catalog stored ≡ ids
      → added_module_ids store catalog t ≡ ok ids
  unfolding added_module_ids
  added_ok t stored ids h e = rw (h, e)

  pub behind_ok :
      (r : State × Result ModuleError (Unit {0}))
      (f : State → State × Result ModuleError (Unit {0})) (t : State)
      → behind store catalog r f ≡ (t, ok tt)
      → (u : State) × (r ≡ (u, ok tt)) × (f u ≡ (t, ok tt))
  behind_ok (u, ok tt) f t e = (u, refl, e)
  behind_ok (u, err x) f t e = absurd (cc (ap (λ p. p.1) e))

  unchanged-Added :
      (s t : State) (id : Text) (ids : List Text) (present : Bool)
      → added_module_ids store catalog s ≡ ok ids
      → elem id ids ≡ present
      → load_added t ≡ load_added s
      → Added t id present
  unchanged-Added s t id ids present h m e = record {
    ids = ids;
    loaded = unfold added_module_ids in rw e h;
    member = m;
  }

  pub saved-Added :
      (s u t : State) (id : Text) (ids : List Text) (present : Bool)
      → save_added ids s ≡ (u, ok tt)
      → show_module store catalog u id ≡ (t, ok tt)
      → elem id (added_of catalog ids) ≡ present
      → Added t id present
  saved-Added s u t id ids present saved shown_ok m = record {
    ids = added_of catalog ids;
    loaded =
        added_ok t ids (added_of catalog ids)
          (subst (λ r. load_added r ≡ ok ids) (ap (λ p. p.0) shown_ok)
            (show_module-added store laws catalog u id ∙ laws.added_saved ids s u saved))
          refl;
    member = m;
  }

  pub after_show-Added :
      (s t : State) (id : Text) (ids : List Text) (present : Bool)
      → added_module_ids store catalog s ≡ ok ids
      → elem id ids ≡ present
      → show_module store catalog s id ≡ (t, ok tt)
      → Added t id present
  after_show-Added s t id ids present h m shown_ok = unchanged-Added s t id ids present h m (
      subst (λ r. load_added r ≡ load_added s) (ap (λ p. p.0) shown_ok)
        (show_module-added store laws catalog s id))

  add_known_lem :
      (s t : State) (id : Text) (spec : ModuleSpec)
      → IsCatalog catalog
      → module_by_id catalog id ≡ some spec
      → add_known store catalog s id spec ≡ (t, ok tt)
      → Added t id true × ((u : State) × (show_module store catalog u id ≡ (t, ok tt)))
  unfolding add_known
  add_known_lem s t id spec ok_catalog known e = elim (Bool-cases spec.coming_soon) [
    | inl soon ↦ absurd (cc (ap (λ p. p.1) (rw (soon, add_known) at e)))
    | inr ready ↦ elim (Result-cases (added_module_ids store catalog s)) [
      | inr (x, failed) ↦ absurd (cc (ap (λ p. p.1) (rw (failed, ready, add_known) at e)))
      | inl (ids, loaded) ↦ elim (Bool-cases (elem id ids)) [
        | inl old ↦
            let q = rw (loaded, ready, old, add_known) at e in
            (after_show-Added s t id ids true loaded old q, (s, q))
        | inr fresh ↦
            let (u, saved, q) =
              behind_ok (save_added (ids ++ id ∷ []) s) (λ u. show_module store catalog u id) t
                (rw (loaded, ready, fresh, add_known) at e) in
            (
              saved-Added s u t id (ids ++ id ∷ []) true saved q
                  (added_itself catalog id ids spec ok_catalog known ready),
              (u, q),
            )
      ]
    ]
  ]

  -- If adding a module succeeds, the module is afterwards in the workspace, and no entry of the stored
  -- hidden list is its id.
  pub add_module_lem :
      (s t : State) (id : Text)
      → IsCatalog catalog
      → add_module store catalog s id ≡ (t, ok tt)
      → Added t (trim_space id) true × Visible t (trim_space id)
  unfolding add_module
  add_module_lem s t id ok_catalog e = elim (Option-cases (module_by_id catalog (trim_space id))) [
    | inl unknown ↦ absurd (cc (ap (λ p. p.1) (rw (unknown, add_module) at e)))
    | inr (spec, known) ↦
        let (added, (u, shown_ok)) =
          add_known_lem s t (trim_space id) spec ok_catalog known (rw (known, add_module) at e) in
        (
          added,
          subst (Visible t) (trim_space_idem id) (show_module-Visible u t (trim_space id) shown_ok),
        )
  ]
