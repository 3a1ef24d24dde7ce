-- ===== src/Modules/Legacy.antt =====
-- A workspace that an older build stored: the tasks module under its old name in the hidden list.
use agent_workspace.Prelude.{
  ◌≡◌, refl, sym, ap, ◌∙◌, subst, true, false, List, [], ◌∷◌, map, Text, arith, text_eq,
  text_eq_iff, text_eq_refl, text_eq_comm, or_right, or_rest, elem, elem-cons, keep, trim_space,
  length, ◌==◌, ok, Option-cases, Bool-cases, inl, inr,
}
use agent_workspace.Modules.Catalog.{
  ModuleSpec, module_by_id, legacy_tasks_id, tasks_id, legacy_module_id, stored_set, shown,
}
use agent_workspace.Modules.{WorkspaceModuleStore, hidden_module_set, show_module, show_known}
use agent_workspace.Modules.Fence.{StoreLaws}

shown-other :
    (id other : Text) (hidden : List Text)
    → text_eq other id ≡ false
    → elem other (map trim_space (shown id hidden)) ≡ elem other (map trim_space hidden)
unfolding shown keep
shown-other id other [] ne = refl
shown-other id other (x ∷ hidden) ne = elim (Bool-cases (text_eq (trim_space x) id)) [
  | inl e ↦ rw e (
      ground (
        arith,
        shown-other id other hidden,
        elem-cons other (trim_space x) (map trim_space hidden),
        text_eq_iff (trim_space x) id,
        text_eq_iff other (trim_space x),
        text_eq_iff other id,
      ))
  | inr n ↦ rw n (
      ground (
        arith,
        shown-other id other hidden,
        elem-cons other (trim_space x) (map trim_space hidden),
        elem-cons other (trim_space x) (map trim_space (shown id hidden)),
      ))
]

renamed : (id : Text) → text_eq id legacy_tasks_id ≡ true → legacy_module_id id ≡ tasks_id
unfolding legacy_module_id
renamed id h = rw h

-- an entry under the old name counts as the tasks module
legacy_counts :
    (hidden : List Text)
    → elem legacy_tasks_id (map trim_space hidden) ≡ true
    → elem tasks_id (stored_set hidden) ≡ true
unfolding stored_set
legacy_counts [] h = unfold elem in cc
legacy_counts (x ∷ hidden) h = elim (Bool-cases (text_eq (trim_space x) legacy_tasks_id)) [
  | inl old ↦
      elem-cons tasks_id (legacy_module_id (trim_space x)) (stored_set hidden)
      ∙ rw (renamed (trim_space x) old, text_eq_refl tasks_id)
  | inr new ↦
      elem-cons tasks_id (legacy_module_id (trim_space x)) (stored_set hidden)
      ∙ or_right _ _ (
          legacy_counts hidden (
            or_rest _ _ (text_eq_comm legacy_tasks_id (trim_space x) ∙ new)
              (sym (elem-cons legacy_tasks_id (trim_space x) (map trim_space hidden)) ∙ h)))
]

module _ (store : WorkspaceModuleStore) (laws : StoreLaws store) (catalog : List ModuleSpec) where
  open store use {State, load_hidden, save_hidden}

  still_hidden :
      (t : State) (hidden : List Text)
      → load_hidden t ≡ ok hidden
      → elem legacy_tasks_id (map trim_space hidden) ≡ true
      → (set : List Text) × (hidden_module_set store catalog t ≡ ok set)
        × (elem tasks_id set ≡ true)
  unfolding hidden_module_set
  still_hidden t hidden h old = (stored_set hidden, rw h, legacy_counts hidden old)

  show_known_stays :
      (s t : State) (hidden : List Text)
      → load_hidden s ≡ ok hidden
      → elem legacy_tasks_id (map trim_space hidden) ≡ true
      → show_known store catalog s tasks_id ≡ (t, ok tt)
      → (set : List Text) × (hidden_module_set store catalog t ≡ ok set)
        × (elem tasks_id set ≡ true)
  unfolding show_known
  show_known_stays s t hidden loaded old e =
      elim (Bool-cases (length (shown tasks_id hidden) == length hidden)) [
        | inl same ↦
            still_hidden t hidden
              (subst (λ u. load_hidden u ≡ ok hidden)
                (ap (λ p. p.0) (rw (loaded, same, show_known) at e)) loaded)
              old
        | inr fewer ↦
            still_hidden t (shown tasks_id hidden)
              (laws.hidden_saved (shown tasks_id hidden) s t (rw (loaded, fewer, show_known) at e))
              (shown-other tasks_id legacy_tasks_id hidden (unfold text_eq in refl) ∙ old)
      ]

  -- If the stored hidden list has an entry under the tasks module's old name, then `ShowModule` of the
  -- tasks module, even where it reports success, leaves that module closed in the sidebar.
  pub show_tasks_stays_hidden :
      (s t : State) (hidden : List Text)
      → load_hidden s ≡ ok hidden
      → elem legacy_tasks_id (map trim_space hidden) ≡ true
      → show_module store catalog s tasks_id ≡ (t, ok tt)
      → (set : List Text) × (hidden_module_set store catalog t ≡ ok set)
        × (elem tasks_id set ≡ true)
  unfolding show_module
  show_tasks_stays_hidden s t hidden loaded old e =
      elim (Option-cases (module_by_id catalog (trim_space tasks_id))) [
        | inl unknown ↦ absurd (cc (ap (λ p. p.1) (rw (unknown, show_module) at e)))
        | inr (spec, known) ↦ show_known_stays s t hidden loaded old (rw (known, show_module) at e)
      ]
