-- ===== src/Modules/Fence.antt =====
-- What closing, reopening and moving a module leave alone, and what reopening does, for a store that
-- keeps its three lists apart.
use agent_workspace.Prelude.{
  ℕ, ◌≤◌, ◌≡◌, refl, Bool, false, Option, none, some, List, [], ◌∷◌, ◌++◌, map, Text, arith,
  text_eq, text_eq_iff, elem, elem-cons, trim_space, keep, length, ◌==◌, ok, Result-cases,
  Option-cases, Bool-cases, inl, inr,
}
use agent_workspace.Modules.Catalog.{ModuleSpec, module_by_id, shown, moved}
use agent_workspace.Modules.{
  move_to, move_found, WorkspaceModuleStore, hide_all_modules, hide_module, hide_known, show_module,
  show_known, move_module, added_module_ids, sidebar_module_order,
}

-- The documented behaviour of the store: a save that succeeds is what the next load of that list gives,
-- and no save, whether it succeeds or fails, touches another list (the file is written atomically).
pub record StoreLaws (store : WorkspaceModuleStore) : Type 0 where
  pub added_saved :
      (ids : List Text) (s t : store.State)
      → store.save_added ids s ≡ (t, ok tt)
      → store.load_added t ≡ ok ids
  pub hidden_saved :
      (ids : List Text) (s t : store.State)
      → store.save_hidden ids s ≡ (t, ok tt)
      → store.load_hidden t ≡ ok ids
  pub order_saved :
      (ids : List Text) (s t : store.State)
      → store.save_order ids s ≡ (t, ok tt)
      → store.load_order t ≡ ok ids
  pub hidden-save_added :
      (ids : List Text) (s : store.State)
      → store.load_hidden (store.save_added ids s).0 ≡ store.load_hidden s
  pub added-save_hidden :
      (ids : List Text) (s : store.State)
      → store.load_added (store.save_hidden ids s).0 ≡ store.load_added s
  pub added-save_order :
      (ids : List Text) (s : store.State)
      → store.load_added (store.save_order ids s).0 ≡ store.load_added s

keep-length-le : (p : Text → Bool) (xs : List Text) → length (keep p xs) ≤ length xs
unfolding keep
keep-length-le p [] = omega arith
keep-length-le p (x ∷ xs) = ground (arith, keep-length-le p xs)

pub keep_all : (p : Text → Bool) (xs : List Text) → length (keep p xs) ≡ length xs → keep p xs ≡ xs
unfolding keep
keep_all p [] h = refl
keep_all p (x ∷ xs) h = ground (arith, keep_all p xs, keep-length-le p xs)

-- no entry that `ShowModule` keeps is the module's
pub shown-elem :
    (id : Text) (hidden : List Text) → elem id (map trim_space (shown id hidden)) ≡ false
unfolding shown keep
shown-elem id [] = unfold elem in refl
shown-elem id (x ∷ hidden) = elim (Bool-cases (text_eq (trim_space x) id)) [
  | inl e ↦ rw e (shown-elem id hidden)
  | inr n ↦ rw n (
      ground (
        arith,
        elem-cons id (trim_space x) (map trim_space (shown id hidden)),
        shown-elem id hidden,
        text_eq_iff id (trim_space x),
        text_eq_iff (trim_space x) id,
      ))
]

module _ (store : WorkspaceModuleStore) (laws : StoreLaws store) (catalog : List ModuleSpec) where
  open store use {State, load_added, load_hidden}

  show_known-added :
      (s : State) (id : Text) → load_added (show_known store catalog s id).0 ≡ load_added s
  unfolding show_known
  show_known-added s id = elim (Result-cases (load_hidden s)) [
    | inl (hidden, h) ↦ rw h (elim (Bool-cases (length (shown id hidden) == length hidden)) [
      | inl same ↦ rw same
      | inr fewer ↦ rw fewer (laws.added-save_hidden (shown id hidden) s)
    ])
    | inr (e, h) ↦ rw h
  ]

  hide_known-added :
      (s : State) (id : Text) (spec : ModuleSpec)
      → load_added (hide_known store catalog s id spec).0 ≡ load_added s
  unfolding hide_known
  hide_known-added s id spec = elim (Bool-cases spec.core) [
    | inl c ↦ rw c
    | inr n ↦ rw n (elim (Result-cases (load_hidden s)) [
      | inl (hidden, h) ↦ rw h (elim (Bool-cases (elem id (map trim_space hidden))) [
        | inl old ↦ rw old
        | inr new ↦ rw new (laws.added-save_hidden (hidden ++ id ∷ []) s)
      ])
      | inr (e, h) ↦ rw h
    ])
  ]

  pub show_module-added :
      (s : State) (id : Text) → load_added (show_module store catalog s id).0 ≡ load_added s
  unfolding show_module
  show_module-added s id = elim (Option-cases (module_by_id catalog (trim_space id))) [
    | inl unknown ↦ rw (unknown, show_module)
    | inr (spec, known) ↦ rw (known, show_module) (show_known-added s (trim_space id))
  ]

  hide_module-added :
      (s : State) (id : Text) → load_added (hide_module store catalog s id).0 ≡ load_added s
  unfolding hide_module
  hide_module-added s id = elim (Option-cases (module_by_id catalog (trim_space id))) [
    | inl unknown ↦ rw (unknown, hide_module)
    | inr (spec, known) ↦ rw (known, hide_module) (hide_known-added s (trim_space id) spec)
  ]

  move_to-added :
      (s : State) (next : Option (List Text))
      → load_added (move_to store catalog s next).0 ≡ load_added s
  unfolding move_to
  move_to-added s none = refl
  move_to-added s (some next) = laws.added-save_order next s

  move_found-added :
      (s : State) (up : Bool) (order : List Text) (index : Option ℕ)
      → load_added (move_found store catalog s up order index).0 ≡ load_added s
  unfolding move_found
  move_found-added s up order none = refl
  move_found-added s up order (some index) = move_to-added s (moved up index order)

  move_module-added :
      (s : State) (id : Text) (up : Bool)
      → load_added (move_module store catalog s id up).0 ≡ load_added s
  unfolding move_module
  move_module-added s id up = elim (Result-cases (sidebar_module_order store catalog s)) [
    | inl (order, h) ↦ rw (h, move_module) (move_found-added s up order _)
    | inr (e, h) ↦ rw (h, move_module)
  ]

  hide_all_modules-added :
      (s : State) → load_added (hide_all_modules store catalog s).0 ≡ load_added s
  unfolding hide_all_modules
  hide_all_modules-added s = elim (Result-cases (added_module_ids store catalog s)) [
    | inl (added, h) ↦
        rw (h, hide_all_modules)
          (elim (Result-cases (load_hidden s)) [
            | inl (hidden, g) ↦ rw (g, hide_all_modules) (laws.added-save_hidden _ s)
            | inr (e, g) ↦ rw (g, hide_all_modules)
          ])
    | inr (e, h) ↦ rw (h, hide_all_modules)
  ]

  -- Closing, reopening or moving a module, and closing all of them, are window operations: whatever
  -- their result, the modules in the workspace are afterwards the ones that were in it before.
  pub added_unchanged :
      (s : State) (id : Text) (up : Bool)
      → (added_module_ids store catalog (hide_module store catalog s id).0
          ≡ added_module_ids store catalog s)
        × (added_module_ids store catalog (show_module store catalog s id).0
            ≡ added_module_ids store catalog s)
        × (added_module_ids store catalog (move_module store catalog s id up).0
            ≡ added_module_ids store catalog s)
        × (added_module_ids store catalog (hide_all_modules store catalog s).0
            ≡ added_module_ids store catalog s)
  unfolding added_module_ids
  added_unchanged s id up = (
    rw (hide_module-added s id),
    rw (show_module-added s id),
    rw (move_module-added s id up),
    rw (hide_all_modules-added s),
  )
