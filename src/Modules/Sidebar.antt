-- ===== src/Modules/Sidebar.antt =====
-- The order of the modules in the sidebar.
use agent_workspace.Prelude.{
  ◌≡◌, refl, ◌∙◌, Bool, true, false, not, ◌&&◌, ◌||◌, List, [], ◌∷◌, ◌++◌, map, Text, arith,
  text_eq_iff, elem, elem-cons, elem-append, distinct, distinct-append_one, keep, trim_space, ok,
  Result-cases, Bool-cases, inl, inr, ok-injective,
}
use agent_workspace.Modules.Catalog.{ModuleSpec, in_sidebar, order_loop, sidebar_of, order_of}
use agent_workspace.Modules.{WorkspaceModuleStore, added_module_ids, sidebar_module_order}

elem-keep :
    (p : Text → Bool) (id : Text) (xs : List Text) → elem id (keep p xs) ≡ (elem id xs && p id)
unfolding keep
elem-keep p id [] = unfold elem in refl
elem-keep p id (x ∷ xs) = elim (Bool-cases (p x)) [
  | inl y ↦ rw y (
      ground
        (arith, elem-cons id x (keep p xs), elem-cons id x xs, elem-keep p id xs, text_eq_iff id x))
  | inr n ↦ rw n (ground (arith, elem-cons id x xs, elem-keep p id xs, text_eq_iff id x))
]

order_loop-elem :
    (sidebar ids order : List Text) (id : Text)
    → elem id (order_loop sidebar ids order) ≡ (elem id order || (elem id sidebar && elem id ids))
unfolding order_loop
order_loop-elem sidebar [] order id = unfold elem in ground arith
order_loop-elem sidebar (x ∷ ids) order id =
    elim (Bool-cases (elem x sidebar && not (elem x order))) [
      | inl y ↦ rw y (
          order_loop-elem sidebar ids (order ++ x ∷ []) id
          ∙ ground (
            arith,
            elem-append id order (x ∷ []),
            elem-cons id x [],
            elem-cons id x ids,
            text_eq_iff id x,
            none_nil id,
          ))
      | inr n ↦ rw n (
          order_loop-elem sidebar ids order id
          ∙ ground (arith, elem-cons id x ids, text_eq_iff id x))
    ]
  where
    none_nil : (id : Text) → elem id [] ≡ false
    none_nil id = unfold elem in refl

order_loop-distinct :
    (sidebar ids order : List Text)
    → distinct order ≡ true
    → distinct (order_loop sidebar ids order) ≡ true
unfolding order_loop
order_loop-distinct sidebar [] order d = d
order_loop-distinct sidebar (x ∷ ids) order d =
    elim (Bool-cases (elem x sidebar && not (elem x order))) [
      | inl y ↦ rw y (
          order_loop-distinct sidebar ids (order ++ x ∷ [])
            (distinct-append_one order x d (ground arith)))
      | inr n ↦ rw n (order_loop-distinct sidebar ids order d)
    ]

order_of-elem :
    (catalog : List ModuleSpec) (added stored : List Text) (id : Text)
    → elem id (order_of catalog added stored) ≡ (elem id added && in_sidebar catalog id)
order_of-elem catalog added stored id =
    order_of_lem
    ∙ ground (
      arith,
      order_loop-elem sidebar added (order_loop sidebar (map trim_space stored) []) id,
      order_loop-elem sidebar (map trim_space stored) [] id,
      none_nil,
      in_added,
    )
  where
    sidebar : List Text
    sidebar = sidebar_of catalog added

    none_nil : elem id [] ≡ false
    none_nil = unfold elem in refl

    in_added : elem id sidebar ≡ (elem id added && in_sidebar catalog id)
    in_added = unfold sidebar_of in elem-keep (in_sidebar catalog) id added

    order_of_lem :
        elem id (order_of catalog added stored)
        ≡ elem id (order_loop sidebar added (order_loop sidebar (map trim_space stored) []))
    order_of_lem = unfold order_of in refl

-- Whatever order is stored, the sidebar shows exactly the modules of the workspace that the catalog
-- knows and that are not core, each of them once.
pub sidebar_module_order_lem :
    (store : WorkspaceModuleStore) (catalog : List ModuleSpec) (s : store.State)
    (ids order : List Text) (id : Text)
    → added_module_ids store catalog s ≡ ok ids
    → sidebar_module_order store catalog s ≡ ok order
    → (elem id order ≡ (elem id ids && in_sidebar catalog id)) × (distinct order ≡ true)
unfolding sidebar_module_order
sidebar_module_order_lem store catalog s ids order id added h =
    elim (Result-cases (store.load_order s)) [
      | inl (stored, loaded) ↦
          let e : order_of catalog ids stored ≡ order =
            ok-injective (rw (added, loaded, sidebar_module_order) at h) in
          (
            rw (← e) (order_of-elem catalog ids stored id),
            rw (← e) (
                unfold order_of in
                order_loop-distinct _ ids _
                  (order_loop-distinct _ (map trim_space stored) [] (unfold distinct in refl))),
          )
      | inr (x, failed) ↦ absurd (cc (rw (added, failed, sidebar_module_order) at h))
    ]
