-- ===== src/Sandbox/Resolve/Roots.antt =====
-- What `realPathAllowed` accepts, of internal/infrastructure/sandbox/resolve.go.
use agent_workspace.Prelude.{
  ◌≡◌, refl, sym, ◌∙◌, subst, ◌⊎◌, inl, inr, ◌↔◌, ◌||◌, ◌&&◌, Bool, true, false, not, Option, none,
  some, List, [], ◌∷◌, Text, text_eq, text_eq_refl, eq_of_text_eq, is_empty, trim_space, elem,
  elem-cons, elem-nil, elem-append, ◌++◌, Bool-cases, or_rest, or_right, arith, if◌then◌else◌,
}
use agent_workspace.Sandbox.Policies.{Policy, permit_list, builtin_allowed_permit_list}
use agent_workspace.Sandbox.Paths.{Env, expand_path}
use agent_workspace.Sandbox.Checker.{is_path_allowed}
use agent_workspace.Sandbox.Resolve.{
  Fs, is_inside_resolved_path, real_roots, lands_in, lands_in_any, real_path_allowed,
}

-- the workspace, and in the mode with a list the built-in folders and the allowed ones
abbrev pub IsRoot : Policy → Text → Type 0
IsRoot policy root =
    (text_eq root policy.workspace_root
      || (text_eq policy.config.mode permit_list
          && (elem root builtin_allowed_permit_list || elem root policy.config.allowed_folders)))
    ≡ true

or_left : (a b : Bool) → a ≡ true → (a || b) ≡ true
or_left a b h = ground arith

second : (b c : Bool) → b ≡ false → (if b then true else c) ≡ true → c ≡ true
second b c n h = ground arith

module _ (fs : Fs) (env : Env) where
  elem-real_roots :
      (policy : Policy) (root : Text)
      → elem root (real_roots fs env policy) ≡ (
          text_eq root policy.workspace_root
          || (text_eq policy.config.mode permit_list
              && (elem root builtin_allowed_permit_list
                  || elem root policy.config.allowed_folders)))
  unfolding real_roots
  elem-real_roots policy root = ground (
    arith,
    elem-cons root policy.workspace_root
        (builtin_allowed_permit_list ++ policy.config.allowed_folders),
    elem-cons root policy.workspace_root [],
    elem-nil root,
    elem-append root builtin_allowed_permit_list policy.config.allowed_folders,
  )

  -- a root that is not blank and is reachable, and what it really is
  pub record LandsIn (policy : Policy) (real root : Text) : Type 0 where
    pub root_given : is_empty (trim_space root) ≡ false
    pub root_allowed : is_path_allowed env root policy ≡ true
    pub real_root : Text
    pub root_resolves : fs.eval_symlinks (expand_path env root) ≡ some real_root
    pub inside : is_inside_resolved_path fs real real_root ≡ true

  -- the real path is reachable itself, or lies where a root really lies
  abbrev pub IsRealAllowed : Policy → Text → Type 0
  IsRealAllowed policy real =
      (is_path_allowed env real policy ≡ true)
      ⊎ ((root : Text) × IsRoot policy root × LandsIn policy real root)

  lands_in_lem :
      (real root : Text) (policy : Policy)
      → lands_in fs env real policy root ≡ (
          if is_empty (trim_space root) || not (is_path_allowed env root policy)
          then false
          else elim (fs.eval_symlinks (expand_path env root)) [
            | none ↦ false
            | some real_root ↦ is_inside_resolved_path fs real real_root
          ])
  lands_in_lem real root policy = unfold lands_in in refl

  lands_in-LandsIn :
      (real root : Text) (policy : Policy)
      → lands_in fs env real policy root ≡ true
      → LandsIn policy real root
  lands_in-LandsIn real root policy h =
      let (given, allowed, real_root, resolves, inside) =
        parts (fs.eval_symlinks (expand_path env root)) refl
          (sym (lands_in_lem real root policy) ∙ h) in
      record {
        root_given = given;
        root_allowed = allowed;
        real_root = real_root;
        root_resolves = resolves;
        inside = inside;
      }
    where
      parts :
          (o : Option Text)
          → fs.eval_symlinks (expand_path env root) ≡ o
          → (if is_empty (trim_space root) || not (is_path_allowed env root policy)
              then false
              else elim o [
                | none ↦ false
                | some real_root ↦ is_inside_resolved_path fs real real_root
              ])
            ≡ true
          → (is_empty (trim_space root) ≡ false)
            × (is_path_allowed env root policy ≡ true)
            × (real_root : Text) × (fs.eval_symlinks (expand_path env root) ≡ some real_root)
            × (is_inside_resolved_path fs real real_root ≡ true)
      parts none e q = absurd (ground arith)
      parts (some real_root) e q = (ground arith, ground arith, real_root, e, ground arith)

  LandsIn-lands_in :
      (real root : Text) (policy : Policy)
      → LandsIn policy real root
      → lands_in fs env real policy root ≡ true
  LandsIn-lands_in real root policy w =
      lands_in_lem real root policy ∙ rw (w.root_given, w.root_allowed, w.root_resolves, w.inside)

  lands_in_any_lem :
      (real root : Text) (policy : Policy) (roots : List Text)
      → lands_in_any fs env real policy (root ∷ roots)
        ≡ (if lands_in fs env real policy root then true else lands_in_any fs env real policy roots)
  lands_in_any_lem real root policy roots = unfold lands_in_any in refl

  some_root :
      (real : Text) (policy : Policy) (roots : List Text)
      → lands_in_any fs env real policy roots ≡ true
      → (root : Text) × (elem root roots ≡ true) × (lands_in fs env real policy root ≡ true)
  some_root real policy [] h = absurd (none_lands h)
    where
      none_lands : lands_in_any fs env real policy [] ≡ true → ⊥
      none_lands q = unfold lands_in_any in cc
  some_root real policy (root ∷ roots) h = elim (Bool-cases (lands_in fs env real policy root)) [
    | inl lands ↦
        (root, elem-cons root root roots ∙ or_left _ (elem root roots) (text_eq_refl root), lands)
    | inr misses ↦
        let further =
          some_root real policy roots
            (second _ _ misses (sym (lands_in_any_lem real root policy roots) ∙ h)) in
        (
          further.0,
          elem-cons further.0 root roots ∙ or_right (text_eq further.0 root) _ further.1,
          further.2,
        )
  ]

  any_root :
      (real root : Text) (policy : Policy) (roots : List Text)
      → elem root roots ≡ true
      → lands_in fs env real policy root ≡ true
      → lands_in_any fs env real policy roots ≡ true
  any_root real root policy [] h lands = absurd (cc (sym (elem-nil root) ∙ h))
  any_root real root policy (r ∷ roots) h lands =
      lands_in_any_lem real r policy roots ∙ (elim (Bool-cases (text_eq root r)) [
        | inl same ↦
            let here : lands_in fs env real policy r ≡ true =
              subst (λ x. lands_in fs env real policy x ≡ true) (eq_of_text_eq root r same) lands in
            rw here
        | inr other ↦
            let further : lands_in_any fs env real policy roots ≡ true =
              any_root real root policy roots (or_rest _ _ other (sym (elem-cons root r roots) ∙ h))
                lands in
            ground arith
      ])

  real_path_allowed_lem :
      (real : Text) (policy : Policy)
      → real_path_allowed fs env real policy ≡ (
          if is_path_allowed env real policy
          then true
          else lands_in_any fs env real policy (real_roots fs env policy))
  real_path_allowed_lem real policy = unfold real_path_allowed in refl

  pub real_path_allowed-IsRealAllowed :
      (real : Text) (policy : Policy)
      → (real_path_allowed fs env real policy ≡ true) ↔ IsRealAllowed policy real
  real_path_allowed-IsRealAllowed real policy = (opened, closed)
    where
      opened : real_path_allowed fs env real policy ≡ true → IsRealAllowed policy real
      opened h = elim (Bool-cases (is_path_allowed env real policy)) [
        | inl fine ↦ inl fine
        | inr other ↦
            let found =
              some_root real policy (real_roots fs env policy)
                (ground (arith, real_path_allowed_lem real policy)) in
            inr (
              found.0,
              sym (elem-real_roots policy found.0) ∙ found.1,
              lands_in-LandsIn real found.0 policy found.2,
            )
      ]

      closed : IsRealAllowed policy real → real_path_allowed fs env real policy ≡ true
      closed (inl fine) = real_path_allowed_lem real policy ∙ rw fine
      closed (inr (root, is_root, lands)) =
          let found =
            any_root real root policy (real_roots fs env policy)
              (elem-real_roots policy root ∙ is_root) (LandsIn-lands_in real root policy lands) in
          ground (arith, real_path_allowed_lem real policy)
