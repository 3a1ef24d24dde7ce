-- ===== src/Sandbox/Resolve/Realpath.antt =====
-- What a path that passes `ResolveAndCheck` satisfies, of internal/infrastructure/sandbox/resolve.go.
use agent_workspace.Prelude.{
  ◌≡◌, refl, sym, ap, ◌∙◌, subst, inl, inr, ◌↔◌, true, not, Option, none, some, Text, Result, ok,
  err, ok-injective, Bool-cases, if◌then◌else◌,
}
use agent_workspace.Sandbox.Policies.{Policy}
use agent_workspace.Sandbox.Paths.{Env, is_abs, expand_path}
use agent_workspace.Sandbox.Checker.{is_path_allowed}
use agent_workspace.Sandbox.Resolve.{
  Fs, ResolveError, denied, find_existing_ancestor, real_path_allowed, check_real, eval_failed,
  check_ancestor, resolve_and_check,
}
use agent_workspace.Sandbox.Resolve.Ancestors.{
  DirLaw, Ancestor, find_existing_ancestor-Ancestor, Ancestor-find_existing_ancestor,
}
use agent_workspace.Sandbox.Resolve.Roots.{IsRealAllowed, real_path_allowed-IsRealAllowed}

module _ (fs : Fs) (env : Env) where
  -- the nearest ancestor that exists has a real path that is allowed
  pub record Reached (policy : Policy) (path : Text) : Type 0 where
    pub existing : Text
    pub nearest : Ancestor fs path existing
    pub real : Text
    pub resolves : fs.eval_symlinks existing ≡ some real
    pub allowed : IsRealAllowed fs env policy real

  resolve_lem :
      (path : Text) (policy : Policy)
      → resolve_and_check fs env path policy ≡ (
          if not (is_path_allowed env (expand_path env path) policy)
          then err (denied path policy.config.mode)
          else check_ancestor fs env path policy
              (expand_path env path)
              (find_existing_ancestor fs (expand_path env path)))
  resolve_lem path policy = unfold resolve_and_check in refl

  check_ancestor_lem :
      (path normalized existing : Text) (policy : Policy)
      → check_ancestor fs env path policy normalized (ok existing)
        ≡ check_real fs env path policy normalized (fs.eval_symlinks existing)
  check_ancestor_lem path normalized existing policy = unfold check_ancestor in refl

  check_real_lem :
      (path normalized real : Text) (policy : Policy)
      → check_real fs env path policy normalized (some real) ≡ (
          if not (real_path_allowed fs env real policy)
          then err (denied path policy.config.mode)
          else ok normalized)
  check_real_lem path normalized real policy = unfold check_real in refl

  not_ok :
      {P : Type 0} (e : ResolveError) (result : Text)
      → ◌≡◌ {A = Result ResolveError Text} (err e) (ok result)
      → P
  not_ok e result h = cc

  real_ok :
      (path normalized result : Text) (policy : Policy) (o : Option Text)
      → check_real fs env path policy normalized o ≡ ok result
      → (result ≡ normalized)
        × (real : Text) × (o ≡ some real)
        × (real_path_allowed fs env real policy ≡ true)
  real_ok path normalized result policy none q = not_ok eval_failed result (opened q)
    where
      opened :
          check_real fs env path policy normalized none ≡ ok result
          → ◌≡◌ {A = Result ResolveError Text} (err eval_failed) (ok result)
      opened h = unfold check_real in h
  real_ok path normalized result policy (some real) q =
      elim (Bool-cases (real_path_allowed fs env real policy)) [
        | inl fine ↦ (
          sym (ok-injective (sym (check_real_lem path normalized real policy ∙ rw fine) ∙ q)),
          real,
          refl,
          fine,
        )
        | inr bad ↦
            not_ok (denied path policy.config.mode) result
              (sym (check_real_lem path normalized real policy ∙ rw bad) ∙ q)
      ]

  ancestor_ok :
      (path normalized result : Text) (policy : Policy) (walked : Result ResolveError Text)
      → check_ancestor fs env path policy normalized walked ≡ ok result
      → (result ≡ normalized)
        × (existing : Text) × (walked ≡ ok existing)
        × (real : Text) × (fs.eval_symlinks existing ≡ some real)
        × (real_path_allowed fs env real policy ≡ true)
  ancestor_ok path normalized result policy (err e) q = not_ok e result (opened q)
    where
      opened :
          check_ancestor fs env path policy normalized (err e) ≡ ok result
          → ◌≡◌ {A = Result ResolveError Text} (err e) (ok result)
      opened h = unfold check_ancestor in h
  ancestor_ok path normalized result policy (ok existing) q =
      let (same, real, resolves, allowed) =
        real_ok path normalized result policy (fs.eval_symlinks existing)
          (sym (check_ancestor_lem path normalized existing policy) ∙ q) in
      (same, existing, refl, real, resolves, allowed)

  -- what is returned is the expanded path, it is reachable, and so is what it really leads to
  abbrev pub IsResolved : Policy → Text → Text → Type 0
  IsResolved policy path result =
      (result ≡ expand_path env path)
      × (is_path_allowed env result policy ≡ true)
      × Reached policy result

  resolve_and_check-IsResolved :
      (path result : Text) (policy : Policy)
      → resolve_and_check fs env path policy ≡ ok result
      → IsResolved policy path result
  resolve_and_check-IsResolved path result policy h =
      elim (Bool-cases (is_path_allowed env (expand_path env path) policy)) [
        | inr bad ↦
            not_ok (denied path policy.config.mode) result
              (sym (resolve_lem path policy ∙ rw bad) ∙ h)
        | inl fine ↦
            let (same, existing, found, real, resolves, allowed) =
              ancestor_ok path (expand_path env path) result policy
                (find_existing_ancestor fs (expand_path env path))
                (sym (resolve_lem path policy ∙ rw fine) ∙ h) in
            (
              same,
              subst (λ p. is_path_allowed env p policy ≡ true) (sym same) fine,
              record {
                existing = existing;
                nearest =
                    find_existing_ancestor-Ancestor fs result existing
                      (ap (find_existing_ancestor fs) same ∙ found);
                real = real;
                resolves = resolves;
                allowed = (real_path_allowed-IsRealAllowed fs env real policy).0 allowed;
              },
            )
      ]

  IsResolved-resolve_and_check :
      (path : Text) (policy : Policy)
      → DirLaw fs
      → is_abs (expand_path env path) ≡ true
      → is_path_allowed env (expand_path env path) policy ≡ true
      → Reached policy (expand_path env path)
      → resolve_and_check fs env path policy ≡ ok (expand_path env path)
  IsResolved-resolve_and_check path policy law rooted fine reached =
      resolve_lem path policy
      ∙ within
      ∙ check_ancestor_lem path (expand_path env path) reached.existing policy
      ∙ ap (check_real fs env path policy (expand_path env path)) reached.resolves
      ∙ check_real_lem path (expand_path env path) reached.real policy
      ∙ passed
    where
      found : find_existing_ancestor fs (expand_path env path) ≡ ok reached.existing
      found =
          Ancestor-find_existing_ancestor fs law (expand_path env path) reached.existing rooted
            reached.nearest

      within :
          (if not (is_path_allowed env (expand_path env path) policy)
            then err (denied path policy.config.mode)
            else check_ancestor fs env path policy
                (expand_path env path)
                (find_existing_ancestor fs (expand_path env path)))
          ≡ check_ancestor fs env path policy (expand_path env path) (ok reached.existing)
      within = rw (fine, found)

      real_fine : real_path_allowed fs env reached.real policy ≡ true
      real_fine = (real_path_allowed-IsRealAllowed fs env reached.real policy).1 reached.allowed

      passed :
          ◌≡◌ {A = Result ResolveError Text}
            (if not (real_path_allowed fs env reached.real policy)
              then err (denied path policy.config.mode)
              else ok (expand_path env path))
            (ok (expand_path env path))
      passed = rw real_fine

  -- Under the law of Dir on absolute paths, a path that expands to an absolute one passes exactly if that is
  -- reachable and the nearest of it and its ancestors that exists has a real path that is reachable itself,
  -- or that lies inside the real path of a root: the workspace, or in the mode with a list a built-in or
  -- allowed folder, where the root is not blank and is reachable. What is returned is then the expanded
  -- path.
  pub resolve_and_check_lem :
      (path result : Text) (policy : Policy)
      → DirLaw fs
      → is_abs (expand_path env path) ≡ true
      → (resolve_and_check fs env path policy ≡ ok result) ↔ IsResolved policy path result
  resolve_and_check_lem path result policy law rooted = (
    resolve_and_check-IsResolved path result policy,
    λ (same, fine, reached).
        IsResolved-resolve_and_check path policy law rooted
          (subst (λ p. is_path_allowed env p policy ≡ true) same fine)
          (subst (Reached policy) same reached)
        ∙ ap (λ p. ok p) (sym same),
  )
