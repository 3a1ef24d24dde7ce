-- ===== src/Sandbox/Checker/Modes.antt =====
-- What is reachable in which mode.
use agent_workspace.Prelude.{
  ◌≡◌, refl, sym, ap, subst, ◌∙◌, Bool, true, false, not, ◌&&◌, ◌||◌, List, [], ◌∷◌, ◌++◌, Text,
  arith, text_eq, text_eq_iff, eq_of_text_eq, is_empty, trim_space, elem, elem-append, elem-nil,
  or_rest, elem-cons, sort_stable-some_of, sort_stable-IsSorted, text_lt, text_lt_asym, IsSorted,
  Bool-cases, inl, inr, if◌then◌else◌,
}
use agent_workspace.Sandbox.Policies.{
  Policy, SandboxMode, block_all, permit_list, permit_all, builtin_always_denied,
  clamp_sandbox_mode_for_untrusted,
}
use agent_workspace.Sandbox.Paths.{Env, expand_path, inside_any}
use agent_workspace.Sandbox.Checker.{
  next_root, in_workspace, in_data_dir, mode_allows, is_path_allowed, roots_loop, root_candidates,
  roots,
}

-- the policy with another mode
abbrev pub with_mode : Policy → SandboxMode → Policy
with_mode policy mode = record policy { config = record (policy.config) { mode = mode } }

module _ (env : Env) where
  -- A path is reachable exactly if it lies under no built-in denied path and no protected path, and
  -- lies in the workspace or else, outside the data directory, where the mode allows it.
  pub is_path_allowed_lem :
      (file : Text) (policy : Policy)
      → is_path_allowed env file policy ≡ (
          not (inside_any env file builtin_always_denied)
          && (not (inside_any env file policy.protected)
              && (in_workspace env file policy
                  || not (in_data_dir env file policy) && mode_allows env file policy)))
  is_path_allowed_lem file policy = opened ∙ ground arith
    where
      opened : is_path_allowed env file policy ≡ (
          if inside_any env file builtin_always_denied
          then false
          else if inside_any env file policy.protected
          then false
          else if in_data_dir env file policy && not (in_workspace env file policy)
          then false
          else if in_workspace env file policy
          then true
          else mode_allows env file policy)
      opened = unfold is_path_allowed in refl

  block_all-mode_allows :
      (file : Text) (policy : Policy) → mode_allows env file (with_mode policy block_all) ≡ false
  block_all-mode_allows file policy = unfold mode_allows in refl

  permit_all-mode_allows :
      (file : Text) (policy : Policy) → mode_allows env file (with_mode policy permit_all) ≡ true
  permit_all-mode_allows file policy = unfold mode_allows in refl

  same_workspace :
      (file : Text) (policy : Policy) (mode : SandboxMode)
      → (in_workspace env file (with_mode policy mode) ≡ in_workspace env file policy)
        × (in_data_dir env file (with_mode policy mode) ≡ in_data_dir env file policy)
  same_workspace file policy mode = unfold in_workspace in_data_dir in (refl, refl)

  -- What is reachable, for a policy with its mode replaced.
  with_mode_lem :
      (file : Text) (policy : Policy) (mode : SandboxMode)
      → is_path_allowed env file (with_mode policy mode) ≡ (
          not (inside_any env file builtin_always_denied)
          && (not (inside_any env file policy.protected)
              && (in_workspace env file policy
                  || not (in_data_dir env file policy)
                    && mode_allows env file (with_mode policy mode))))
  with_mode_lem file policy mode =
      let (w, d) = same_workspace file policy mode in
      is_path_allowed_lem file (with_mode policy mode) ∙ rw (w, d)

  -- The modes are ordered: a path is reachable with everything blocked exactly if it lies in the
  -- workspace and is reachable in any given mode, and it is reachable in that mode exactly if it is
  -- reachable with everything permitted and lies in the workspace or is allowed by the mode.
  pub modes_ordered :
      (file : Text) (policy : Policy) (mode : SandboxMode)
      → (is_path_allowed env file (with_mode policy block_all)
          ≡ (in_workspace env file policy && is_path_allowed env file (with_mode policy mode)))
        × (is_path_allowed env file (with_mode policy mode) ≡ (
            is_path_allowed env file (with_mode policy permit_all)
            && (in_workspace env file policy || mode_allows env file (with_mode policy mode))))
  modes_ordered file policy mode =
      let any = with_mode_lem file policy mode in
      let none = with_mode_lem file policy block_all in
      let all = with_mode_lem file policy permit_all in
      let blocked = block_all-mode_allows file policy in
      let free = permit_all-mode_allows file policy in
      (ground (arith, any, none, blocked), ground (arith, any, all, free))

  -- The clamp for turns with untrusted content only narrows: what is reachable under the clamped mode is
  -- reachable under the mode itself, and the clamped mode is never the one that permits all.
  pub clamp_narrows :
      (file : Text) (policy : Policy) (mode : SandboxMode)
      → is_path_allowed env file (with_mode policy (clamp_sandbox_mode_for_untrusted mode)) ≡ true
      → (is_path_allowed env file (with_mode policy mode) ≡ true)
        × (text_eq (clamp_sandbox_mode_for_untrusted mode) permit_all ≡ false)
  clamp_narrows file policy mode h = elim (Bool-cases (text_eq mode permit_all)) [
    | inl free ↦ (
      rw (eq_of_text_eq mode permit_all free) (
          first_true _ _ (
            sym ((modes_ordered file policy permit_list).1)
            ∙ subst (λ m. is_path_allowed env file (with_mode policy m) ≡ true) (clamped free) h)),
      ap (λ m. text_eq m permit_all) (clamped free) ∙ unfold text_eq in refl,
    )
    | inr bound ↦ (
      subst (λ m. is_path_allowed env file (with_mode policy m) ≡ true) (kept bound) h,
      ap (λ m. text_eq m permit_all) (kept bound) ∙ bound,
    )
  ]
    where
      clamped : text_eq mode permit_all ≡ true → clamp_sandbox_mode_for_untrusted mode ≡ permit_list
      clamped free = unfold clamp_sandbox_mode_for_untrusted in rw free

      kept : text_eq mode permit_all ≡ false → clamp_sandbox_mode_for_untrusted mode ≡ mode
      kept bound = unfold clamp_sandbox_mode_for_untrusted in rw bound

      first_true : (a b : Bool) → (a && b) ≡ true → a ≡ true
      first_true a b e = ground arith

  next_root_lem :
      (policy : Policy) (c : Text) (found : List Text)
      → next_root env policy c found ≡ (
          if is_empty (trim_space c)
          then found
          else if elem (expand_path env c) found
              || not (is_path_allowed env (expand_path env c) policy)
          then found
          else found ++ expand_path env c ∷ [])
  next_root_lem policy c found = unfold next_root in refl

  next_root-elem :
      (policy : Policy) (c : Text) (found : List Text) (x : Text)
      → elem x (next_root env policy c found) ≡ true
      → (elem x found || is_path_allowed env x policy) ≡ true
  next_root-elem policy c found x h = new_root (expand_path env c) (next_root_lem policy c found)
    where
      new_root :
          (e : Text)
          → next_root env policy c found ≡ (
              if is_empty (trim_space c)
              then found
              else if elem e found || not (is_path_allowed env e policy)
              then found
              else found ++ e ∷ [])
          → (elem x found || is_path_allowed env x policy) ≡ true
      new_root e q =
          ground
            (arith, q, elem-append x found (e ∷ []), elem-cons x e [], text_eq_iff x e, elem-nil x)

  roots_loop-elem :
      (policy : Policy) (candidates found : List Text) (x : Text)
      → elem x (roots_loop env policy candidates found) ≡ true
      → (elem x found || is_path_allowed env x policy) ≡ true
  unfolding roots_loop
  roots_loop-elem policy [] found x h = rw h
  roots_loop-elem policy (c ∷ candidates) found x h =
      both (elem x found) (is_path_allowed env x policy) (elem x (next_root env policy c found))
        (next_root-elem policy c found x)
        (roots_loop-elem policy candidates (next_root env policy c found) x h)
    where
      both : (a b d : Bool) → (d ≡ true → (a || b) ≡ true) → (d || b) ≡ true → (a || b) ≡ true
      both a b true f h = f refl
      both true b false f h = refl
      both false b false f h = h

  -- Every folder that `Roots` shows as visible is reachable under the policy, and the folders are
  -- listed in order.
  pub roots-allowed :
      (policy : Policy) (x : Text)
      → elem x (roots env policy) ≡ true
      → (is_path_allowed env x policy ≡ true) × IsSorted text_lt (roots env policy)
  roots-allowed policy x h = (
    allowed (sorted_elem h),
    unfold roots in sort_stable-IsSorted text_lt text_lt_asym (found policy),
  )
    where
      found : Policy → List Text
      found p = roots_loop env p (root_candidates env p) []

      sorted_elem : elem x (roots env policy) ≡ true → elem x (found policy) ≡ true
      sorted_elem h =
          unfold elem roots in (sym (sort_stable-some_of text_lt (text_eq x) (found policy)) ∙ h)

      allowed : elem x (found policy) ≡ true → is_path_allowed env x policy ≡ true
      allowed g =
          or_rest (elem x []) _ (elem-nil x)
            (roots_loop-elem policy (root_candidates env policy) [] x g)
