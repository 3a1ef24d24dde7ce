-- ===== src/Sandbox/Resolve/Ancestors.antt =====
-- The walk up from a path to what exists, `findExistingAncestor` of internal/infrastructure/sandbox/resolve.go.
use agent_workspace.Prelude.{
  ◌≡◌, refl, ap, ◌∙◌, subst, ◌⊎◌, inl, inr, ◌≢◌, ℕ, zero, suc, ◌+◌, ◌<◌, arith, true, false, Text,
  text_eq, length, Result, ok, err, ok-injective, Result-cases, Bool-cases,
}
use agent_workspace.Sandbox.Paths.{is_abs}
use agent_workspace.Sandbox.Resolve.{
  Fs, Lstat, exists, not_exist, other_error, ResolveError, out_of_fuel, find_from,
  find_existing_ancestor, after_lstat, no_ancestor,
}

-- the documented behaviour of filepath.Dir on absolute paths: the parent is absolute, and it is shorter
-- but where it is the path itself
pub record DirLaw (fs : Fs) : Type 0 where
  pub absolute : (path : Text) → is_abs path ≡ true → is_abs (fs.dir path) ≡ true
  pub shorter :
      (path : Text)
      → is_abs path ≡ true
      → text_eq (fs.dir path) path ≡ false
      → length (fs.dir path) < length path

-- `existing` is the nearest of the path and its ancestors that exists: all below it are reported missing
pub data Ancestor (fs : Fs) : Text → Text → Type 0 where
  here : (path : Text) → fs.lstat path ≡ exists → Ancestor fs path path
  above :
      (path existing : Text)
      → fs.lstat path ≡ not_exist
      → text_eq (fs.dir path) path ≡ false
      → Ancestor fs (fs.dir path) existing
      → Ancestor fs path existing

module _ (fs : Fs) where
  Ancestor-exists : (path existing : Text) → Ancestor fs path existing → fs.lstat existing ≡ exists
  Ancestor-exists path existing (here p e) = e
  Ancestor-exists path existing (above p q e up further) =
      Ancestor-exists (fs.dir path) existing further

  answered_ok :
      (l : Lstat) (path found : Text) (further : Result ResolveError Text)
      → fs.lstat path ≡ l
      → (further ≡ ok found → Ancestor fs (fs.dir path) found)
      → after_lstat l path (fs.dir path) further ≡ ok found
      → Ancestor fs path found
  answered_ok exists path found further e f q =
      subst (λ p. Ancestor fs path p) (ok-injective q) (here path e)
  answered_ok other_error path found further e f q = cc
  answered_ok not_exist path found further e f q = elim (Bool-cases (text_eq (fs.dir path) path)) [
    | inl top ↦ absurd (cc (rw top at q))
    | inr up ↦ above path found e up (f (rw up at q))
  ]

  found_Ancestor :
      (fuel : ℕ) (path found : Text) → find_from fs fuel path ≡ ok found → Ancestor fs path found
  unfolding find_from
  found_Ancestor zero path found h = cc
  found_Ancestor (suc fuel) path found h =
      answered_ok (fs.lstat path) path found (find_from fs fuel (fs.dir path)) refl
        (found_Ancestor fuel (fs.dir path) found) h

  pub find_existing_ancestor-Ancestor :
      (path found : Text) → find_existing_ancestor fs path ≡ ok found → Ancestor fs path found
  unfolding find_existing_ancestor
  find_existing_ancestor-Ancestor path found h = found_Ancestor (length path + 1) path found h

  answered_in_time :
      (l : Lstat) (path parent : Text) (further : Result ResolveError Text)
      → (text_eq parent path ≡ false → further ≢ err out_of_fuel)
      → after_lstat l path parent further ≢ err out_of_fuel
  answered_in_time exists path parent further f q = cc
  answered_in_time other_error path parent further f q = cc
  answered_in_time not_exist path parent further f q = elim (Bool-cases (text_eq parent path)) [
    | inl top ↦ stopped (rw top at q)
    | inr up ↦ f up (rw up at q)
  ]
    where
      stopped : ◌≡◌ {A = Result ResolveError Text} (err no_ancestor) (err out_of_fuel) → ⊥
      stopped e = cc

  module _ (law : DirLaw fs) where
    enough :
        (fuel : ℕ) (path : Text)
        → is_abs path ≡ true
        → length path < fuel
        → find_from fs fuel path ≢ err out_of_fuel
    unfolding find_from
    enough zero path rooted room = elim room [ ]
    enough (suc fuel) path rooted room =
        answered_in_time (fs.lstat path) path (fs.dir path) (find_from fs fuel (fs.dir path)) (λ up.
          enough fuel (fs.dir path) (law.absolute path rooted)
            (omega (arith, law.shorter path rooted up)))

    Ancestor-found :
        (fuel : ℕ) (path existing : Text)
        → is_abs path ≡ true
        → length path < fuel
        → Ancestor fs path existing
        → find_from fs fuel path ≡ ok existing
    unfolding find_from
    Ancestor-found zero path existing rooted room walk = elim room [ ]
    Ancestor-found (suc fuel) path existing rooted room (here p e) = rw e
    Ancestor-found (suc fuel) path existing rooted room (above p q e up further) =
        let found =
          Ancestor-found fuel (fs.dir path) existing (law.absolute path rooted)
            (omega (arith, law.shorter path rooted up)) further in
        rw (e, up, found)

    pub Ancestor-find_existing_ancestor :
        (path existing : Text)
        → is_abs path ≡ true
        → Ancestor fs path existing
        → find_existing_ancestor fs path ≡ ok existing
    unfolding find_existing_ancestor
    Ancestor-find_existing_ancestor path existing rooted walk =
        Ancestor-found (length path + 1) path existing rooted (omega arith) walk

    -- The walk up from an absolute path ends within the fuel that it is given, under the law of Dir on
    -- absolute paths; and what it finds is the nearest ancestor that exists.
    pub find_existing_ancestor_lem :
        (path : Text)
        → is_abs path ≡ true
        → ((found : Text) × (find_existing_ancestor fs path ≡ ok found)
            × Ancestor fs path found
            × (fs.lstat found ≡ exists))
          ⊎ ((e : ResolveError) × (find_existing_ancestor fs path ≡ err e) × (e ≢ out_of_fuel))
    unfolding find_existing_ancestor
    find_existing_ancestor_lem path rooted =
        elim (Result-cases (find_from fs (length path + 1) path)) [
          | inl (found, h) ↦
              let walk = found_Ancestor (length path + 1) path found h in
              inl (found, h, walk, Ancestor-exists path found walk)
          | inr (e, h) ↦ inr (
            e,
            h,
            λ q. enough (length path + 1) path rooted (omega arith) (h ∙ ap (λ x. err x) q),
          )
        ]
