-- ===== src/Prelude/Maps.antt =====
-- A Go `map[string]V` as an association list without repeated keys.
use Prim.Native.Nat.{ℕ, suc, ◌+◌}
use mathlib.Core.Path.{◌≡◌, refl}
use mathlib.Core.Bool.{Bool, true, false}
use mathlib.Core.Option.{Option, none, some}
use mathlib.Core.List.{List, [], ◌∷◌}
use native.Mathlib.Omega.{arith}
use agent_workspace.Prelude.Tests.{if◌then◌else◌}
use agent_workspace.Prelude.Chars.{Text, text_eq, text_eq_iff, text_eq_refl}

abbrev pub Dict {ℓ} : Type ℓ → Type ℓ
Dict V = List (Text × V)

module _ {ℓ} {V : Type ℓ} where
  unfoldable pub lookup : Text → Dict V → Option V
  unfolding text_eq
  lookup k [] = none
  lookup k ((j, v) ∷ m) = let rest = lookup k m in if text_eq j k then some v else rest

  -- delete(m, k)
  unfoldable pub delete : Text → Dict V → Dict V
  unfolding text_eq
  delete k [] = []
  delete k ((j, v) ∷ m) = let rest = delete k m in if text_eq j k then rest else (j, v) ∷ rest

  -- m[k] = v
  unfoldable pub insert : Text → V → Dict V → Dict V
  unfolding delete
  insert k v m = (k, v) ∷ delete k m

  -- len(m)
  unfoldable pub size : Dict V → ℕ
  size [] = 0
  size (e ∷ m) = suc (size m)

  unfoldable pub has_key : Text → Dict V → Bool
  unfolding lookup
  has_key k m = elim (lookup k m) [ none ↦ false | some v ↦ true ]

  -- no key stands twice
  abbrev pub IsDict : Dict V → Type 0
  IsDict [] = Unit
  IsDict ((k, v) ∷ m) = (has_key k m ≡ false) × IsDict m

module _ {ℓ} {V : Type ℓ} where
  pub lookup-delete :
      (k j : Text) (m : Dict V) → lookup j (delete k m) ≡ (if text_eq k j then none else lookup j m)
  unfolding lookup delete
  lookup-delete k j [] = ground arith
  lookup-delete k j ((i, v) ∷ m) =
      ground (arith, lookup-delete k j m, text_eq_iff i k, text_eq_iff i j, text_eq_iff k j)

  pub lookup-insert :
      (k j : Text) (v : V) (m : Dict V)
      → lookup j (insert k v m) ≡ (if text_eq k j then some v else lookup j m)
  unfolding lookup insert
  lookup-insert k j v m = ground (arith, lookup-delete k j m)

  delete_absent : (k : Text) (m : Dict V) → lookup k m ≡ none → size (delete k m) ≡ size m
  unfolding lookup delete size
  delete_absent k [] h = refl
  delete_absent k ((j, v) ∷ m) h = ground (arith, delete_absent k m)

  -- deleting a key that is there makes the map smaller by one
  pub size-delete :
      (k : Text) (m : Dict V)
      → IsDict m
      → size m ≡ size (delete k m) + (if has_key k m then 1 else 0)
  unfolding lookup delete size has_key
  size-delete k [] h = refl
  size-delete k ((j, v) ∷ m) (fresh, h) =
      ground (arith, size-delete k m h, delete_absent k m, text_eq_iff j k)

  pub delete-IsDict : (k : Text) (m : Dict V) → IsDict m → IsDict (delete k m)
  unfolding delete has_key
  delete-IsDict k [] h = tt
  delete-IsDict k ((j, v) ∷ m) (fresh, h) = ground (arith, delete-IsDict k m h, lookup-delete k j m)

  pub insert-IsDict : (k : Text) (v : V) (m : Dict V) → IsDict m → IsDict (insert k v m)
  unfolding insert has_key
  insert-IsDict k v m h = ground (arith, delete-IsDict k m h, lookup-delete k k m, text_eq_refl k)
