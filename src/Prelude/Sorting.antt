-- ===== src/Prelude/Sorting.antt =====
-- Go's stable sort by a comparison, and the order of Go strings.
use mathlib.Core.Path.{◌≡◌, refl}
use mathlib.Core.Bool.{Bool, true, false, ◌&&◌, ◌||◌}
use mathlib.Core.List.{List, [], ◌∷◌}
use native.Mathlib.Omega.{arith}
use agent_workspace.Prelude.Tests.{ltb, ◌==◌, if◌then◌else◌}
use agent_workspace.Prelude.Lists.{some_of}
use agent_workspace.Prelude.Chars.{Text}

-- `<` on strings; the order of code points is that of their UTF-8 bytes
unfoldable pub text_lt : Text → Text → Bool
text_lt s [] = false
text_lt [] (d ∷ t) = true
text_lt (c ∷ s) (d ∷ t) = ltb c d || c == d && text_lt s t

module _ {ℓ} {A : Type ℓ} (less : A → A → Bool) where
  -- `x` stays in front of what it equals
  unfoldable pub insert_sorted : A → List A → List A
  insert_sorted x [] = x ∷ []
  insert_sorted x (y ∷ ys) =
      let further = insert_sorted x ys in if less y x then y ∷ further else x ∷ y ∷ ys

  -- sort.SliceStable, sort.Strings
  unfoldable pub sort_stable : List A → List A
  unfolding insert_sorted
  sort_stable [] = []
  sort_stable (x ∷ xs) = insert_sorted x (sort_stable xs)

  -- no element is less than the one in front of it
  abbrev pub IsSorted : List A → Type 0
  IsSorted [] = Unit
  IsSorted (x ∷ []) = Unit
  IsSorted (x ∷ y ∷ ys) = (less y x ≡ false) × IsSorted (y ∷ ys)

  module _ (asym : (x y : A) → less x y ≡ true → less y x ≡ false) where
    insert_sorted-IsSorted : (x : A) (ys : List A) → IsSorted ys → IsSorted (insert_sorted x ys)
    unfolding insert_sorted
    insert_sorted-IsSorted x [] h = tt
    insert_sorted-IsSorted x (y ∷ []) h = ground (arith, asym y x)
    insert_sorted-IsSorted x (y ∷ z ∷ zs) h =
        ground (arith, asym y x, asym z x, insert_sorted-IsSorted x (z ∷ zs))

    pub sort_stable-IsSorted : (xs : List A) → IsSorted (sort_stable xs)
    unfolding sort_stable
    sort_stable-IsSorted [] = tt
    sort_stable-IsSorted (x ∷ xs) =
        insert_sorted-IsSorted x (sort_stable xs) (sort_stable-IsSorted xs)

  insert_sorted-some_of :
      (p : A → Bool) (x : A) (ys : List A) → some_of p (insert_sorted x ys) ≡ (p x || some_of p ys)
  unfolding insert_sorted some_of
  insert_sorted-some_of p x [] = refl
  insert_sorted-some_of p x (y ∷ ys) = ground (arith, insert_sorted-some_of p x ys)

  -- sorting keeps the elements
  pub sort_stable-some_of : (p : A → Bool) (xs : List A) → some_of p (sort_stable xs) ≡ some_of p xs
  unfolding sort_stable some_of
  sort_stable-some_of p [] = refl
  sort_stable-some_of p (x ∷ xs) =
      ground (arith, insert_sorted-some_of p x (sort_stable xs), sort_stable-some_of p xs)

pub text_lt_asym : (s t : Text) → text_lt s t ≡ true → text_lt t s ≡ false
unfolding text_lt
text_lt_asym s [] h = cc
text_lt_asym [] (d ∷ t) h = refl
text_lt_asym (c ∷ s) (d ∷ t) h = ground (arith, text_lt_asym s t)
