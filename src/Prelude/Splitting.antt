-- ===== src/Prelude/Splitting.antt =====
-- strings.Split on one character, strings.Join, strings.Fields and strings.TrimPrefix.
use Prim.Native.Nat.{ℕ}
use mathlib.Core.Path.{◌≡◌, refl, sym, ap, ◌∙◌, subst}
use mathlib.Core.Logic.{inl, inr}
use mathlib.Core.Bool.{Bool, false, ◌||◌}
use mathlib.Core.List.{List, [], ◌∷◌, ◌++◌, append_assoc}
use native.Mathlib.Omega.{arith}
use agent_workspace.Prelude.Tests.{◌==◌, if◌then◌else◌, Bool-cases}
use agent_workspace.Prelude.Lists.{length, drop, some_of, All}
use agent_workspace.Prelude.Chars.{Text, is_space, is_empty, has_prefix}

unfoldable pub join_texts : Text → List Text → Text
join_texts separator [] = []
join_texts separator (x ∷ []) = x
join_texts separator (x ∷ y ∷ xs) = x ++ separator ++ join_texts separator (y ∷ xs)

abbrev pub onto_first : ℕ → List Text → List Text
onto_first x [] = (x ∷ []) ∷ []
onto_first x (l ∷ ls) = (x ∷ l) ∷ ls

unfoldable pub split_on : ℕ → Text → List Text
split_on c [] = [] ∷ []
split_on c (x ∷ xs) = let rest = split_on c xs in if x == c then [] ∷ rest else onto_first x rest

unfoldable pub trim_prefix : Text → Text → Text
unfolding has_prefix
trim_prefix s p = if has_prefix s p then drop (length p) s else s

-- the pieces of the rest of a text, with the piece that has begun in front
abbrev pub words_of : List Text → List Text
words_of [] = []
words_of (w ∷ ws) = if is_empty w then ws else w ∷ ws

unfoldable pub first_word : Text → List Text
unfolding is_space is_empty
first_word [] = [] ∷ []
first_word (x ∷ xs) =
    let rest = first_word xs in if is_space x then [] ∷ words_of rest else onto_first x rest

-- strings.Fields
unfoldable pub fields : Text → List Text
unfolding first_word is_empty
fields s = words_of (first_word s)

-- strings.Contains for one character
unfoldable pub has_char : ℕ → Text → Bool
unfolding some_of
has_char c = some_of (λ x. x == c)

-- what stands before the first `c`, or the whole text
unfoldable pub before : ℕ → Text → Text
before c [] = []
before c (x ∷ xs) = let rest = before c xs in if x == c then [] else x ∷ rest

-- what stands after the first `c`, or the whole text
unfoldable pub after : ℕ → Text → Text
after c [] = []
after c (x ∷ xs) = let rest = after c xs in if x == c then xs else rest

abbrev pub IsFree : ℕ → Text → Type 0
IsFree c s = has_char c s ≡ false

pub has_char-nil : (c : ℕ) → has_char c [] ≡ false
has_char-nil c = unfold has_char in unfold some_of in refl

pub has_char-cons : (c x : ℕ) (xs : Text) → has_char c (x ∷ xs) ≡ ((x == c) || has_char c xs)
unfolding has_char some_of
has_char-cons c x xs = refl

pub before-IsFree : (c : ℕ) (s : Text) → IsFree c (before c s)
unfolding before
before-IsFree c [] = has_char-nil c
before-IsFree c (x ∷ xs) =
    ground (arith, before-IsFree c xs, has_char-nil c, has_char-cons c x (before c xs))

split_on-free :
    (c : ℕ) (s rest : Text) → IsFree c s → split_on c (s ++ c ∷ rest) ≡ s ∷ split_on c rest
unfolding split_on
split_on-free c [] rest free = ground arith
split_on-free c (x ∷ xs) rest free = ground (arith, split_on-free c xs rest, has_char-cons c x xs)

split_on-last : (c : ℕ) (s : Text) → IsFree c s → split_on c s ≡ s ∷ []
unfolding split_on
split_on-last c [] free = refl
split_on-last c (x ∷ xs) free = ground (arith, split_on-last c xs, has_char-cons c x xs)

join_texts-one : (sep x : Text) → join_texts sep (x ∷ []) ≡ x
join_texts-one sep x = unfold join_texts in refl

join_texts-cons :
    (c : ℕ) (x y : Text) (ys : List Text)
    → join_texts (c ∷ []) (x ∷ y ∷ ys) ≡ x ++ c ∷ join_texts (c ∷ []) (y ∷ ys)
join_texts-cons c x y ys = opened ∙ append_assoc x (c ∷ []) (join_texts (c ∷ []) (y ∷ ys))
  where
    opened : join_texts (c ∷ []) (x ∷ y ∷ ys) ≡ (x ++ c ∷ []) ++ join_texts (c ∷ []) (y ∷ ys)
    opened = unfold join_texts in refl

-- Splitting a joined list gives the list back, where it is not empty and no part holds the separator.
pub split_on-join_texts :
    (c : ℕ) (x : Text) (xs : List Text)
    → All (IsFree c) (x ∷ xs)
    → split_on c (join_texts (c ∷ []) (x ∷ xs)) ≡ x ∷ xs
split_on-join_texts c x [] (free, _) =
    ap (split_on c) (join_texts-one (c ∷ []) x) ∙ split_on-last c x free
split_on-join_texts c x (y ∷ ys) (free, frees) =
    ap (split_on c) (join_texts-cons c x y ys)
    ∙ split_on-free c x (join_texts (c ∷ []) (y ∷ ys)) free
    ∙ ap (λ r. x ∷ r) (split_on-join_texts c y ys frees)

pub onto_first-IsFree :
    (c x : ℕ) (ls : List Text)
    → (x == c) ≡ false
    → All (IsFree c) ls
    → All (IsFree c) (onto_first x ls)
onto_first-IsFree c x [] other frees = (ground (arith, has_char-nil c, has_char-cons c x []), tt)
onto_first-IsFree c x (l ∷ ls) other (free, frees) = (ground (arith, has_char-cons c x l), frees)

split_on-cons :
    (c x : ℕ) (xs : Text)
    → split_on c (x ∷ xs) ≡ (if x == c then [] ∷ split_on c xs else onto_first x (split_on c xs))
split_on-cons c x xs = unfold split_on in refl

-- No piece of a text that is split holds the separator.
pub split_on-IsFree : (c : ℕ) (s : Text) → All (IsFree c) (split_on c s)
split_on-IsFree c [] = subst (All (IsFree c)) (sym nothing) (has_char-nil c, tt)
  where
    nothing : split_on c [] ≡ [] ∷ []
    nothing = unfold split_on in refl
split_on-IsFree c (x ∷ xs) = elim (Bool-cases (x == c)) [
  | inl same ↦
      let cut : split_on c (x ∷ xs) ≡ [] ∷ split_on c xs = split_on-cons c x xs ∙ rw same in
      subst (All (IsFree c)) (sym cut) (has_char-nil c, split_on-IsFree c xs)
  | inr other ↦
      let kept : split_on c (x ∷ xs) ≡ onto_first x (split_on c xs) =
        split_on-cons c x xs ∙ rw other in
      subst (All (IsFree c)) (sym kept)
        (onto_first-IsFree c x (split_on c xs) other (split_on-IsFree c xs))
]
