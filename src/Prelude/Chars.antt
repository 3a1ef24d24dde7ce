-- ===== src/Prelude/Chars.antt =====
-- Text as a list of code points, with what the code uses of Go's `strings`: TrimSpace, ToLower,
-- HasPrefix, Contains, TrimPrefix. A Go string that is valid UTF-8 is such a list; the case table
-- beyond ASCII (`unicode.ToLower`) is the parameter `lower_rune`.
use Prim.Native.Nat.{ℕ, ◌+◌}
use Prim.Native.Char.{code}
use Prim.Native.String.{String}
use mathlib.Core.Path.{◌≡◌, refl}
use mathlib.Core.Logic.{◌↔◌, inl, inr}
use mathlib.Core.Bool.{Bool, true, false, not, ◌&&◌, ◌||◌}
use mathlib.Core.List.{List, [], ◌∷◌, ◌++◌, map}
use native.Mathlib.Omega.{arith}
use agent_workspace.Prelude.Tests.{ltb, leb, ◌==◌, if◌then◌else◌, Bool-cases}
use agent_workspace.Prelude.Lists.{some_of, some_of-append, keep}

abbrev pub Text : Type 0
Text = List ℕ

abbrev pub codes : String → Text
codes String.[] = []
codes (String.◌∷◌ c s) = code c ∷ codes s

unfoldable pub text_eq : Text → Text → Bool
text_eq [] [] = true
text_eq [] (d ∷ t) = false
text_eq (c ∷ s) [] = false
text_eq (c ∷ s) (d ∷ t) = c == d && text_eq s t

pub text_eq_refl : (s : Text) → text_eq s s ≡ true
unfolding text_eq
text_eq_refl [] = refl
text_eq_refl (c ∷ s) = ground (arith, text_eq_refl s)

pub eq_of_text_eq : (s t : Text) → text_eq s t ≡ true → s ≡ t
unfolding text_eq
eq_of_text_eq [] [] h = refl
eq_of_text_eq [] (d ∷ t) h = cc
eq_of_text_eq (c ∷ s) [] h = cc
eq_of_text_eq (c ∷ s) (d ∷ t) h = ground (arith, eq_of_text_eq s t)

pub text_eq_iff : (s t : Text) → (text_eq s t ≡ true) ↔ (s ≡ t)
text_eq_iff s t = (eq_of_text_eq s t, λ e. rw e (text_eq_refl t))

-- membership of a key in a Go `map[string]bool`, or in a slice
unfoldable pub elem : Text → List Text → Bool
unfolding some_of text_eq
elem t = some_of (text_eq t)

unfoldable pub is_empty : Text → Bool
is_empty [] = true
is_empty (c ∷ s) = false

-- unicode.IsSpace
unfoldable pub is_space : ℕ → Bool
is_space c =
    (leb 9 c && leb c 13)
    || c == 32
    || c == 0x85
    || c == 0xa0
    || c == 0x1680
    || (leb 0x2000 c && leb c 0x200a)
    || c == 0x2028
    || c == 0x2029
    || c == 0x202f
    || c == 0x205f
    || c == 0x3000

unfoldable pub trim_left : Text → Text
unfolding is_space
trim_left [] = []
trim_left (c ∷ s) = let rest = trim_left s in if is_space c then rest else c ∷ s

unfoldable pub trim_right : Text → Text
unfolding is_space is_empty
trim_right [] = []
trim_right (c ∷ s) = let rest = trim_right s in if is_space c && is_empty rest then [] else c ∷ rest

-- strings.TrimSpace
unfoldable pub trim_space : Text → Text
unfolding trim_left trim_right
trim_space s = trim_right (trim_left s)

-- strings.ToLower
unfoldable pub to_lower : (ℕ → ℕ) → Text → Text
to_lower lower_rune =
    map (λ c. if ltb c 128 then (if leb b'A' c && leb c b'Z' then c + 32 else c) else lower_rune c)

unfoldable pub has_prefix : Text → Text → Bool
has_prefix s [] = true
has_prefix [] (d ∷ p) = false
has_prefix (c ∷ s) (d ∷ p) = c == d && has_prefix s p

-- strings.Contains
unfoldable pub contains : Text → Text → Bool
unfolding has_prefix
contains [] p = has_prefix [] p
contains (c ∷ s) p = has_prefix (c ∷ s) p || contains s p

trim_right-cons_ne : (c : ℕ) (s : Text) → is_space c ≡ false → trim_right (c ∷ s) ≡ c ∷ trim_right s
unfolding trim_right
trim_right-cons_ne c s h = rw h

trim_right_idem : (s : Text) → trim_right (trim_right s) ≡ trim_right s
unfolding trim_right
trim_right_idem [] = refl
trim_right_idem (c ∷ s) = elim (Bool-cases (is_space c && is_empty (trim_right s))) [
  | inl e ↦ rw e
  | inr e ↦ rw (e, trim_right_idem s, e)
]

-- a text that does not begin with a space is left alone on the left
begins : Text → Bool
begins [] = true
begins (c ∷ s) = not (is_space c)

trim_left-begins : (s : Text) → begins s ≡ true → trim_left s ≡ s
unfolding begins trim_left
trim_left-begins [] h = refl
trim_left-begins (c ∷ s) h = ground arith

begins-trim_left : (s : Text) → begins (trim_left s) ≡ true
unfolding begins trim_left
begins-trim_left [] = refl
begins-trim_left (c ∷ s) = ground (arith, begins-trim_left s)

begins-trim_right : (s : Text) → begins s ≡ true → begins (trim_right s) ≡ true
unfolding begins trim_right
begins-trim_right [] h = refl
begins-trim_right (c ∷ s) h = ground arith

-- TrimSpace of a trimmed text changes nothing.
pub trim_space_idem : (s : Text) → trim_space (trim_space s) ≡ trim_space s
unfolding trim_space
trim_space_idem s =
    rw
      (trim_left-begins (trim_right (trim_left s))
        (begins-trim_right (trim_left s) (begins-trim_left s)))
      (trim_right_idem (trim_left s))

pub elem-append : (t : Text) (xs ys : List Text) → elem t (xs ++ ys) ≡ (elem t xs || elem t ys)
unfolding elem
elem-append t xs ys = some_of-append (text_eq t) xs ys

-- removing a key leaves the membership of the others
pub elem-without :
    (t k : Text) (xs : List Text)
    → elem t (keep (λ x. not (text_eq x k)) xs) ≡ (not (text_eq t k) && elem t xs)
unfolding elem keep some_of
elem-without t k [] = ground arith
elem-without t k (x ∷ xs) =
    ground (arith, elem-without t k xs, text_eq_iff t x, text_eq_iff t k, text_eq_iff x k)

-- no text occurs twice
unfoldable pub distinct : List Text → Bool
unfolding elem
distinct [] = true
distinct (x ∷ xs) = not (elem x xs) && distinct xs

pub distinct-append_one :
    (xs : List Text) (k : Text)
    → distinct xs ≡ true
    → elem k xs ≡ false
    → distinct (xs ++ k ∷ []) ≡ true
unfolding distinct
distinct-append_one [] k d n = refl
distinct-append_one (x ∷ xs) k d n =
    ground
      (arith, distinct-append_one xs k, elem-append x xs (k ∷ []), text_eq_iff x k, text_eq_iff k x)

pub elem-cons : (t x : Text) (xs : List Text) → elem t (x ∷ xs) ≡ (text_eq t x || elem t xs)
unfolding elem
elem-cons t x xs = refl

pub text_eq_comm : (s t : Text) → text_eq s t ≡ text_eq t s
text_eq_comm s t = ground (arith, text_eq_iff s t, text_eq_iff t s)

pub elem-nil : (t : Text) → elem t [] ≡ false
unfolding elem
elem-nil t = refl
