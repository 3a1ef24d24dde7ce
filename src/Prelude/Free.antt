-- ===== src/Prelude/Free.antt =====
-- Texts without a given character stay without it when they are trimmed, cut into words or joined.
use Prim.Native.Nat.{ℕ}
use mathlib.Core.Path.{◌≡◌}
use mathlib.Core.Bool.{true, ◌||◌}
use mathlib.Core.List.{List, [], ◌∷◌, ◌++◌}
use native.Mathlib.Omega.{arith}
use agent_workspace.Prelude.Tests.{◌==◌}
use agent_workspace.Prelude.Lists.{some_of-append, All}
use agent_workspace.Prelude.Chars.{Text, trim_left, trim_right, trim_space}
use agent_workspace.Prelude.Splitting.{
  join_texts, has_char, has_char-cons, has_char-nil, IsFree, before, after, onto_first-IsFree,
  words_of, first_word, fields,
}

has_char-append : (c : ℕ) (s t : Text) → has_char c (s ++ t) ≡ (has_char c s || has_char c t)
unfolding has_char
has_char-append c s t = some_of-append (λ x. x == c) s t

trim_left-IsFree : (c : ℕ) (s : Text) → IsFree c s → IsFree c (trim_left s)
unfolding trim_left
trim_left-IsFree c [] free = free
trim_left-IsFree c (x ∷ xs) free = ground (arith, trim_left-IsFree c xs, has_char-cons c x xs)

trim_right-IsFree : (c : ℕ) (s : Text) → IsFree c s → IsFree c (trim_right s)
unfolding trim_right
trim_right-IsFree c [] free = free
trim_right-IsFree c (x ∷ xs) free = ground (
  arith,
  trim_right-IsFree c xs,
  has_char-cons c x xs,
  has_char-nil c,
  has_char-cons c x (trim_right xs),
)

pub trim_space-IsFree : (c : ℕ) (s : Text) → IsFree c s → IsFree c (trim_space s)
unfolding trim_space
trim_space-IsFree c s free = trim_right-IsFree c (trim_left s) (trim_left-IsFree c s free)

words_of-IsFree : (c : ℕ) (ws : List Text) → All (IsFree c) ws → All (IsFree c) (words_of ws)
words_of-IsFree c [] frees = tt
words_of-IsFree c (w ∷ ws) (free, frees) = ground arith

first_word-IsFree : (c : ℕ) (s : Text) → IsFree c s → All (IsFree c) (first_word s)
unfolding first_word
first_word-IsFree c [] free = (has_char-nil c, tt)
first_word-IsFree c (x ∷ xs) free = ground (
  arith,
  first_word-IsFree c xs,
  has_char-nil c,
  has_char-cons c x xs,
  words_of-IsFree c (first_word xs),
  onto_first-IsFree c x (first_word xs),
)

pub fields-IsFree : (c : ℕ) (s : Text) → IsFree c s → All (IsFree c) (fields s)
unfolding fields
fields-IsFree c s free = words_of-IsFree c (first_word s) (first_word-IsFree c s free)

pub join_texts-IsFree :
    (c : ℕ) (separator : Text) (xs : List Text)
    → IsFree c separator
    → All (IsFree c) xs
    → IsFree c (join_texts separator xs)
unfolding join_texts
join_texts-IsFree c separator [] bound frees = has_char-nil c
join_texts-IsFree c separator (x ∷ []) bound (free, frees) = free
join_texts-IsFree c separator (x ∷ y ∷ ys) bound (free, frees) = ground (
  arith,
  join_texts-IsFree c separator (y ∷ ys) bound frees,
  has_char-append c (x ++ separator) (join_texts separator (y ∷ ys)),
  has_char-append c x separator,
)

has_char-middle : (c : ℕ) (b r : Text) → has_char c (b ++ c ∷ r) ≡ true
has_char-middle c [] r = ground (arith, has_char-cons c c r)
has_char-middle c (x ∷ b) r = ground (arith, has_char-middle c b r, has_char-cons c x (b ++ c ∷ r))

before_free : (c : ℕ) (b r : Text) → IsFree c b → before c (b ++ c ∷ r) ≡ b
unfolding before
before_free c [] r free = ground arith
before_free c (x ∷ b) r free = ground (arith, before_free c b r, has_char-cons c x b)

after_free : (c : ℕ) (b r : Text) → IsFree c b → after c (b ++ c ∷ r) ≡ r
unfolding after
after_free c [] r free = ground arith
after_free c (x ∷ b) r free = ground (arith, after_free c b r, has_char-cons c x b)

-- Cutting at the first `c` gives back what was joined by a `c` on the left of which there is none.
pub cut-join :
    (c : ℕ) (b r : Text)
    → IsFree c b
    → (has_char c (b ++ c ∷ r) ≡ true) × (before c (b ++ c ∷ r) ≡ b) × (after c (b ++ c ∷ r) ≡ r)
cut-join c b r free = (has_char-middle c b r, before_free c b r free, after_free c b r free)

pub join-cut : (c : ℕ) (s : Text) → has_char c s ≡ true → s ≡ before c s ++ c ∷ after c s
unfolding before after
join-cut c [] found = ground (arith, has_char-nil c)
join-cut c (x ∷ s) found = ground (arith, join-cut c s, has_char-cons c x s)
