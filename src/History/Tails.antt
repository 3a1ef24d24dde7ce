-- ===== src/History/Tails.antt =====
-- The two loops of `BuildRestoreSeed`, internal/application/chat_restore.go.
use agent_workspace.Prelude.{
  ℕ, ◌+◌, ◌≡◌, ◌≤◌, ◌<◌, ◌⊎◌, inl, inr, refl, sym, ap, ◌∙◌, subst, true, List, [], ◌∷◌, ◌++◌,
  append_assoc, arith, length, if◌then◌else◌, Bool-cases, length-append,
}
use agent_workspace.History.{Message}
use agent_workspace.History.Restore.{
  rev_onto, walk_back, open_on_user, is_user, restore_seed_max_messages, restore_seed_max_chars,
}

-- the characters of the messages
abbrev pub chars_of : List Message → ℕ
chars_of [] = 0
chars_of (m ∷ ms) = length m.content + chars_of ms

abbrev pub IsSuffix : List Message → List Message → Type 0
IsSuffix tail whole = (front : List Message) × (whole ≡ front ++ tail)

-- within the caps, or one message that is over the characters' cap by itself
abbrev pub IsWithin : List Message → Type 0
IsWithin tail =
    (length tail ≤ restore_seed_max_messages)
    × ((chars_of tail ≤ restore_seed_max_chars) ⊎ (length tail ≤ 1))

rev_onto-append : (xs ys zs : List Message) → rev_onto xs (ys ++ zs) ≡ rev_onto xs ys ++ zs
unfolding rev_onto
rev_onto-append [] ys zs = refl
rev_onto-append (x ∷ xs) ys zs = rev_onto-append xs (x ∷ ys) zs

pub rev_onto_twice : (xs ys : List Message) → rev_onto (rev_onto xs ys) [] ≡ rev_onto ys xs
unfolding rev_onto
rev_onto_twice [] ys = refl
rev_onto_twice (x ∷ xs) ys = rev_onto_twice xs (x ∷ ys)

chars_of-append : (xs ys : List Message) → chars_of (xs ++ ys) ≡ chars_of xs + chars_of ys
chars_of-append [] ys = omega arith
chars_of-append (x ∷ xs) ys = omega (arith, chars_of-append xs ys)

walk_back_step :
    (tail : List Message) (chars : ℕ) (m : Message) (older : List Message)
    → (walk_back tail chars (m ∷ older) ≡ tail)
      ⊎ ((walk_back tail chars (m ∷ older) ≡ walk_back (m ∷ tail) (chars + length m.content) older)
          × ((length tail < 30) × ((length tail ≤ 0) ⊎ (chars + length m.content ≤ 24000))))
unfolding walk_back
walk_back_step tail chars m older = ground arith

walk_back-nil : (tail : List Message) (chars : ℕ) → walk_back tail chars [] ≡ tail
walk_back-nil tail chars = unfold walk_back in refl

rev_onto-cons :
    (m : Message) (older tail : List Message)
    → rev_onto (m ∷ older) tail ≡ rev_onto older (m ∷ tail)
rev_onto-cons m older tail = unfold rev_onto in refl

IsSuffix-refl : (ms : List Message) → IsSuffix ms ms
IsSuffix-refl ms = ([], refl)

pub IsSuffix-trans : (xs ys zs : List Message) → IsSuffix xs ys → IsSuffix ys zs → IsSuffix xs zs
IsSuffix-trans xs ys zs (front, p) (more, q) =
    (more ++ front, q ∙ ap (λ r. more ++ r) p ∙ sym (append_assoc more front xs))

pub walk_back-IsSuffix :
    (tail : List Message) (chars : ℕ) (older : List Message)
    → IsSuffix (walk_back tail chars older) (rev_onto older tail)
walk_back-IsSuffix tail chars [] =
    subst (λ t. IsSuffix t (rev_onto [] tail)) (sym (walk_back-nil tail chars))
      ([], unfold rev_onto in refl)
walk_back-IsSuffix tail chars (m ∷ older) = elim (walk_back_step tail chars m older) [
  | inl stopped ↦ (
    rev_onto older (m ∷ []),
    rev_onto-cons m older tail
        ∙ rev_onto-append older (m ∷ []) tail
        ∙ ap (λ t. rev_onto older (m ∷ []) ++ t) (sym stopped),
  )
  | inr (went, _) ↦
      let rest = walk_back-IsSuffix (m ∷ tail) (chars + length m.content) older in
      (rest.0, rev_onto-cons m older tail ∙ rest.1 ∙ ap (λ t. rest.0 ++ t) (sym went))
]

-- what has been taken stays
pub walk_back_keeps :
    (tail : List Message) (chars : ℕ) (older : List Message)
    → IsSuffix tail (walk_back tail chars older)
walk_back_keeps tail chars [] =
    subst (IsSuffix tail) (sym (walk_back-nil tail chars)) (IsSuffix-refl tail)
walk_back_keeps tail chars (m ∷ older) = elim (walk_back_step tail chars m older) [
  | inl stopped ↦ subst (IsSuffix tail) (sym stopped) (IsSuffix-refl tail)
  | inr (went, _) ↦ subst (IsSuffix tail) (sym went) (
      IsSuffix-trans tail (m ∷ tail) (walk_back (m ∷ tail) (chars + length m.content) older)
        (m ∷ [], refl) (walk_back_keeps (m ∷ tail) (chars + length m.content) older))
]

one_more :
    (tail : List Message) (chars : ℕ) (m : Message)
    → chars ≡ chars_of tail
    → IsWithin tail
    → length tail < 30
    → (length tail ≤ 0) ⊎ (chars + length m.content ≤ 24000)
    → IsWithin (m ∷ tail)
one_more tail chars m sums within few (inl first) = (omega arith, inr (omega arith))
one_more tail chars m sums within few (inr fits) = (omega arith, inl (omega arith))

pub walk_back-IsWithin :
    (tail : List Message) (chars : ℕ) (older : List Message)
    → chars ≡ chars_of tail
    → IsWithin tail
    → IsWithin (walk_back tail chars older)
walk_back-IsWithin tail chars [] sums within =
    subst IsWithin (sym (walk_back-nil tail chars)) within
walk_back-IsWithin tail chars (m ∷ older) sums within = elim (walk_back_step tail chars m older) [
  | inl stopped ↦ subst IsWithin (sym stopped) within
  | inr (went, (few, fits)) ↦ subst IsWithin (sym went) (
      walk_back-IsWithin (m ∷ tail) (chars + length m.content) older (omega arith)
        (one_more tail chars m sums within few fits))
]

-- a shorter tail is within them too
pub IsSuffix-IsWithin : (xs ys : List Message) → IsSuffix xs ys → IsWithin ys → IsWithin xs
IsSuffix-IsWithin xs ys (front, p) within = shorter (subst IsWithin p within)
  where
    shorter : IsWithin (front ++ xs) → IsWithin xs
    shorter (few, inl fits) =
        (omega (arith, length-append front xs), inl (omega (arith, chars_of-append front xs)))
    shorter (few, inr one) =
        (omega (arith, length-append front xs), inr (omega (arith, length-append front xs)))

module _ (lower_rune fold_rune : ℕ → ℕ) where
  open_on_user_lem :
      (m : Message) (ms : List Message)
      → open_on_user lower_rune fold_rune (m ∷ ms)
        ≡ (if is_user lower_rune fold_rune m then m ∷ ms else open_on_user lower_rune fold_rune ms)
  open_on_user_lem m ms = unfold open_on_user in refl

  open_on_user-nil : open_on_user lower_rune fold_rune [] ≡ []
  open_on_user-nil = unfold open_on_user in refl

  pub open_on_user-IsSuffix :
      (ms : List Message) → IsSuffix (open_on_user lower_rune fold_rune ms) ms
  open_on_user-IsSuffix [] = ([], sym open_on_user-nil)
  open_on_user-IsSuffix (m ∷ ms) = elim (Bool-cases (is_user lower_rune fold_rune m)) [
    | inl user ↦
        let opened : open_on_user lower_rune fold_rune (m ∷ ms) ≡ m ∷ ms =
          open_on_user_lem m ms ∙ rw user in
        ([], sym opened)
    | inr other ↦
        let opened : open_on_user lower_rune fold_rune (m ∷ ms)
            ≡ open_on_user lower_rune fold_rune ms =
          open_on_user_lem m ms ∙ rw other in
        let rest = open_on_user-IsSuffix ms in
        (m ∷ rest.0, ap (λ r. m ∷ r) rest.1 ∙ ap (λ t. (m ∷ rest.0) ++ t) (sym opened))
  ]

  -- empty, or opening on a user's message
  abbrev pub OpensOnUser : List Message → Type 0
  OpensOnUser [] = Unit
  OpensOnUser (m ∷ ms) = is_user lower_rune fold_rune m ≡ true

  pub open_on_user-OpensOnUser :
      (ms : List Message) → OpensOnUser (open_on_user lower_rune fold_rune ms)
  open_on_user-OpensOnUser [] = subst OpensOnUser (sym open_on_user-nil) tt
  open_on_user-OpensOnUser (m ∷ ms) = elim (Bool-cases (is_user lower_rune fold_rune m)) [
    | inl user ↦
        let opened : open_on_user lower_rune fold_rune (m ∷ ms) ≡ m ∷ ms =
          open_on_user_lem m ms ∙ rw user in
        subst OpensOnUser (sym opened) user
    | inr other ↦
        let opened : open_on_user lower_rune fold_rune (m ∷ ms)
            ≡ open_on_user lower_rune fold_rune ms =
          open_on_user_lem m ms ∙ rw other in
        subst OpensOnUser (sym opened) (open_on_user-OpensOnUser ms)
  ]

  -- a user's message that stands last is not dropped
  pub open_on_user_keeps :
      (front : List Message) (m : Message)
      → is_user lower_rune fold_rune m ≡ true
      → IsSuffix (m ∷ []) (open_on_user lower_rune fold_rune (front ++ m ∷ []))
  open_on_user_keeps [] m user =
      let opened : open_on_user lower_rune fold_rune (m ∷ []) ≡ m ∷ [] =
        open_on_user_lem m [] ∙ rw user in
      ([], opened)
  open_on_user_keeps (x ∷ front) m user = elim (Bool-cases (is_user lower_rune fold_rune x)) [
    | inl first ↦
        let opened : open_on_user lower_rune fold_rune (x ∷ (front ++ m ∷ []))
            ≡ x ∷ (front ++ m ∷ []) =
          open_on_user_lem x (front ++ m ∷ []) ∙ rw first in
        (x ∷ front, opened)
    | inr other ↦
        let opened : open_on_user lower_rune fold_rune (x ∷ (front ++ m ∷ []))
            ≡ open_on_user lower_rune fold_rune (front ++ m ∷ []) =
          open_on_user_lem x (front ++ m ∷ []) ∙ rw other in
        let rest = open_on_user_keeps front m user in (rest.0, opened ∙ rest.1)
  ]
