-- ===== src/Sandbox/Extraction/Candidates.antt =====
-- Which paths are extracted from a command.
use agent_workspace.Prelude.{
  ◌≡◌, refl, ap, ℕ, Bool, true, false, not, ◌&&◌, ◌||◌, List, [], ◌∷◌, ◌++◌, Text, arith, text_eq,
  text_eq_iff, is_empty, elem, elem-cons, elem-nil, elem-append, some_of, distinct,
  distinct-append_one, Bool-cases, inl, inr, subst, if◌then◌else◌, ◌∙◌, sym,
}
use agent_workspace.Sandbox.Extraction.{
  Patterns, trim_quotes, looks_like_path, add_path, add_all, candidates, extract_paths, tokenize,
}

module _ (lower_rune : ℕ → ℕ) where
  -- a candidate that is that path behind its quotes
  pub names : Text → Text → Bool
  names path t = text_eq path (trim_quotes t)

  looks_empty : looks_like_path lower_rune [] ≡ false
  unfolding looks_like_path
  looks_empty = refl

  looks_some : (c : Text) → looks_like_path lower_rune c ≡ true → is_empty c ≡ false
  unfolding is_empty
  looks_some [] h = absurd (cc (sym looks_empty ∙ h))
  looks_some (x ∷ xs) h = refl

  add_path_lem :
      (paths : List Text) (c : Text)
      → add_path lower_rune paths c
        ≡ (if not (is_empty c) && not (elem c paths) then paths ++ c ∷ [] else paths)
  add_path_lem paths c = unfold add_path in refl

  -- a candidate behind its quotes, added if it looks like a path
  abbrev add_cleaned : List Text → Text → List Text
  add_cleaned paths c = if looks_like_path lower_rune c then add_path lower_rune paths c else paths

  add_cleaned-elem :
      (paths : List Text) (c path : Text)
      → elem path (add_cleaned paths c)
        ≡ (elem path paths || looks_like_path lower_rune path && text_eq path c)
  add_cleaned-elem paths c path = elim (Bool-cases (looks_like_path lower_rune c)) [
    | inl y ↦ rw y (
        ground (
          arith,
          add_path_lem paths c,
          looks_some c y,
          elem-append path paths (c ∷ []),
          elem-cons path c [],
          elem-nil path,
          text_eq_iff path c,
        ))
    | inr n ↦ rw n (ground (arith, n, text_eq_iff path c))
  ]

  add_cleaned-distinct :
      (paths : List Text) (c : Text) → distinct paths ≡ true → distinct (add_cleaned paths c) ≡ true
  add_cleaned-distinct paths c d = ground (arith, add_path_lem paths c, distinct-append_one paths c)

  add_all_lem :
      (paths ts : List Text) (t : Text)
      → add_all lower_rune paths (t ∷ ts)
        ≡ add_all lower_rune (add_cleaned paths (trim_quotes t)) ts
  add_all_lem paths ts t = unfold add_all in refl

  add_all-nil : (paths : List Text) → add_all lower_rune paths [] ≡ paths
  add_all-nil paths = unfold add_all in refl

  spread : (a l n s : Bool) → ((a || l && n) || l && s) ≡ (a || l && (n || s))
  spread a l n s = ground arith

  unnamed : (a l : Bool) → a ≡ (a || l && false)
  unnamed a l = ground arith

  add_all-elem :
      (paths ts : List Text) (path : Text)
      → elem path (add_all lower_rune paths ts)
        ≡ (elem path paths || looks_like_path lower_rune path && some_of (names path) ts)
  unfolding some_of names
  add_all-elem paths [] path =
      ap (elem path) (add_all-nil paths)
      ∙ unnamed (elem path paths) (looks_like_path lower_rune path)
  add_all-elem paths (t ∷ ts) path =
      ap (elem path) (add_all_lem paths ts t)
      ∙ add_all-elem (add_cleaned paths (trim_quotes t)) ts path
      ∙ ap (λ b. b || looks_like_path lower_rune path && some_of (names path) ts)
          (add_cleaned-elem paths (trim_quotes t) path)
      ∙ spread (elem path paths) (looks_like_path lower_rune path) (text_eq path (trim_quotes t)) _

  add_all-distinct :
      (paths ts : List Text) → distinct paths ≡ true → distinct (add_all lower_rune paths ts) ≡ true
  add_all-distinct paths [] d = rw (add_all-nil paths) d
  add_all-distinct paths (t ∷ ts) d = rw (add_all_lem paths ts t) (
      add_all-distinct (add_cleaned paths (trim_quotes t)) ts
        (add_cleaned-distinct paths (trim_quotes t) d))

  add_all-append :
      (paths ts us : List Text)
      → add_all lower_rune paths (ts ++ us) ≡ add_all lower_rune (add_all lower_rune paths ts) us
  add_all-append paths [] us = rw (add_all-nil paths)
  add_all-append paths (t ∷ ts) us =
      rw (add_all_lem paths ts t, add_all_lem paths (ts ++ us) t)
        (add_all-append (add_cleaned paths (trim_quotes t)) ts us)

  extract_paths_all :
      (patterns : Patterns) (command : Text)
      → extract_paths lower_rune patterns command
        ≡ add_all lower_rune [] (candidates lower_rune patterns command)
  extract_paths_all patterns command =
      in_order
      ∙ sym (
          add_all-append [] (redirects ++ curls ++ wgets) (tokenize command)
          ∙ ap (λ ps. add_all lower_rune ps (tokenize command))
              (add_all-append [] (redirects ++ curls) wgets
                ∙ ap (λ ps. add_all lower_rune ps wgets) (add_all-append [] redirects curls)))
    where
      redirects : List Text
      redirects = patterns.redirects command

      curls : List Text
      curls = patterns.curl_targets command

      wgets : List Text
      wgets = patterns.wget_targets command

      in_order :
          extract_paths lower_rune patterns command
          ≡ add_all lower_rune
              (add_all lower_rune
                (add_all lower_rune (add_all lower_rune [] redirects) curls)
                wgets)
              (tokenize command)
      in_order = unfold extract_paths in refl

  -- The extracted paths are exactly the candidates (the captures of the redirect, curl and wget
  -- expressions and the tokens), without the quotes around them, that look like a path; each is
  -- extracted once.
  pub extract_paths_lem :
      (patterns : Patterns) (command path : Text)
      → (elem path (extract_paths lower_rune patterns command) ≡ (
          looks_like_path lower_rune path
          && some_of (names path) (candidates lower_rune patterns command)))
        × (distinct (extract_paths lower_rune patterns command) ≡ true)
  extract_paths_lem patterns command path = (
    ap (elem path) (extract_paths_all patterns command)
        ∙ add_all-elem [] all path
        ∙ ap (λ b. b || looks_like_path lower_rune path && some_of (names path) all)
            (elem-nil path),
    subst (λ ps. distinct ps ≡ true) (sym (extract_paths_all patterns command))
        (add_all-distinct [] all (unfold distinct in refl)),
  )
    where
      all : List Text
      all = candidates lower_rune patterns command
