-- ===== src/Memory/Keys.antt =====
-- Keys and colons: `memoryLineHasKey` and `NormalizeUserFactKey` of internal/application/user_memory.go.
use agent_workspace.Prelude.{
  ℕ, ◌+◌, map, ltb, leb, ◌==◌, trim_space-IsFree, fields-IsFree, join_texts-IsFree, ◌≡◌, refl, sym,
  ap, ◌∙◌, true, false, not, ◌&&◌, List, [], ◌∷◌, ◌++◌, Text, arith, keep, text_eq, eq_of_text_eq,
  trim_space, to_lower, some_of, has_char, has_char-cons, IsFree, before, before-IsFree, fields,
  if◌then◌else◌, Bool-cases, inl, inr, codes,
}
use agent_workspace.Memory.{
  is_blank_line, memory_line_has_key, normalize_user_fact_key, upsert_line, line_body,
}

module _ (lower_rune : ℕ → ℕ) where
  -- lower case letters are never colons
  abbrev pub KeepsColons : Type 0
  KeepsColons = (c : ℕ) → (lower_rune c == b':') ≡ true → (c == b':') ≡ true

  module _ (keeps : KeepsColons) where
    to_lower-IsFree : (s : Text) → IsFree b':' s → IsFree b':' (to_lower lower_rune s)
    unfolding to_lower
    to_lower-IsFree [] free = free
    to_lower-IsFree (c ∷ s) free = ground (
      arith,
      to_lower-IsFree s,
      keeps c,
      has_char-cons b':' c s,
      has_char-cons b':'
          (if ltb c 128 then (if leb b'A' c && leb c b'Z' then c + 32 else c) else lower_rune c)
          (map
            (λ x.
              if ltb x 128 then (if leb b'A' x && leb x b'Z' then x + 32 else x) else lower_rune x)
            s),
    )

    normalize-IsFree :
        (s : Text) → IsFree b':' s → IsFree b':' (normalize_user_fact_key lower_rune s)
    unfolding normalize_user_fact_key
    normalize-IsFree s free =
        join_texts-IsFree b':' (codes "-") (fields (to_lower lower_rune (trim_space s))) dash (
          fields-IsFree b':' (to_lower lower_rune (trim_space s))
            (to_lower-IsFree (trim_space s) (trim_space-IsFree b':' s free)))
      where
        dash : IsFree b':' (codes "-")
        dash = unfold has_char in unfold some_of in refl

    -- No line carries a key with a colon.
    pub has_key_colon :
        (l key : Text) → has_char b':' key ≡ true → memory_line_has_key lower_rune l key ≡ false
    has_key_colon l key colon = elim (Bool-cases (memory_line_has_key lower_rune l key)) [
      | inl found ↦ ground (arith, cut found)
      | inr missing ↦ missing
    ]
      where
        slug : Text
        slug = normalize_user_fact_key lower_rune (before b':' (line_body lower_rune l))

        opened : memory_line_has_key lower_rune l key ≡ text_eq slug key
        opened = unfold memory_line_has_key in refl

        cut : memory_line_has_key lower_rune l key ≡ true → has_char b':' key ≡ false
        cut found =
            ap (has_char b':') (sym (eq_of_text_eq slug key (sym opened ∙ found)))
            ∙ normalize-IsFree (before b':' (line_body lower_rune l))
                (before-IsFree b':' (line_body lower_rune l))

    -- Remembering a key with a colon never replaces a line: the new line is added to all the others.
    pub upsert_line-stacks :
        (key line : Text) (ls : List Text)
        → has_char b':' key ≡ true
        → upsert_line lower_rune key line false ls
          ≡ keep (λ l. not (is_blank_line l)) ls ++ line ∷ []
    unfolding upsert_line keep
    upsert_line-stacks key line [] colon = refl
    upsert_line-stacks key line (l ∷ ls) colon =
        ground (arith, upsert_line-stacks key line ls colon, has_key_colon l key colon)
