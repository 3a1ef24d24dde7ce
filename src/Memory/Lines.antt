-- ===== src/Memory/Lines.antt =====
-- What the loops over the lines of the document do, of internal/application/user_memory.go.
use agent_workspace.Prelude.{
  ℕ, ◌≡◌, refl, Bool, true, not, ◌&&◌, List, [], ◌∷◌, Text, arith, keep, length, if◌then◌else◌,
}
use agent_workspace.Memory.{is_blank_line, memory_line_has_key, upsert_line, remove_lines}

module _ (lower_rune : ℕ → ℕ) (key : Text) where
  abbrev pub keyed : Text → Bool
  keyed l = memory_line_has_key lower_rune l key

  -- a line of the document about something else
  abbrev pub about_others : Text → Bool
  about_others l = not (is_blank_line l) && not (keyed l)

  pub upsert_line-keyed :
      (line : Text) (replaced : Bool) (ls : List Text)
      → keyed line ≡ true
      → keep keyed (upsert_line lower_rune key line replaced ls)
        ≡ (if replaced then [] else line ∷ [])
  unfolding keep upsert_line
  upsert_line-keyed line replaced [] carries = ground arith
  upsert_line-keyed line replaced (l ∷ ls) carries =
      ground
        (arith, upsert_line-keyed line replaced ls carries, upsert_line-keyed line true ls carries)

  pub upsert_line-others :
      (line : Text) (replaced : Bool) (ls : List Text)
      → keyed line ≡ true
      → keep (λ l. not (keyed l)) (upsert_line lower_rune key line replaced ls)
        ≡ keep about_others ls
  unfolding keep upsert_line
  upsert_line-others line replaced [] carries = ground arith
  upsert_line-others line replaced (l ∷ ls) carries =
      ground (
        arith,
        upsert_line-others line replaced ls carries,
        upsert_line-others line true ls carries,
      )

  pub remove_lines-left :
      (ls : List Text) → (remove_lines lower_rune key ls).0 ≡ keep about_others ls
  unfolding keep remove_lines
  remove_lines-left [] = refl
  remove_lines-left (l ∷ ls) = ground (arith, remove_lines-left ls)

  pub remove_lines-count :
      (ls : List Text)
      → (remove_lines lower_rune key ls).1
        ≡ length (keep (λ l. not (is_blank_line l) && keyed l) ls)
  unfolding keep remove_lines
  remove_lines-count [] = refl
  remove_lines-count (l ∷ ls) = ground (arith, remove_lines-count ls)
