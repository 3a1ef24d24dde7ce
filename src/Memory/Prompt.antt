-- ===== src/Memory/Prompt.antt =====
-- The block of the system prompt, `UserMemoryInstruction` of internal/application/user_memory.go.
use agent_workspace.Prelude.{
  ℕ, zero, suc, subst, ◌≡◌, ◌≤◌, refl, sym, ap, ◌∙◌, Bool-cases, inl, inr, Bool, true, false, List,
  [], ◌∷◌, ◌++◌, Text, arith, is_empty, trim_space, length, take, ltb, if◌then◌else◌,
}
use agent_workspace.Memory.{
  user_memory_instruction, user_memory_header, user_memory_prompt_cap, is_blank_line,
}

length-take : {A : Type 0} (n : ℕ) (xs : List A) → length (take n xs) ≤ n
length-take zero xs = omega arith
length-take (suc n) [] = omega arith
length-take (suc n) (x ∷ xs) = omega (arith, length-take n xs)

take_all : {A : Type 0} (n : ℕ) (xs : List A) → length xs ≤ n → take n xs ≡ xs
take_all zero [] h = refl
take_all zero (x ∷ xs) h = ground arith
take_all (suc n) [] h = refl
take_all (suc n) (x ∷ xs) h = ap (λ r. x ∷ r) (take_all n xs (omega arith))

clip :
    (n : ℕ) (b : Bool) (t : Text)
    → (if b then [] else if ltb n (length t) then take n t else t) ≡ take n (if b then [] else t)
clip zero true t = refl
clip (suc n) true t = refl
clip n false t = elim (Bool-cases (ltb n (length t))) [
  | inl long ↦ rw long
  | inr short ↦ rw (short, take_all n t (ground arith))
]

-- Whatever the document, the block is the first 8000 characters of the header and the trimmed document, or of
-- nothing for a blank document, and so it is never longer than the cap.
pub user_memory_instruction_lem :
    (content : Text)
    → (user_memory_instruction content
        ≡ take user_memory_prompt_cap
            (if is_blank_line content then [] else user_memory_header ++ trim_space content))
      × (length (user_memory_instruction content) ≤ user_memory_prompt_cap)
user_memory_instruction_lem content =
    (cut, subst (λ t. length t ≤ 8000) (sym cut) (length-take 8000 full))
  where
    full : Text
    full = if is_blank_line content then [] else user_memory_header ++ trim_space content

    blank_lem : is_blank_line content ≡ is_empty (trim_space content)
    blank_lem = unfold is_blank_line in refl

    opened : user_memory_instruction content ≡ (
        if is_empty (trim_space content)
        then []
        else if ltb user_memory_prompt_cap (length (user_memory_header ++ trim_space content))
        then take user_memory_prompt_cap (user_memory_header ++ trim_space content)
        else user_memory_header ++ trim_space content)
    opened = unfold user_memory_instruction in refl

    cut : user_memory_instruction content ≡ take user_memory_prompt_cap full
    cut =
        opened
        ∙ clip user_memory_prompt_cap (is_empty (trim_space content))
            (user_memory_header ++ trim_space content)
        ∙ ap
            (λ b.
              take user_memory_prompt_cap
                (if b then [] else user_memory_header ++ trim_space content))
            (sym blank_lem)
