-- ===== src/Memory/Tests.antt =====
-- A document with two facts, and instances of the theorems there.
use agent_workspace.Prelude.{
  ℕ, ◌≡◌, ◌==◌, refl, true, false, not, ◌&&◌, none, some, [], ◌∷◌, ◌++◌, Text, codes, keep, length,
  ok, has_char, IsFree, split_on, join_texts, if◌then◌else◌,
}
use agent_workspace.Memory.{
  UserMemoryDoc, Vault, Surroundings, newline, document_lines, is_blank_line, get_user_memory_doc,
  append_user_memory_line, remove_user_memory_line, normalize_user_fact_key, upsert_line,
  memory_line_has_key, memory_line, stamped, with_content,
}
use agent_workspace.Memory.Lines.{keyed, about_others}
use agent_workspace.Memory.Documents.{line_to_remember, append-upserts}
use agent_workspace.Memory.Removal.{remove_user_memory_line_lem}
use agent_workspace.Memory.Keys.{upsert_line-stacks}

abbrev same_rune : ℕ → ℕ
same_rune c = c

abbrev same_text : Text → Text
same_text t = t

abbrev doc_of : Text → Text → UserMemoryDoc
doc_of content time = record {
  content = content;
  backup = [];
  last_condensed_at = [];
  updated_at = time;
}

abbrev two_facts : UserMemoryDoc
two_facts = doc_of (codes "- [work] my editor: vim\n\n- pet: cat") (codes "1")

abbrev vault : Vault
vault = record { unlocked = true; row = some two_facts }

abbrev around : Surroundings
around = record { read_fault = none; write_fault = none; now = codes "2" }

-- the second remembering of a key replaces the first
abbrev after_append : UserMemoryDoc
after_append = doc_of (codes "- my-editor: emacs\n- pet: cat") (codes "2")

append_run :
    append_user_memory_line same_rune same_text around vault (codes "My  Editor") [] (codes "emacs")
    ≡ (ok after_append, record { unlocked = true; row = some after_append })
unfolding append_user_memory_line
append_run = refl

read_back : get_user_memory_doc around vault ≡ ok two_facts
unfolding get_user_memory_doc
read_back = refl

carried :
    keyed same_rune
      (normalize_user_fact_key same_rune (codes "My  Editor"))
      (line_to_remember same_rune same_text (codes "My  Editor") [] (codes "emacs"))
    ≡ true
unfolding memory_line_has_key normalize_user_fact_key memory_line
carried = refl

one_line :
    IsFree newline (line_to_remember same_rune same_text (codes "My  Editor") [] (codes "emacs"))
unfolding has_char normalize_user_fact_key memory_line
one_line = refl

appended :
    (append_user_memory_line same_rune same_text around vault
      (codes "My  Editor")
      []
      (codes "emacs")).0
    ≡ ok after_append
unfolding append_user_memory_line
appended = refl

append-upserts_example :
    ((append_user_memory_line same_rune same_text around vault
        (codes "My  Editor")
        []
        (codes "emacs")).1.row
      ≡ some after_append)
    × ((keep
            (keyed same_rune (normalize_user_fact_key same_rune (codes "My  Editor")))
            (split_on newline after_append.content)
          ≡ line_to_remember same_rune same_text (codes "My  Editor") [] (codes "emacs") ∷ [])
        × (keep
              (λ l.
                not (keyed same_rune (normalize_user_fact_key same_rune (codes "My  Editor")) l))
              (split_on newline after_append.content)
            ≡ keep
                (about_others same_rune (normalize_user_fact_key same_rune (codes "My  Editor")))
                (document_lines two_facts.content)))
append-upserts_example =
    append-upserts same_rune same_text around vault (codes "My  Editor") [] (codes "emacs")
      two_facts after_append read_back carried one_line appended

removed : (remove_user_memory_line same_rune around vault (codes "pet")).0 ≡ ok 1
unfolding remove_user_memory_line
removed = refl

remove_user_memory_line_lem_example :
    (1
      ≡ length (
          keep
            (λ l.
              not (is_blank_line l)
              && keyed same_rune (normalize_user_fact_key same_rune (codes "pet")) l)
            (document_lines two_facts.content)))
    × ((remove_user_memory_line same_rune around vault (codes "pet")).1.row ≡ (
        if 1 == 0
        then vault.row
        else some (
            stamped around (
              with_content two_facts (
                join_texts (newline ∷ []) (
                  keep
                    (about_others same_rune (normalize_user_fact_key same_rune (codes "pet")))
                    (document_lines two_facts.content)))))))
remove_user_memory_line_lem_example =
    remove_user_memory_line_lem same_rune around vault (codes "pet") two_facts 1 read_back removed

colon : has_char b':' (codes "repo:main") ≡ true
unfolding has_char
colon = refl

upsert_line-stacks_example :
    upsert_line same_rune
      (codes "repo:main")
      (codes "- repo:main: b")
      false
      (codes "- repo:main: a" ∷ [])
    ≡ keep (λ l. not (is_blank_line l)) (codes "- repo:main: a" ∷ []) ++ codes "- repo:main: b" ∷ []
upsert_line-stacks_example =
    upsert_line-stacks same_rune (λ c h. h) (codes "repo:main") (codes "- repo:main: b")
      (codes "- repo:main: a" ∷ []) colon
