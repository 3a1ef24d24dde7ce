-- ===== src/Memory/Removal.antt =====
-- Forgetting a key, `RemoveUserMemoryLine` of internal/application/user_memory.go.
use agent_workspace.Prelude.{
  ℕ, zero, suc, ◌≡◌, ◌==◌, sym, ap, ◌∙◌, not, ◌&&◌, some, List, [], ◌∷◌, Text, arith, keep, length,
  ok, if◌then◌else◌, join_texts,
}
use agent_workspace.Memory.{
  Vault, Surroundings, UserMemoryDoc, newline, document_lines, get_user_memory_doc,
  set_user_memory_doc, normalize_user_fact_key, stamped, store_removed, remove_lines,
  remove_user_memory_line, with_content, is_blank_line,
}
use agent_workspace.Memory.Lines.{keyed, about_others, remove_lines-left, remove_lines-count}

store_removed-ok :
    (around : Surroundings) (v : Vault) (doc : UserMemoryDoc) (removed : List Text × ℕ) (n : ℕ)
    → (store_removed around v doc removed).0 ≡ ok n
    → (n ≡ removed.1)
      × ((store_removed around v doc removed).1.row ≡ (
          if n == 0
          then v.row
          else some (stamped around (with_content doc (join_texts (newline ∷ []) removed.0)))))
unfolding store_removed set_user_memory_doc
store_removed-ok around v doc (left, zero) n passed = ground arith
store_removed-ok around v doc (left, suc m) n passed = ground arith

module _ (lower_rune : ℕ → ℕ) where
  remove_passed :
      (around : Surroundings) (v : Vault) (key : Text) (doc : UserMemoryDoc) (n : ℕ)
      → get_user_memory_doc around v ≡ ok doc
      → (remove_user_memory_line lower_rune around v key).0 ≡ ok n
      → remove_user_memory_line lower_rune around v key
        ≡ store_removed around v doc (
            remove_lines lower_rune
              (normalize_user_fact_key lower_rune key)
              (document_lines doc.content))
  unfolding remove_user_memory_line
  remove_passed around v key doc n got passed = ground arith

  -- Forgetting a key, when it is answered with a number, counts the lines of the document that have the key,
  -- and has stored exactly the other lines, or nothing when the number is 0.
  pub remove_user_memory_line_lem :
      (around : Surroundings) (v : Vault) (key : Text) (doc : UserMemoryDoc) (n : ℕ)
      → get_user_memory_doc around v ≡ ok doc
      → (remove_user_memory_line lower_rune around v key).0 ≡ ok n
      → (n
          ≡ length (
              keep
                (λ l.
                  not (is_blank_line l)
                  && keyed lower_rune (normalize_user_fact_key lower_rune key) l)
                (document_lines doc.content)))
        × ((remove_user_memory_line lower_rune around v key).1.row ≡ (
            if n == 0
            then v.row
            else some (
                stamped around (
                  with_content doc (
                    join_texts (newline ∷ []) (
                      keep
                        (about_others lower_rune (normalize_user_fact_key lower_rune key))
                        (document_lines doc.content)))))))
  remove_user_memory_line_lem around v key doc n got passed =
      let stored = store_removed-ok around v doc removed n (ap (λ r. r.0) (sym written) ∙ passed) in
      (
        stored.0 ∙ remove_lines-count lower_rune slug lines,
        ap (λ r. r.1.row) written
            ∙ stored.1
            ∙ ap
                (λ ls.
                  if n == 0
                  then v.row
                  else some (stamped around (with_content doc (join_texts (newline ∷ []) ls))))
                (remove_lines-left lower_rune slug lines),
      )
    where
      slug : Text
      slug = normalize_user_fact_key lower_rune key

      lines : List Text
      lines = document_lines doc.content

      removed : List Text × ℕ
      removed = remove_lines lower_rune slug lines

      written : remove_user_memory_line lower_rune around v key ≡ store_removed around v doc removed
      written = remove_passed around v key doc n got passed
