-- ===== src/Memory/Documents.antt =====
-- What the operations do to the stored document, of internal/application/user_memory.go.
use agent_workspace.Prelude.{
  ℕ, ◌≡◌, refl, sym, ap, ◌∙◌, Bool, true, false, not, some, List, [], ◌∷◌, Text, arith, keep, All,
  Result, ok, err, trim_space, join_texts, split_on, IsFree, split_on-join_texts, split_on-IsFree,
}
use agent_workspace.Memory.{
  Vault, Surroundings, UserMemoryDoc, newline, document_lines, get_user_memory_doc,
  set_user_memory_doc, normalize_user_fact_key, memory_line, upsert_line, upserted, rewrite_doc,
  with_content, append_user_memory_line,
}
use agent_workspace.Memory.Lines.{keyed, about_others, upsert_line-keyed, upsert_line-others}

set_user_memory_doc-ok :
    (around : Surroundings) (v : Vault) (doc saved : UserMemoryDoc)
    → (set_user_memory_doc around v doc).0 ≡ ok saved
    → (saved.content ≡ doc.content) × ((set_user_memory_doc around v doc).1.row ≡ some saved)
unfolding set_user_memory_doc
set_user_memory_doc-ok around v doc saved stored = ground arith

set_user_memory_doc-err :
    (around : Surroundings) (v : Vault) (doc : UserMemoryDoc) (e : Text)
    → (set_user_memory_doc around v doc).0 ≡ err e
    → (set_user_memory_doc around v doc).1 ≡ v
unfolding set_user_memory_doc
set_user_memory_doc-err around v doc e failed = ground arith

-- a list with a line of the key is not empty, so that its join splits into it
split-keyed :
    (p : Text → Bool) (line : Text) (ls : List Text)
    → All (IsFree newline) ls
    → keep p ls ≡ line ∷ []
    → split_on newline (join_texts (newline ∷ []) ls) ≡ ls
unfolding keep
split-keyed p line [] frees found = cc
split-keyed p line (l ∷ ls) frees found = split_on-join_texts newline l ls frees

document_lines-IsFree : (content : Text) → All (IsFree newline) (document_lines content)
unfolding document_lines
document_lines-IsFree content = split_on-IsFree newline (trim_space content)

rewrite_doc_lem :
    (edit : Text → Text) (around : Surroundings) (v : Vault)
    → rewrite_doc edit around v ≡ (elim (get_user_memory_doc around v) [
      | err e ↦ (err e, v)
      | ok doc ↦ set_user_memory_doc around v (with_content doc (edit doc.content))
    ])
rewrite_doc_lem edit around v = unfold rewrite_doc in refl

rewrite_doc-ok :
    (edit : Text → Text) (around : Surroundings) (v : Vault) (doc saved : UserMemoryDoc)
    → get_user_memory_doc around v ≡ ok doc
    → (rewrite_doc edit around v).0 ≡ ok saved
    → (saved.content ≡ edit doc.content) × ((rewrite_doc edit around v).1.row ≡ some saved)
unfolding rewrite_doc
rewrite_doc-ok edit around v doc saved got passed =
    ground (arith, set_user_memory_doc-ok around v (with_content doc (edit doc.content)) saved)

rewrite_doc-err :
    (edit : Text → Text) (around : Surroundings) (v : Vault) (e : Text)
    → (rewrite_doc edit around v).0 ≡ err e
    → (rewrite_doc edit around v).1 ≡ v
rewrite_doc-err edit around v e failed = settled (get_user_memory_doc around v) refl
  where
    settled :
        (reply : Result Text UserMemoryDoc)
        → get_user_memory_doc around v ≡ reply
        → (rewrite_doc edit around v).1 ≡ v
    settled (err x) got = ground (arith, rewrite_doc_lem edit around v)
    settled (ok doc) got =
        let stored : rewrite_doc edit around v
            ≡ set_user_memory_doc around v (with_content doc (edit doc.content)) =
          rewrite_doc_lem edit around v ∙ rw got in
        ap (λ r. r.1) stored
        ∙ set_user_memory_doc-err around v (with_content doc (edit doc.content)) e
            (ap (λ r. r.0) (sym stored) ∙ failed)

module _ (lower_rune : ℕ → ℕ) where
  upsert_line-IsFree :
      (key line : Text) (replaced : Bool) (ls : List Text)
      → IsFree newline line
      → All (IsFree newline) ls
      → All (IsFree newline) (upsert_line lower_rune key line replaced ls)
  unfolding upsert_line
  upsert_line-IsFree key line replaced [] free frees = ground arith
  upsert_line-IsFree key line replaced (l ∷ ls) free (first, frees) = ground (
    arith,
    upsert_line-IsFree key line replaced ls free frees,
    upsert_line-IsFree key line true ls free frees,
  )

  upserted_lem :
      (key line content : Text)
      → keyed lower_rune key line ≡ true
      → IsFree newline line
      → split_on newline (upserted lower_rune key line content)
        ≡ upsert_line lower_rune key line false (document_lines content)
  upserted_lem key line content carries free =
      ap (split_on newline) opened
      ∙ split-keyed (keyed lower_rune key) line lines
          (upsert_line-IsFree key line false (document_lines content) free
            (document_lines-IsFree content))
          (upsert_line-keyed lower_rune key line false (document_lines content) carries)
    where
      lines : List Text
      lines = upsert_line lower_rune key line false (document_lines content)

      opened : upserted lower_rune key line content ≡ join_texts (newline ∷ []) lines
      opened = unfold upserted in refl

  module _ (scrub : Text → Text) where
    abbrev pub line_to_remember : Text → Text → Text → Text
    line_to_remember key category content =
        memory_line lower_rune scrub (normalize_user_fact_key lower_rune key) category
          (trim_space content)

    append_passed :
        (around : Surroundings) (v : Vault) (key category content : Text) (saved : UserMemoryDoc)
        → (append_user_memory_line lower_rune scrub around v key category content).0 ≡ ok saved
        → append_user_memory_line lower_rune scrub around v key category content
          ≡ rewrite_doc
              (upserted lower_rune
                (normalize_user_fact_key lower_rune key)
                (line_to_remember key category content))
              around
              v
    unfolding append_user_memory_line
    append_passed around v key category content saved passed = ground arith

    -- Remembering a key whose line carries it and is a single line, when it is answered with a document,
    -- has stored that document; of its lines exactly one has the key, the new one, and the lines about
    -- other things are those that the old document had, in their order.
    pub append-upserts :
        (around : Surroundings) (v : Vault) (key category content : Text)
        (doc saved : UserMemoryDoc)
        → get_user_memory_doc around v ≡ ok doc
        → keyed lower_rune
            (normalize_user_fact_key lower_rune key)
            (line_to_remember key category content)
          ≡ true
        → IsFree newline (line_to_remember key category content)
        → (append_user_memory_line lower_rune scrub around v key category content).0 ≡ ok saved
        → ((append_user_memory_line lower_rune scrub around v key category content).1.row
            ≡ some saved)
          × ((keep
                  (keyed lower_rune (normalize_user_fact_key lower_rune key))
                  (split_on newline saved.content)
                ≡ line_to_remember key category content ∷ [])
              × (keep
                    (λ l. not (keyed lower_rune (normalize_user_fact_key lower_rune key) l))
                    (split_on newline saved.content)
                  ≡ keep
                      (about_others lower_rune (normalize_user_fact_key lower_rune key))
                      (document_lines doc.content)))
    append-upserts around v key category content doc saved got carries free passed =
        let held =
          rewrite_doc-ok edit around v doc saved got (ap (λ r. r.0) (sym written) ∙ passed) in
        let split : split_on newline saved.content
            ≡ upsert_line lower_rune slug line false (document_lines doc.content) =
          ap (split_on newline) held.0 ∙ upserted_lem slug line doc.content carries free in
        (
          ap (λ r. r.1.row) written ∙ held.1,
          (
            ap (keep (keyed lower_rune slug)) split
                ∙ upsert_line-keyed lower_rune slug line false (document_lines doc.content) carries,
            ap (keep (λ l. not (keyed lower_rune slug l))) split
                ∙ upsert_line-others lower_rune slug line false (document_lines doc.content)
                    carries,
          ),
        )
      where
        slug : Text
        slug = normalize_user_fact_key lower_rune key

        line : Text
        line = line_to_remember key category content

        edit : Text → Text
        edit = upserted lower_rune slug line

        written :
            append_user_memory_line lower_rune scrub around v key category content
            ≡ rewrite_doc edit around v
        written = append_passed around v key category content saved passed

    -- A refused or failed remembering leaves the vault as it was.
    pub append-err :
        (around : Surroundings) (v : Vault) (key category content e : Text)
        → (append_user_memory_line lower_rune scrub around v key category content).0 ≡ err e
        → (append_user_memory_line lower_rune scrub around v key category content).1 ≡ v
    unfolding append_user_memory_line
    append-err around v key category content e failed = ground (
      arith,
      rewrite_doc-err
          (upserted lower_rune (normalize_user_fact_key lower_rune key)
            (line_to_remember key category content))
          around v e,
    )
