-- ===== src/Memory.antt =====
-- The living document about the user: internal/application/user_memory.go, over the row that
-- `GetUserMemoryDoc` and `SetUserMemoryDoc` of internal/infrastructure/vault/vault.go read and write. A method of the
-- vault holds its mutex; the database's failures, the clock and the scrubbing of secrets are arguments.
pub mod Lines
pub mod Documents
pub mod Keys
pub mod Removal
pub mod Prompt
mod Tests
use agent_workspace.Prelude.{
  ℕ, Bool, true, false, not, ◌&&◌, ◌||◌, Option, none, some, List, [], ◌∷◌, ◌++◌, Text, codes,
  text_eq, is_empty, trim_space, to_lower, length, take, ltb, ◌==◌, suc, has_prefix, Result, ok,
  err, if◌then◌else◌, join_texts, split_on, trim_prefix, fields, has_char, before, after,
}

pub record UserMemoryDoc : Type 0 where
  pub content : Text
  pub backup : Text
  pub last_condensed_at : Text
  pub updated_at : Text

abbrev pub no_doc : UserMemoryDoc
no_doc = record { content = []; backup = []; last_condensed_at = []; updated_at = [] }

abbrev pub with_content : UserMemoryDoc → Text → UserMemoryDoc
with_content doc content = record {
  content = content;
  backup = doc.backup;
  last_condensed_at = doc.last_condensed_at;
  updated_at = doc.updated_at;
}

-- `v.db` is not nil, and the row of the document
pub record Vault : Type 0 where
  pub unlocked : Bool
  pub row : Option UserMemoryDoc

-- the database's errors on this call, and the time
pub record Surroundings : Type 0 where
  pub read_fault : Option Text
  pub write_fault : Option Text
  pub now : Text

abbrev pub err_locked : Text
err_locked = codes "vault is locked"

unfoldable pub get_user_memory_doc : Surroundings → Vault → Result Text UserMemoryDoc
get_user_memory_doc around v = if not v.unlocked then err err_locked else elim around.read_fault [
  | some fault ↦ err fault
  | none ↦ elim v.row [ none ↦ ok no_doc | some doc ↦ ok doc ]
]

abbrev pub stamped : Surroundings → UserMemoryDoc → UserMemoryDoc
stamped around doc = record {
  content = doc.content;
  backup = doc.backup;
  last_condensed_at = doc.last_condensed_at;
  updated_at = around.now;
}

unfoldable pub set_user_memory_doc :
    Surroundings → Vault → UserMemoryDoc → Result Text UserMemoryDoc × Vault
set_user_memory_doc around v doc =
    if not v.unlocked then (err err_locked, v) else elim around.write_fault [
      | some fault ↦ (err fault, v)
      | none ↦ (
        ok (stamped around doc),
        record { unlocked = v.unlocked; row = some (stamped around doc) },
      )
    ]

-- reading the document, and writing it back with other content
unfoldable pub rewrite_doc :
    (Text → Text) → Surroundings → Vault → Result Text UserMemoryDoc × Vault
unfolding get_user_memory_doc set_user_memory_doc
rewrite_doc edit around v = elim (get_user_memory_doc around v) [
  | err e ↦ (err e, v)
  | ok doc ↦ set_user_memory_doc around v (with_content doc (edit doc.content))
]

abbrev pub newline : ℕ
newline = 10

abbrev pub user_memory_prompt_cap : ℕ
user_memory_prompt_cap = 8000

unfoldable pub is_blank_line : Text → Bool
unfolding is_empty trim_space
is_blank_line l = is_empty (trim_space l)

-- the lines of a document, as both loops walk them
unfoldable pub document_lines : Text → List Text
unfolding split_on trim_space
document_lines content = split_on newline (trim_space content)

unfoldable pub user_memory_header : Text
user_memory_header =
    codes "## Information loaded from Settings → Memory\n"
    ++ codes "Background information about the user, maintained across chats:\n"

unfoldable pub user_memory_instruction : Text → Text
unfolding is_empty trim_space user_memory_header
user_memory_instruction content =
    let full = user_memory_header ++ trim_space content in
    if is_empty (trim_space content)
    then []
    else if ltb user_memory_prompt_cap (length full)
    then take user_memory_prompt_cap full
    else full

-- what follows the loop of `RemoveUserMemoryLine`
unfoldable pub store_removed :
    Surroundings → Vault → UserMemoryDoc → List Text × ℕ → Result Text ℕ × Vault
unfolding set_user_memory_doc join_texts
store_removed around v doc (left, removed) =
    let saved = set_user_memory_doc around v (with_content doc (join_texts (newline ∷ []) left)) in
    if removed == 0
    then (ok 0, v)
    else elim saved.0 [ err e ↦ (err e, saved.1) | ok d ↦ (ok removed, saved.1) ]

module _ (lower_rune : ℕ → ℕ) where
  unfoldable pub normalize_user_fact_key : Text → Text
  unfolding join_texts fields to_lower trim_space
  normalize_user_fact_key key =
      join_texts (codes "-") (fields (to_lower lower_rune (trim_space key)))

  -- a line without its dash and its category
  unfoldable pub line_body : Text → Text
  unfolding trim_space trim_prefix has_prefix has_char after
  line_body line =
      let trimmed = trim_space (trim_prefix (trim_space line) (codes "-")) in
      if has_prefix trimmed (codes "[") && has_char b']' trimmed
      then trim_space (after b']' trimmed)
      else trimmed

  unfoldable pub memory_line_has_key : Text → Text → Bool
  unfolding line_body before normalize_user_fact_key text_eq
  memory_line_has_key line key =
      text_eq (normalize_user_fact_key (before b':' (line_body line))) key

  -- the loop of `AppendUserMemoryLine`, from its flag `replaced`
  unfoldable pub upsert_line : Text → Text → Bool → List Text → List Text
  unfolding memory_line_has_key is_blank_line
  upsert_line key line replaced [] = if replaced then [] else line ∷ []
  upsert_line key line replaced (l ∷ ls) =
      let skipped = upsert_line key line replaced ls in
      let put = upsert_line key line true ls in
      if is_blank_line l
      then skipped
      else if memory_line_has_key l key
      then (if replaced then skipped else line ∷ put)
      else l ∷ skipped

  -- the content after `AppendUserMemoryLine`
  unfoldable pub upserted : Text → Text → Text → Text
  unfolding upsert_line document_lines join_texts
  upserted key line content =
      join_texts (newline ∷ []) (upsert_line key line false (document_lines content))

  -- the loop of `RemoveUserMemoryLine`: the lines that stay, and how many do not
  unfoldable pub remove_lines : Text → List Text → List Text × ℕ
  unfolding memory_line_has_key is_blank_line
  remove_lines key [] = ([], 0)
  remove_lines key (l ∷ ls) =
      let rest = remove_lines key ls in
      if is_blank_line l
      then rest
      else if memory_line_has_key l key
      then (rest.0, suc rest.1)
      else (l ∷ rest.0, rest.1)

  module _ (scrub : Text → Text) where
    unfoldable pub set_memory_doc : Surroundings → Vault → Text → Result Text UserMemoryDoc × Vault
    unfolding rewrite_doc trim_space
    set_memory_doc around v content =
        if not v.unlocked
        then (err err_locked, v)
        else rewrite_doc (λ old. scrub (trim_space content)) around v

    unfoldable pub memory_line : Text → Text → Text → Text
    unfolding is_empty to_lower trim_space
    memory_line key category content =
        let label = to_lower lower_rune (trim_space category) in
        scrub (
          if not (is_empty label)
          then codes "- [" ++ label ++ codes "] " ++ key ++ codes ": " ++ content
          else codes "- " ++ key ++ codes ": " ++ content)

    unfoldable pub append_user_memory_line :
        Surroundings → Vault → Text → Text → Text → Result Text UserMemoryDoc × Vault
    unfolding rewrite_doc normalize_user_fact_key memory_line upserted is_empty trim_space
    append_user_memory_line around v raw_key category raw_content =
        let key = normalize_user_fact_key raw_key in
        let content = trim_space raw_content in
        if not v.unlocked
        then (err err_locked, v)
        else if is_empty key || is_empty content
        then (err (codes "key and content are required"), v)
        else rewrite_doc (upserted key (memory_line key category content)) around v

  unfoldable pub remove_user_memory_line : Surroundings → Vault → Text → Result Text ℕ × Vault
  unfolding get_user_memory_doc store_removed normalize_user_fact_key remove_lines document_lines
      is_empty
  remove_user_memory_line around v raw_key =
      let key = normalize_user_fact_key raw_key in
      if not v.unlocked
      then (err err_locked, v)
      else if is_empty key
      then (err (codes "key is required"), v)
      else elim (get_user_memory_doc around v) [
        | err e ↦ (err e, v)
        | ok doc ↦ store_removed around v doc (remove_lines key (document_lines doc.content))
      ]
