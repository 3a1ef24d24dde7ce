-- ===== src/Tasks.antt =====
-- The task list: internal/domain/tasks.go and internal/application/tasks.go, over the port of the vault. An attachment's data
-- is a list of bytes.
pub mod Attachments
pub mod Cap
mod Tests
use agent_workspace.Prelude.{
  ℕ, ◌++◌, Bool, true, false, not, ◌&&◌, ◌||◌, Option, none, some, List, [], ◌∷◌, Text, codes,
  text_eq, elem, is_empty, trim_space, to_lower, length, ltb, leb, ◌==◌, Result, ok, err,
  if◌then◌else◌, ℤ,
}

abbrev pub tasks_status_open : Text
tasks_status_open = codes "open"

abbrev pub tasks_attachment_max_bytes : ℕ
tasks_attachment_max_bytes = 5242880

abbrev pub tasks_max_attachments : ℕ
tasks_max_attachments = 5

abbrev pub tasks_statuses : List Text
tasks_statuses =
    tasks_status_open ∷ codes "in-progress" ∷ codes "needs-validation" ∷ codes "completed" ∷ []

unfoldable pub is_tasks_status : Text → Bool
unfolding elem
is_tasks_status status = elem status tasks_statuses

abbrev pub tasks_attachment_mime_types : List Text
tasks_attachment_mime_types =
    codes "image/jpeg" ∷ codes "image/png" ∷ codes "image/gif" ∷ codes "image/webp" ∷ []

unfoldable pub is_tasks_attachment_mime_type : Text → Bool
unfolding elem
is_tasks_attachment_mime_type mime_type = elem mime_type tasks_attachment_mime_types

pub record TasksAttachment : Type 0 where
  pub id : Text
  pub item_id : Text
  pub name : Text
  pub mime_type : Text
  pub size : ℕ
  pub created_at : Text

pub record TasksItem : Type 0 where
  pub id : Text
  pub title : Text
  pub body : Text
  pub status : Text
  pub position : ℤ
  pub created_at : Text
  pub attachments : List TasksAttachment

-- ports.TasksStore, over a state of its own
pub record TasksStore (S : Type 0) : Type 0 where
  pub is_unlocked : S → Bool
  pub create_item : Text → Text → Text → S → Result Text TasksItem × S
  pub list_items : S → Result Text (List TasksItem)
  pub get_item : Text → S → Result Text TasksItem
  pub update_item : Text → Text → Text → Text → ℤ → S → Result Text TasksItem × S
  pub delete_item : Text → S → Result Text (Unit {0}) × S
  pub add_attachment : Text → Text → Text → List ℕ → S → Result Text TasksAttachment × S
  pub list_attachments : Text → S → Result Text (List TasksAttachment)
  pub get_attachment : Text → S → Result Text (TasksAttachment × List ℕ)
  pub delete_attachment : Text → S → Result Text (Unit {0}) × S

abbrev pub tasks_vault_locked : Text
tasks_vault_locked = codes "vault is locked"

abbrev pub or_text : Text → Text → Text
or_text [] other = other
or_text (c ∷ t) other = c ∷ t

abbrev pub or_value {ℓ} : {A : Type ℓ} → Option A → A → A
or_value none other = other
or_value (some a) other = a

abbrev pub is_none {ℓ} : {A : Type ℓ} → Option A → Bool
is_none none = true
is_none (some a) = false

module _ (lower_rune : ℕ → ℕ) where
  unfoldable pub normalize_tasks_status : Text → Result Text Text
  unfolding to_lower trim_space is_tasks_status is_empty
  normalize_tasks_status raw =
      let status = to_lower lower_rune (trim_space raw) in
      if is_empty status
      then ok []
      else if not (is_tasks_status status)
      then err (codes "invalid status " ++ status)
      else ok status

module _ {S : Type 0} (store : TasksStore S) where
  unfoldable pub list_tasks_items : S → Result Text (List TasksItem)
  list_tasks_items s =
      if not (store.is_unlocked s) then err tasks_vault_locked else store.list_items s

  unfoldable pub get_tasks_item : Text → S → Result Text TasksItem
  unfolding trim_space is_empty
  get_tasks_item id s =
      if not (store.is_unlocked s)
      then err tasks_vault_locked
      else if is_empty (trim_space id)
      then err (codes "item id is required")
      else store.get_item (trim_space id) s

  unfoldable pub delete_tasks_item : Text → S → Result Text TasksItem × S
  unfolding trim_space is_empty
  delete_tasks_item id s =
      let deleted = store.delete_item (trim_space id) s in
      if not (store.is_unlocked s)
      then (err tasks_vault_locked, s)
      else if is_empty (trim_space id)
      then (err (codes "item id is required"), s)
      else elim (store.get_item (trim_space id) s) [
        | err e ↦ (err e, s)
        | ok item ↦ elim deleted.0 [ err e ↦ (err e, deleted.1) | ok done ↦ (ok item, deleted.1) ]
      ]

  unfoldable pub get_tasks_attachment : Text → S → Result Text (TasksAttachment × List ℕ)
  unfolding trim_space is_empty
  get_tasks_attachment id s =
      if not (store.is_unlocked s)
      then err tasks_vault_locked
      else if is_empty (trim_space id)
      then err (codes "attachment id is required")
      else store.get_attachment (trim_space id) s

  unfoldable pub delete_tasks_attachment : Text → S → Result Text (Unit {0}) × S
  unfolding trim_space is_empty
  delete_tasks_attachment id s =
      if not (store.is_unlocked s)
      then (err tasks_vault_locked, s)
      else if is_empty (trim_space id)
      then (err (codes "attachment id is required"), s)
      else store.delete_attachment (trim_space id) s

  module _ (lower_rune : ℕ → ℕ) where
    unfoldable pub create_tasks_item : Text → Text → Text → S → Result Text TasksItem × S
    unfolding trim_space is_empty normalize_tasks_status
    create_tasks_item title body status s =
        if not (store.is_unlocked s)
        then (err tasks_vault_locked, s)
        else if is_empty (trim_space title)
        then (err (codes "item title is required"), s)
        else elim (normalize_tasks_status lower_rune status) [
          | err e ↦ (err e, s)
          | ok normal ↦
              store.create_item (trim_space title) body (or_text normal tasks_status_open) s
        ]

    -- the end of `UpdateTasksItem`, once the status is normal
    unfoldable pub merge_tasks_item :
        Text → Text → Option Text → Text → Option ℤ → S → Result Text TasksItem × S
    unfolding is_empty
    merge_tasks_item id title body status position s =
        if is_empty title && (is_none body && (is_empty status && is_none position))
        then (err (codes "title, body, status and/or position is required"), s)
        else elim (store.get_item id s) [
          | err e ↦ (err e, s)
          | ok current ↦
              store.update_item id (or_text title current.title) (or_value body current.body)
                (or_text status current.status) (or_value position current.position) s
        ]

    unfoldable pub update_tasks_item :
        Text → Text → Option Text → Text → Option ℤ → S → Result Text TasksItem × S
    unfolding trim_space is_empty normalize_tasks_status merge_tasks_item
    update_tasks_item id title body status position s =
        if not (store.is_unlocked s)
        then (err tasks_vault_locked, s)
        else if is_empty (trim_space id)
        then (err (codes "item id is required"), s)
        else elim (normalize_tasks_status lower_rune status) [
          | err e ↦ (err e, s)
          | ok normal ↦ merge_tasks_item (trim_space id) (trim_space title) body normal position s
        ]

    -- the end of `AddTasksAttachment`, once the existing ones are listed
    unfoldable pub add_below_cap :
        List TasksAttachment → Text → Text → Text → List ℕ → S → Result Text TasksAttachment × S
    unfolding trim_space
    add_below_cap existing item_id name mime_type bytes s =
        if leb tasks_max_attachments (length existing)
        then (err (codes "a tasks item can have at most 5 image attachments"), s)
        else store.add_attachment item_id (or_text (trim_space name) (codes "image")) mime_type
            bytes s

    unfoldable pub add_tasks_attachment :
        Text → Text → Text → List ℕ → S → Result Text TasksAttachment × S
    unfolding trim_space is_empty to_lower is_tasks_attachment_mime_type add_below_cap
    add_tasks_attachment raw_id name raw_type bytes s =
        let item_id = trim_space raw_id in
        let mime_type = to_lower lower_rune (trim_space raw_type) in
        if not (store.is_unlocked s)
        then (err tasks_vault_locked, s)
        else if is_empty item_id
        then (err (codes "item id is required"), s)
        else if not (is_tasks_attachment_mime_type mime_type)
        then (err (codes "unsupported image type " ++ mime_type), s)
        else if length bytes == 0
        then (err (codes "attachment data is required"), s)
        else if ltb tasks_attachment_max_bytes (length bytes)
        then (err (codes "the limit is 5 MB per image"), s)
        else elim (store.list_attachments item_id s) [
          | err e ↦ (err e, s)
          | ok existing ↦ add_below_cap existing item_id name mime_type bytes s
        ]
