-- ===== src/Tasks/Attachments.antt =====
-- The attachments of each item under the operations of internal/application/tasks.go.
use agent_workspace.Prelude.{
  ℕ, ◌+◌, ◌&&◌, ◌≤◌, not, Option, List, [], ◌∷◌, Text, arith, codes, text_eq, is_empty, trim_space,
  length, Result, ok, err, if◌then◌else◌, ℤ, if_cases,
}
use agent_workspace.Tasks.{
  or_text, or_value, is_none, TasksStore, TasksItem, normalize_tasks_status, create_tasks_item,
  update_tasks_item, merge_tasks_item, delete_tasks_item, add_tasks_attachment,
  delete_tasks_attachment,
}

-- how many attachments an item is listed with
abbrev pub attached : {S : Type 0} → TasksStore S → Text → S → ℕ
attached store id s = elim (store.list_attachments id s) [ err e ↦ 0 | ok xs ↦ length xs ]

-- What the vault's tables promise: an insert into the attachments adds at most one to its own item, and nothing else
-- adds an attachment.
pub record TasksStoreLaws (S : Type 0) (store : TasksStore S) : Type 0 where
  pub add_adds :
      (item name mime : Text) (bytes : List ℕ) (id : Text) (s : S)
      → attached store id (store.add_attachment item name mime bytes s).1
        ≤ attached store id s + (if text_eq id item then 1 else 0)
  pub create_keeps :
      (title body status id : Text) (s : S)
      → attached store id (store.create_item title body status s).1 ≤ attached store id s
  pub update_keeps :
      (item title body status : Text) (position : ℤ) (id : Text) (s : S)
      → attached store id (store.update_item item title body status position s).1
        ≤ attached store id s
  pub delete_keeps :
      (item id : Text) (s : S)
      → attached store id (store.delete_item item s).1 ≤ attached store id s
  pub remove_keeps :
      (attachment id : Text) (s : S)
      → attached store id (store.delete_attachment attachment s).1 ≤ attached store id s

-- a call of an operation that changes state
pub data TasksCall : Type 0 where
  create : Text → Text → Text → TasksCall
  update : Text → Text → Option Text → Text → Option ℤ → TasksCall
  remove : Text → TasksCall
  attach : Text → Text → Text → List ℕ → TasksCall
  detach : Text → TasksCall

module _ {S : Type 0} (store : TasksStore S) (lower_rune : ℕ → ℕ) where
  -- no item is over the cap
  abbrev pub IsCapped : S → Type 0
  IsCapped s = (id : Text) → attached store id s ≤ 5

  unfoldable pub call : TasksCall → S → S
  unfolding create_tasks_item update_tasks_item delete_tasks_item add_tasks_attachment
      delete_tasks_attachment
  call (create title body status) s = (create_tasks_item store lower_rune title body status s).1
  call (update id title body status position) s =
      (update_tasks_item store lower_rune id title body status position s).1
  call (remove id) s = (delete_tasks_item store id s).1
  call (attach id name mime bytes) s =
      (add_tasks_attachment store lower_rune id name mime bytes s).1
  call (detach id) s = (delete_tasks_attachment store id s).1

  unfoldable pub calls : List TasksCall → S → S
  unfolding call
  calls [] s = s
  calls (c ∷ cs) s = calls cs (call c s)

  module _ (laws : TasksStoreLaws S store) where
    pub create-IsCapped :
        (title body status : Text) (s : S)
        → IsCapped s
        → IsCapped (create_tasks_item store lower_rune title body status s).1
    unfolding create_tasks_item
    create-IsCapped title body status s capped =
        if_cases P (not (store.is_unlocked s)) (λ _. capped)
          (λ _.
            if_cases P (is_empty (trim_space title)) (λ _. capped)
              (λ _. settled (normalize_tasks_status lower_rune status)))
      where
        P : Result Text TasksItem × S → Type 0
        P r = IsCapped r.1

        settled :
            (normal : Result Text Text)
            → P (elim normal [
              | err e ↦ (err e, s)
              | ok n ↦ store.create_item (trim_space title) body (or_text n (codes "open")) s
            ])
        settled (err e) = capped
        settled (ok n) = λ id. omega (
          arith,
          capped id,
          laws.create_keeps (trim_space title) body (or_text n (codes "open")) id s,
        )

    merge-IsCapped :
        (id title : Text) (body : Option Text) (status : Text) (position : Option ℤ) (s : S)
        → IsCapped s
        → IsCapped (merge_tasks_item store lower_rune id title body status position s).1
    unfolding merge_tasks_item
    merge-IsCapped id title body status position s capped =
        if_cases P (is_empty title && (is_none body && (is_empty status && is_none position)))
          (λ _. capped) (λ _. settled (store.get_item id s))
      where
        P : Result Text TasksItem × S → Type 0
        P r = IsCapped r.1

        settled :
            (found : Result Text TasksItem)
            → P (elim found [
              | err e ↦ (err e, s)
              | ok current ↦
                  store.update_item id
                    (or_text title current.title)
                    (or_value body current.body)
                    (or_text status current.status)
                    (or_value position current.position)
                    s
            ])
        settled (err e) = capped
        settled (ok current) = λ j. omega (
          arith,
          capped j,
          laws.update_keeps id (or_text title current.title) (or_value body current.body)
              (or_text status current.status) (or_value position current.position) j s,
        )

    pub update-IsCapped :
        (id title : Text) (body : Option Text) (status : Text) (position : Option ℤ) (s : S)
        → IsCapped s
        → IsCapped (update_tasks_item store lower_rune id title body status position s).1
    unfolding update_tasks_item
    update-IsCapped id title body status position s capped =
        if_cases P (not (store.is_unlocked s)) (λ _. capped)
          (λ _.
            if_cases P (is_empty (trim_space id)) (λ _. capped)
              (λ _. settled (normalize_tasks_status lower_rune status)))
      where
        P : Result Text TasksItem × S → Type 0
        P r = IsCapped r.1

        settled :
            (normal : Result Text Text)
            → P (elim normal [
              | err e ↦ (err e, s)
              | ok n ↦
                  merge_tasks_item store lower_rune
                    (trim_space id)
                    (trim_space title)
                    body
                    n
                    position
                    s
            ])
        settled (err e) = capped
        settled (ok n) = merge-IsCapped (trim_space id) (trim_space title) body n position s capped

    pub delete-IsCapped :
        (id : Text) (s : S) → IsCapped s → IsCapped (delete_tasks_item store id s).1
    unfolding delete_tasks_item
    delete-IsCapped id s capped =
        if_cases P (not (store.is_unlocked s)) (λ _. capped)
          (λ _.
            if_cases P (is_empty (trim_space id)) (λ _. capped)
              (λ _. found (store.get_item (trim_space id) s)))
      where
        P : Result Text TasksItem × S → Type 0
        P r = IsCapped r.1

        after : IsCapped (store.delete_item (trim_space id) s).1
        after j = omega (arith, capped j, laws.delete_keeps (trim_space id) j s)

        deleted :
            (item : TasksItem) (answer : Result Text (Unit {0}))
            → P (elim answer [
              | err e ↦ (err e, (store.delete_item (trim_space id) s).1)
              | ok done ↦ (ok item, (store.delete_item (trim_space id) s).1)
            ])
        deleted item (err e) = after
        deleted item (ok done) = after

        found :
            (answer : Result Text TasksItem)
            → P (elim answer [
              | err e ↦ (err e, s)
              | ok item ↦ elim (store.delete_item (trim_space id) s).0 [
                | err e ↦ (err e, (store.delete_item (trim_space id) s).1)
                | ok done ↦ (ok item, (store.delete_item (trim_space id) s).1)
              ]
            ])
        found (err e) = capped
        found (ok item) = deleted item (store.delete_item (trim_space id) s).0

    pub detach-IsCapped :
        (id : Text) (s : S) → IsCapped s → IsCapped (delete_tasks_attachment store id s).1
    unfolding delete_tasks_attachment
    detach-IsCapped id s capped =
        if_cases P (not (store.is_unlocked s)) (λ _. capped)
          (λ _.
            if_cases P (is_empty (trim_space id)) (λ _. capped)
              (λ _ j. omega (arith, capped j, laws.remove_keeps (trim_space id) j s)))
      where
        P : Result Text (Unit {0}) × S → Type 0
        P r = IsCapped r.1
