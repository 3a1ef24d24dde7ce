-- ===== src/Tasks/Cap.antt =====
-- The cap on attachments of internal/application/tasks.go.
use agent_workspace.Prelude.{
  ℕ, ◌⊎◌, ◌≡◌, ◌≤◌, refl, ap, true, false, not, List, [], ◌∷◌, Text, arith, codes, text_eq,
  eq_of_text_eq, is_empty, trim_space, to_lower, length, ltb, leb, ◌==◌, Result, ok, err,
  Bool-cases, if_cases, inl, inr,
}
use agent_workspace.Tasks.{
  or_text, TasksStore, TasksAttachment, add_below_cap, add_tasks_attachment,
  is_tasks_attachment_mime_type,
}
use agent_workspace.Tasks.Attachments.{
  attached, TasksStoreLaws, TasksCall, create, update, remove, attach, detach, IsCapped, call,
  calls, create-IsCapped, update-IsCapped, delete-IsCapped, detach-IsCapped,
}

module _ {S : Type 0} (store : TasksStore S) (lower_rune : ℕ → ℕ)
    (laws : TasksStoreLaws S store) where
  below-IsCapped :
      (existing : List TasksAttachment) (item name mime : Text) (bytes : List ℕ) (s : S)
      → store.list_attachments item s ≡ ok existing
      → IsCapped store lower_rune s
      → IsCapped store lower_rune (add_below_cap store lower_rune existing item name mime bytes s).1
  unfolding add_below_cap
  below-IsCapped existing item name mime bytes s listed capped =
      if_cases P (leb 5 (length existing)) (λ _. capped)
        (λ room j. within room j (Bool-cases (text_eq j item)))
    where
      P : Result Text TasksAttachment × S → Type 0
      P r = IsCapped store lower_rune r.1

      count_listed : attached store item s ≡ length existing
      count_listed = ap (λ r. elim r [ err e ↦ 0 | ok xs ↦ length xs ]) listed

      within :
          leb 5 (length existing) ≡ false
          → (j : Text) → (text_eq j item ≡ true) ⊎ (text_eq j item ≡ false)
          → attached store j
              (store.add_attachment item (or_text (trim_space name) (codes "image")) mime bytes s).1
            ≤ 5
      within room j (inl same) = ground (
        arith,
        count_listed,
        ap (λ i. attached store i s) (eq_of_text_eq j item same),
        laws.add_adds item (or_text (trim_space name) (codes "image")) mime bytes j s,
      )
      within room j (inr other) = ground (
        arith,
        capped j,
        laws.add_adds item (or_text (trim_space name) (codes "image")) mime bytes j s,
      )

  attach-IsCapped :
      (id name mime : Text) (bytes : List ℕ) (s : S)
      → IsCapped store lower_rune s
      → IsCapped store lower_rune (add_tasks_attachment store lower_rune id name mime bytes s).1
  unfolding add_tasks_attachment
  attach-IsCapped id name mime bytes s capped =
      if_cases P (not (store.is_unlocked s)) (λ _. capped)
        (λ _.
          if_cases P (is_empty item) (λ _. capped)
            (λ _.
              if_cases P (not (is_tasks_attachment_mime_type kind)) (λ _. capped)
                (λ _.
                  if_cases P (length bytes == 0) (λ _. capped)
                    (λ _.
                      if_cases P (ltb 5242880 (length bytes)) (λ _. capped)
                        (λ _. listed_cases (store.list_attachments item s) refl)))))
    where
      item : Text
      item = trim_space id

      kind : Text
      kind = to_lower lower_rune (trim_space mime)

      P : Result Text TasksAttachment × S → Type 0
      P r = IsCapped store lower_rune r.1

      listed_cases :
          (answer : Result Text (List TasksAttachment))
          → store.list_attachments item s ≡ answer
          → P (elim answer [
            | err e ↦ (err e, s)
            | ok existing ↦ add_below_cap store lower_rune existing item name kind bytes s
          ])
      listed_cases (err e) listed = capped
      listed_cases (ok existing) listed =
          below-IsCapped existing item name kind bytes s listed capped

  call-IsCapped :
      (c : TasksCall) (s : S)
      → IsCapped store lower_rune s
      → IsCapped store lower_rune (call store lower_rune c s)
  unfolding call
  call-IsCapped (create title body status) s capped =
      create-IsCapped store lower_rune laws title body status s capped
  call-IsCapped (update id title body status position) s capped =
      update-IsCapped store lower_rune laws id title body status position s capped
  call-IsCapped (remove id) s capped = delete-IsCapped store lower_rune laws id s capped
  call-IsCapped (attach id name mime bytes) s capped = attach-IsCapped id name mime bytes s capped
  call-IsCapped (detach id) s capped = detach-IsCapped store lower_rune laws id s capped

  calls-IsCapped :
      (cs : List TasksCall) (s : S)
      → IsCapped store lower_rune s
      → IsCapped store lower_rune (calls store lower_rune cs s)
  unfolding calls
  calls-IsCapped [] s capped = capped
  calls-IsCapped (c ∷ cs) s capped =
      calls-IsCapped cs (call store lower_rune c s) (call-IsCapped c s capped)

  -- Over a store that keeps its promises, no sequence of operations lets an item have more than 5 attachments,
  -- if none has more to begin with.
  pub attached-calls :
      (cs : List TasksCall) (s : S)
      → IsCapped store lower_rune s
      → (id : Text) → attached store id (calls store lower_rune cs s) ≤ 5
  attached-calls cs s capped id = calls-IsCapped cs s capped id
