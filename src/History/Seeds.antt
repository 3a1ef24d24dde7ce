-- ===== src/History/Seeds.antt =====
-- The seed as a whole, `BuildRestoreSeed` and `EnsureChatSessionRestored` of internal/application/chat_restore.go.
use agent_workspace.Prelude.{
  ℕ, ◌+◌, ◌≡◌, inl, refl, sym, ap, ◌∙◌, subst, true, List, [], ◌∷◌, ◌++◌, arith, keep, length,
}
use agent_workspace.History.{Message, is_conversation}
use agent_workspace.History.Restore.{rev_onto, walk_back, open_on_user, is_user, restore_tail}
use agent_workspace.History.Tails.{
  IsSuffix, IsWithin, IsSuffix-trans, rev_onto_twice, walk_back-IsSuffix, walk_back_keeps,
  walk_back-IsWithin, IsSuffix-IsWithin, open_on_user-IsSuffix, OpensOnUser,
  open_on_user-OpensOnUser, open_on_user_keeps,
}

rev_onto-last :
    (front : List Message) (m : Message) (ys : List Message)
    → rev_onto (front ++ m ∷ []) ys ≡ m ∷ rev_onto front ys
unfolding rev_onto
rev_onto-last [] m ys = refl
rev_onto-last (x ∷ front) m ys = rev_onto-last front m (x ∷ ys)

-- the newest message is always taken
walk_back_first :
    (m : Message) (older : List Message)
    → walk_back [] 0 (m ∷ older) ≡ walk_back (m ∷ []) (length m.content) older
walk_back_first m older = opened ∙ ap (λ c. walk_back (m ∷ []) c older) (omega arith)
  where
    opened : walk_back [] 0 (m ∷ older) ≡ walk_back (m ∷ []) (0 + length m.content) older
    opened = unfold walk_back in refl

module _ (lower_rune fold_rune : ℕ → ℕ) where
  -- the saved messages of users and assistants, as they were saved
  abbrev pub conversation : List Message → List Message
  conversation = keep (is_conversation lower_rune fold_rune)

  abbrev walked : List Message → List Message
  walked messages = walk_back [] 0 (rev_onto (conversation messages) [])

  walked-IsSuffix : (messages : List Message) → IsSuffix (walked messages) (conversation messages)
  walked-IsSuffix messages =
      subst (IsSuffix (walked messages))
        (rev_onto_twice (conversation messages) [] ∙ unfold rev_onto in refl)
        (walk_back-IsSuffix [] 0 (rev_onto (conversation messages) []))

  restore_tail_opened :
      (messages : List Message)
      → restore_tail lower_rune fold_rune messages
        ≡ open_on_user lower_rune fold_rune (walked messages)
  restore_tail_opened messages = unfold restore_tail in refl

  restore_tail-IsSuffix :
      (messages : List Message)
      → IsSuffix (restore_tail lower_rune fold_rune messages) (conversation messages)
  restore_tail-IsSuffix messages =
      subst (λ t. IsSuffix t (conversation messages)) (sym (restore_tail_opened messages))
        (IsSuffix-trans (open_on_user lower_rune fold_rune (walked messages)) (walked messages)
          (conversation messages) (open_on_user-IsSuffix lower_rune fold_rune (walked messages))
          (walked-IsSuffix messages))

  -- Whatever is saved, the tail that is restored is the end of the saved conversation, unchanged; it has at
  -- most 30 messages; it has at most 24000 characters or is one message; and it is empty or opens on a
  -- user's message.
  pub restore_tail_lem :
      (messages : List Message)
      → IsSuffix (restore_tail lower_rune fold_rune messages) (conversation messages)
        × (IsWithin (restore_tail lower_rune fold_rune messages)
            × OpensOnUser lower_rune fold_rune (restore_tail lower_rune fold_rune messages))
  restore_tail_lem messages = (
    restore_tail-IsSuffix messages,
    (
      subst IsWithin (sym (restore_tail_opened messages)) within,
      subst (OpensOnUser lower_rune fold_rune) (sym (restore_tail_opened messages))
          (open_on_user-OpensOnUser lower_rune fold_rune (walked messages)),
    ),
  )
    where
      within : IsWithin (open_on_user lower_rune fold_rune (walked messages))
      within =
          IsSuffix-IsWithin (open_on_user lower_rune fold_rune (walked messages)) (walked messages)
            (open_on_user-IsSuffix lower_rune fold_rune (walked messages))
            (walk_back-IsWithin [] 0 (rev_onto (conversation messages) []) refl
              (omega arith, inl (omega arith)))

  -- When the newest message of the conversation is a user's, the tail ends with it, however long it is.
  pub restore_tail-newest :
      (messages front : List Message) (m : Message)
      → conversation messages ≡ front ++ m ∷ []
      → is_user lower_rune fold_rune m ≡ true
      → IsSuffix (m ∷ []) (restore_tail lower_rune fold_rune messages)
  restore_tail-newest messages front m ends user =
      subst (IsSuffix (m ∷ []))
        (sym (restore_tail_opened messages ∙ ap (open_on_user lower_rune fold_rune) kept.1))
        (open_on_user_keeps lower_rune fold_rune kept.0 m user)
    where
      kept : IsSuffix (m ∷ []) (walked messages)
      kept =
          subst (IsSuffix (m ∷ []))
            (sym (
              ap (λ c. walk_back [] 0 (rev_onto c [])) ends
              ∙ ap (walk_back [] 0) (rev_onto-last front m [])
              ∙ walk_back_first m (rev_onto front [])))
            (walk_back_keeps (m ∷ []) (length m.content) (rev_onto front []))
