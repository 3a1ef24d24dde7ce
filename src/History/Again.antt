-- ===== src/History/Again.antt =====
-- Compacting what was compacted, internal/application/chat_compaction.go.
use agent_workspace.Prelude.{
  ℕ, ◌≡◌, refl, ap, ◌∙◌, subst, Bool, true, false, not, ◌&&◌, some, List, [], ◌∷◌, ◌++◌, Text,
  arith, keep, map, All, ok, is_empty, text_eq_refl, trim_space, has_prefix, codes,
}
use agent_workspace.History.{
  Message, is_conversation, is_summary, is_compaction_summary_message, compact_summary_prefix,
  equal_fold,
}
use agent_workspace.History.Compaction.{
  compactable_conversation, summary_message, Services, CompactChatHistoryInput,
  compact_chat_history,
}
use agent_workspace.History.Compacted.{compact_chat_history-replaces}

keep-All : (p : Message → Bool) (xs : List Message) → All (λ m. p m ≡ true) (keep p xs)
unfolding keep
keep-All p [] = tt
keep-All p (x ∷ xs) = ground (arith, keep-All p xs)

All-keep : (p : Message → Bool) (xs : List Message) → All (λ m. p m ≡ true) xs → keep p xs ≡ xs
unfolding keep
All-keep p [] h = refl
All-keep p (x ∷ xs) (h, hs) = ground (arith, All-keep p xs hs)

All-right :
    (p : Message → Bool) (xs ys : List Message)
    → All (λ m. p m ≡ true) (xs ++ ys)
    → All (λ m. p m ≡ true) ys
All-right p [] ys h = h
All-right p (x ∷ xs) ys (h, hs) = All-right p xs ys hs

-- the end of what a filter keeps is kept whole
keep-suffix :
    (p : Message → Bool) (whole front tail : List Message)
    → keep p whole ≡ front ++ tail
    → keep p tail ≡ tail
keep-suffix p whole front tail ends =
    All-keep p tail (All-right p front tail (subst (All (λ m. p m ≡ true)) ends (keep-All p whole)))

module _ (lower_rune fold_rune : ℕ → ℕ) where
  summary_message-summary :
      (summary : Text)
      → is_compaction_summary_message lower_rune fold_rune
          (summary_message summary).role
          (summary_message summary).content
        ≡ true
  summary_message-summary summary = opened ∙ rw (same_role, marked)
    where
      opened :
          is_compaction_summary_message lower_rune fold_rune
            (summary_message summary).role
            (summary_message summary).content
          ≡ (equal_fold fold_rune (trim_space (codes "system")) (codes "system")
              && has_prefix
                  (trim_space (compact_summary_prefix ++ codes "\n" ++ summary))
                  compact_summary_prefix)
      opened = unfold is_compaction_summary_message in unfold summary_message in refl

      same_role : equal_fold fold_rune (trim_space (codes "system")) (codes "system") ≡ true
      same_role =
          unfold equal_fold in unfold trim_space in text_eq_refl (map fold_rune (codes "system"))

      marked :
          has_prefix
            (trim_space (compact_summary_prefix ++ codes "\n" ++ summary))
            compact_summary_prefix
          ≡ true
      marked = unfold trim_space in unfold has_prefix in refl

  not_conversation :
      (summary : Text) → is_conversation lower_rune fold_rune (summary_message summary) ≡ false
  unfolding is_conversation
  not_conversation summary = ground (arith, summary_message-summary summary)

  is_a_summary : (summary : Text) → is_summary lower_rune fold_rune (summary_message summary) ≡ true
  is_a_summary summary = opened ∙ rw (summary_message-summary summary, full)
    where
      opened : is_summary lower_rune fold_rune (summary_message summary) ≡ (
          not (is_empty (trim_space (summary_message summary).content))
          && is_compaction_summary_message lower_rune fold_rune
              (summary_message summary).role
              (summary_message summary).content)
      opened = unfold is_summary in refl

      full : is_empty (trim_space (summary_message summary).content) ≡ false
      full = unfold summary_message in unfold trim_space in unfold is_empty in refl

  compacted_conversation :
      (c : List Message)
      → (compactable_conversation lower_rune fold_rune c).1
        ≡ keep (is_conversation lower_rune fold_rune) c
  compacted_conversation c = unfold compactable_conversation in refl

  summary_left_out :
      (summary : Text) (recent : List Message)
      → keep (is_conversation lower_rune fold_rune) (summary_message summary ∷ recent)
        ≡ keep (is_conversation lower_rune fold_rune) recent
  unfolding keep
  summary_left_out summary recent = rw (not_conversation summary)

  not_both :
      (m : Message)
      → is_conversation lower_rune fold_rune m ≡ true
      → is_summary lower_rune fold_rune m ≡ false
  unfolding is_conversation is_summary
  not_both m h = ground arith

  no_summaries :
      (ms : List Message)
      → All (λ m. is_conversation lower_rune fold_rune m ≡ true) ms
      → keep (is_summary lower_rune fold_rune) ms ≡ []
  unfolding keep
  no_summaries [] h = refl
  no_summaries (m ∷ ms) (h, hs) = ground (arith, not_both m h, no_summaries ms hs)

  summary_alone :
      (summary : Text) (recent : List Message)
      → All (λ m. is_conversation lower_rune fold_rune m ≡ true) recent
      → keep (is_summary lower_rune fold_rune) (summary_message summary ∷ recent)
        ≡ summary_message summary ∷ []
  unfolding keep
  summary_alone summary recent h = rw (is_a_summary summary, no_summaries recent h)

  -- When messages have been compacted, compacting again sees one previous summary and exactly the recent
  -- messages that were kept.
  pub compact_chat_history-again :
      (scrub : Text → Text) (services : Services) (input : CompactChatHistoryInput)
      (messages c : List Message)
      → services.list_messages input.chat_id ≡ ok messages
      → (compact_chat_history lower_rune fold_rune scrub services input).1.replaced_by ≡ some c
      → (summary : Text) × (recent : List Message) × (c ≡ summary_message summary ∷ recent)
        × ((compactable_conversation lower_rune fold_rune c).1 ≡ recent)
        × (keep (is_summary lower_rune fold_rune) c ≡ summary_message summary ∷ [])
  compact_chat_history-again scrub services input messages c listed stored =
      let kept =
        compact_chat_history-replaces lower_rune fold_rune scrub services input messages c listed
          stored in
      let alone =
        keep-suffix (is_conversation lower_rune fold_rune) messages kept.3.0 kept.1 kept.3.1 in
      (
        kept.0,
        kept.1,
        kept.2,
        compacted_conversation c
            ∙ ap (keep (is_conversation lower_rune fold_rune)) kept.2
            ∙ summary_left_out kept.0 kept.1
            ∙ alone,
        ap (keep (is_summary lower_rune fold_rune)) kept.2
            ∙ summary_alone kept.0 kept.1 (
                subst (All (λ m. is_conversation lower_rune fold_rune m ≡ true)) alone
                  (keep-All (is_conversation lower_rune fold_rune) kept.1)),
      )
