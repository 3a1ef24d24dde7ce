-- ===== src/History/Compacted.antt =====
-- The theorems on `CompactChatHistory`, internal/application/chat_compaction.go.
use agent_workspace.Prelude.{
  ℕ, ◌≡◌, sym, ap, ◌∙◌, Option, none, some, List, [], ◌∷◌, Text, arith, keep, map, Result, ok, err,
}
use agent_workspace.History.{Message, history_of, is_conversation}
use agent_workspace.History.Compaction.{
  limit_or, summary_message, Services, ModelConfig, CompactChatHistoryInput,
  CompactChatHistoryResult, store_compacted, compact_chat_history,
}
use agent_workspace.History.Replacing.{IsCompacted, Outcome, compact_cases}

same_some : {a b : List Message} → ◌≡◌ {A = Option (List Message)} (some a) (some b) → a ≡ b
same_some h = cc

store_compacted-replaced :
    (services : Services) (config : ModelConfig) (chat_id summary : Text) (compacted : List Message)
    → (store_compacted services config chat_id summary compacted).1.replaced_by ≡ some compacted
unfolding store_compacted
store_compacted-replaced services config chat_id summary compacted = ground arith

store_compacted-ok :
    (services : Services) (config : ModelConfig) (chat_id summary : Text) (compacted : List Message)
    (r : CompactChatHistoryResult)
    → (store_compacted services config chat_id summary compacted).0 ≡ ok r
    → (services.replace chat_id compacted ≡ ok r.messages)
      × (services.reset_session config chat_id (map history_of r.messages) ≡ ok tt)
      × ((store_compacted services config chat_id summary compacted).1.reset_to
          ≡ some (map history_of r.messages))
      × (r.chat_id ≡ chat_id)
      × (r.summary ≡ summary)
      × (r.model_config ≡ config)
unfolding store_compacted
store_compacted-ok services config chat_id summary compacted r passed = ground arith

-- the messages behind the summary
abbrev pub recent_of : List Message → List Message
recent_of [] = []
recent_of (m ∷ ms) = ms

module _ (lower_rune fold_rune : ℕ → ℕ) (scrub : Text → Text) where
  -- Whatever a compaction hands to the store, and whether or not it then succeeds, is a summary that is not
  -- empty and has at most the limit's characters and three dots, in front of the exact end of the
  -- conversation that was listed: at least two messages, with at least one older message left out.
  pub compact_chat_history-replaces :
      (services : Services) (input : CompactChatHistoryInput) (messages c : List Message)
      → services.list_messages input.chat_id ≡ ok messages
      → (compact_chat_history lower_rune fold_rune scrub services input).1.replaced_by ≡ some c
      → (summary : Text) × (recent : List Message) × (c ≡ summary_message summary ∷ recent)
        × IsCompacted
            (limit_or 1800 input.summary_max_runes)
            (keep (is_conversation lower_rune fold_rune) messages)
            summary
            recent
  compact_chat_history-replaces services input messages c listed stored =
      compact_cases lower_rune fold_rune scrub services input Explained nothing messages listed kept
        c stored
    where
      Explained : Outcome → Type 0
      Explained o =
          (d : List Message)
          → o.1.replaced_by ≡ some d
          → (summary : Text) × (recent : List Message) × (d ≡ summary_message summary ∷ recent)
            × IsCompacted (limit_or 1800 input.summary_max_runes)
                (keep (is_conversation lower_rune fold_rune) messages) summary recent

      nothing : (e : Text) → Explained (err e, record { replaced_by = none; reset_to = none })
      nothing e d stored = elim (impossible stored) [ ]
        where
          impossible : ◌≡◌ {A = Option (List Message)} none (some d) → ⊥
          impossible h = cc

      kept :
          (config : ModelConfig)
          → services.runtime_config ≡ ok config
          → (summary : Text) (recent : List Message)
          → IsCompacted
              (limit_or 1800 input.summary_max_runes)
              (keep (is_conversation lower_rune fold_rune) messages)
              summary
              recent
          → Explained (
              store_compacted services config input.chat_id summary
                (summary_message summary ∷ recent))
      kept config held summary recent compacted d stored = (
        summary,
        recent,
        same_some (
            sym stored
            ∙ store_compacted-replaced services config input.chat_id summary
                (summary_message summary ∷ recent)),
        compacted,
      )

  -- A compaction that succeeds has handed messages to the store under the chat's id, the reported summary in
  -- front, and reports what the store answered to them; and the runtime has reset the chat's session to
  -- exactly those, under the configuration that it reports, and answered without an error.
  pub compact_chat_history-ok :
      (services : Services) (input : CompactChatHistoryInput) (messages : List Message)
      (r : CompactChatHistoryResult)
      → services.list_messages input.chat_id ≡ ok messages
      → (compact_chat_history lower_rune fold_rune scrub services input).0 ≡ ok r
      → (c : List Message) × ((compact_chat_history lower_rune fold_rune scrub services
            input).1.replaced_by
          ≡ some c)
        × (services.replace input.chat_id c ≡ ok r.messages)
        × (config : ModelConfig) × (services.runtime_config ≡ ok config)
        × (services.reset_session config input.chat_id (map history_of r.messages) ≡ ok tt)
        × ((compact_chat_history lower_rune fold_rune scrub services input).1.reset_to
            ≡ some (map history_of r.messages))
        × (r.chat_id ≡ input.chat_id)
        × (c ≡ summary_message r.summary ∷ recent_of c)
        × (r.model_config ≡ config)
  compact_chat_history-ok services input messages r listed passed =
      compact_cases lower_rune fold_rune scrub services input Served failed messages listed served r
        passed
    where
      Served : Outcome → Type 0
      Served o =
          (d : CompactChatHistoryResult)
          → o.0 ≡ ok d
          → (c : List Message) × (o.1.replaced_by ≡ some c)
            × (services.replace input.chat_id c ≡ ok d.messages)
            × (config : ModelConfig) × (services.runtime_config ≡ ok config)
            × (services.reset_session config input.chat_id (map history_of d.messages) ≡ ok tt)
            × (o.1.reset_to ≡ some (map history_of d.messages))
            × (d.chat_id ≡ input.chat_id)
            × (c ≡ summary_message d.summary ∷ recent_of c)
            × (d.model_config ≡ config)

      failed : (e : Text) → Served (err e, record { replaced_by = none; reset_to = none })
      failed e d same = elim (impossible same) [ ]
        where
          impossible : ◌≡◌ {A = Result Text CompactChatHistoryResult} (err e) (ok d) → ⊥
          impossible h = cc

      served :
          (config : ModelConfig)
          → services.runtime_config ≡ ok config
          → (summary : Text) (recent : List Message)
          → IsCompacted
              (limit_or 1800 input.summary_max_runes)
              (keep (is_conversation lower_rune fold_rune) messages)
              summary
              recent
          → Served (
              store_compacted services config input.chat_id summary
                (summary_message summary ∷ recent))
      served config held summary recent compacted d same =
          let stored =
            store_compacted-ok services config input.chat_id summary
              (summary_message summary ∷ recent) d same in
          (
            summary_message summary ∷ recent,
            store_compacted-replaced services config input.chat_id summary
                (summary_message summary ∷ recent),
            stored.0,
            config,
            held,
            stored.1,
            stored.2,
            stored.3,
            ap (λ t. summary_message t ∷ recent) (sym stored.4),
            stored.5,
          )
