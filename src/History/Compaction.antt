-- ===== src/History/Compaction.antt =====
-- internal/application/chat_compaction.go. The vault's and the provider store's answers, the model's
-- reply and the scrubbing of secrets are arguments.
use agent_workspace.Prelude.{
  ℕ, ◌+◌, ◌-◌, ◌%◌, ◌==◌, Bool, not, ◌&&◌, ◌||◌, Option, none, some, List, [], ◌∷◌, ◌++◌, Text,
  codes, text_eq, is_empty, trim_space, trim_prefix, keep, length, take, drop, ltb, leb, map,
  decimal, Result, ok, err, if◌then◌else◌, ℤ, pos, negsuc, sub_ℕ,
}
use agent_workspace.History.{
  Message, HistoryMessage, history_of, compact_summary_prefix, is_summary, is_conversation,
  folded_role,
}

abbrev pub compact_recent_messages : ℕ
compact_recent_messages = 6

abbrev pub compact_summary_max_runes : ℕ
compact_summary_max_runes = 1800

abbrev pub compact_summary_max_tokens : ℕ
compact_summary_max_tokens = 700

abbrev compact_summary_target_runes : ℕ
compact_summary_target_runes = 1200

-- a Go int that stands for a limit, with the default where it is not positive
unfoldable pub limit_or : ℕ → ℤ → ℕ
limit_or default (pos n) = if n == 0 then default else n
limit_or default (negsuc n) = default

-- the last step of `compactRecentCount`
unfoldable pub make_even : ℤ → ℤ
make_even (pos n) = if ltb 2 n && n % 2 == 1 then pos (n - 1) else pos n
make_even (negsuc n) = negsuc n

unfoldable pub compact_recent_count : ℕ → ℤ → ℤ
unfolding limit_or make_even
compact_recent_count conversation_count requested =
    let recent = limit_or compact_recent_messages requested in
    make_even
      (if ltb conversation_count (recent + 2) then sub_ℕ conversation_count 2 else pos recent)

-- strings.Trim on both ends, for one character
unfoldable pub trim_char_left : ℕ → Text → Text
trim_char_left c [] = []
trim_char_left c (x ∷ xs) = let rest = trim_char_left c xs in if x == c then rest else x ∷ xs

unfoldable pub trim_char_right : ℕ → Text → Text
unfolding is_empty
trim_char_right c [] = []
trim_char_right c (x ∷ xs) =
    let rest = trim_char_right c xs in if (x == c) && is_empty rest then [] else x ∷ rest

unfoldable pub sanitize_compact_summary : Text → ℤ → Text
unfolding trim_space trim_char_left trim_char_right limit_or
sanitize_compact_summary summary max_runes =
    let cleaned = trim_space (trim_char_right b'`' (trim_char_left b'`' (trim_space summary))) in
    let limit = limit_or compact_summary_max_runes max_runes in
    if ltb limit (length cleaned) then trim_space (take limit cleaned) ++ codes "..." else cleaned

unfoldable pub compact_summary_body : Text → Text
unfolding trim_space trim_prefix
compact_summary_body content = trim_space (trim_prefix (trim_space content) compact_summary_prefix)

module _ (lower_rune fold_rune : ℕ → ℕ) where
  unfoldable pub compactable_conversation : List Message → List Text × List Message
  unfolding is_summary is_conversation compact_summary_body keep
  compactable_conversation messages = (
    map (λ m. compact_summary_body m.content) (keep (is_summary lower_rune fold_rune) messages),
    keep (is_conversation lower_rune fold_rune) messages,
  )

  unfoldable pub compact_message_label : Text → Text
  unfolding folded_role text_eq
  compact_message_label role =
      if text_eq (folded_role lower_rune fold_rune role) (codes "assistant")
      then codes "Assistant"
      else codes "User"

  module _ (scrub : Text → Text) where
    unfoldable pub summary_lines : List Text → Text
    unfolding trim_space is_empty
    summary_lines [] = []
    summary_lines (s ∷ ss) =
        let rest = summary_lines ss in
        let text = trim_space (scrub s) in
        if is_empty text then rest else codes "- " ++ text ++ codes "\n" ++ rest

    unfoldable pub message_lines : List Message → Text
    unfolding compact_message_label trim_space
    message_lines [] = []
    message_lines (m ∷ ms) =
        compact_message_label m.role
        ++ codes ": "
        ++ trim_space (scrub m.content)
        ++ codes "\n"
        ++ message_lines ms

    unfoldable pub compact_prompt : List Text → List Message → List Message → Text
    unfolding summary_lines message_lines decimal
    compact_prompt summaries older recent =
        codes "Create a compact searchable summary that will replace older chat history in aw.\n"
        ++ codes
            "Use the main language of the conversation. Preserve concrete projects, files, bugs, "
        ++ codes
            "decisions, constraints, open questions, and user preferences. Do not invent facts. "
        ++ codes "Do not give instructions to the assistant. Keep it under "
        ++ decimal compact_summary_target_runes
        ++ codes " characters.\n\n"
        ++ elim summaries [
          | [] ↦ []
          | s ∷ ss ↦ codes "Previous compacted summary:\n" ++ summary_lines (s ∷ ss) ++ codes "\n"
        ]
        ++ codes "Older messages to summarize:\n"
        ++ message_lines older
        ++ elim recent [
          | [] ↦ []
          | m ∷ ms ↦
              codes
                "\nRecent messages that will remain outside the summary; use them only for continuity:\n"
              ++ message_lines (m ∷ ms)
        ]

unfoldable pub summary_message : Text → Message
summary_message summary = record {
  id = [];
  session_id = [];
  role = codes "system";
  content = compact_summary_prefix ++ codes "\n" ++ summary;
  created_at = [];
  attachments = [];
}

-- what the stores and the runtime answer
-- `ModelConfig` of internal/domain/llm.go, which `ProviderRuntimeConfig` is converted to as it stands
pub record ModelConfig : Type 0 where
  pub provider_id : Text
  pub provider_name : Text
  pub auth_type : Text
  pub model : Text
  pub api_key : Text
  pub credential : Text
  pub base_url : Text
  pub credential_updater : Option (Text → Result Text (Unit {0}))

-- what the stores and the runtime answer; the texts that a list, a replacement and a reset start with are
-- the chat's id
pub record Services : Type 0 where
  pub unlocked : Bool
  pub runtime_config : Result Text ModelConfig
  pub list_messages : Text → Result Text (List Message)
  pub generate : ModelConfig → Text → ℕ → Result Text Text
  pub replace : Text → List Message → Result Text (List Message)
  pub reset_session : ModelConfig → Text → List HistoryMessage → Result Text (Unit {0})

pub record CompactChatHistoryInput : Type 0 where
  pub chat_id : Text
  pub recent_messages : ℤ
  pub summary_max_runes : ℤ
  pub max_output_tokens : ℤ

-- the result of a success; what is filled in of it beside an error is left out
pub record CompactChatHistoryResult : Type 0 where
  pub chat_id : Text
  pub summary : Text
  pub messages : List Message
  pub model_config : ModelConfig

-- what is asked of the store and of the runtime's session, when anything is
pub record Effects : Type 0 where
  pub replaced_by : Option (List Message)
  pub reset_to : Option (List HistoryMessage)

abbrev pub no_effects : Effects
no_effects = record { replaced_by = none; reset_to = none }

-- the end of `CompactChatHistory`, from the summary on
unfoldable pub store_compacted :
    Services
    → ModelConfig
    → Text
    → Text
    → List Message
    → Result Text CompactChatHistoryResult × Effects
unfolding history_of
store_compacted services config chat_id summary compacted =
    elim (services.replace chat_id compacted) [
      | err e ↦ (err e, record { replaced_by = some compacted; reset_to = none })
      | ok persisted ↦
          let history = map history_of persisted in
          let effects : Effects = record {
            replaced_by = some compacted;
            reset_to = some history;
          } in
          elim (services.reset_session config chat_id history) [
            | err e ↦ (err e, effects)
            | ok done ↦ (
              ok (record {
                chat_id = chat_id;
                summary = summary;
                messages = persisted;
                model_config = config;
              }),
              effects,
            )
          ]
    ]

module _ (lower_rune fold_rune : ℕ → ℕ) (scrub : Text → Text) where
  -- the middle of `CompactChatHistory`, from the split of the conversation on
  unfoldable pub summarize :
      Services
      → ModelConfig
      → CompactChatHistoryInput
      → List Text
      → List Message
      → List Message
      → Result Text CompactChatHistoryResult × Effects
  unfolding compact_prompt sanitize_compact_summary is_empty summary_message store_compacted
      limit_or
  summarize services config input summaries older recent =
      elim (services.generate config
        (compact_prompt lower_rune fold_rune scrub summaries older recent)
        (limit_or compact_summary_max_tokens input.max_output_tokens)) [
          | err e ↦ (err e, no_effects)
          | ok reply ↦
              let summary = sanitize_compact_summary (scrub reply) input.summary_max_runes in
              if is_empty summary
              then (err (codes "model returned an empty compaction summary"), no_effects)
              else store_compacted services config input.chat_id summary
                  (summary_message summary ∷ recent)
        ]

  unfoldable pub split_and_summarize :
      Services
      → ModelConfig
      → CompactChatHistoryInput
      → List Text
      → List Message
      → ℤ
      → Result Text CompactChatHistoryResult × Effects
  unfolding summarize
  split_and_summarize services config input summaries conversation (negsuc n) =
      (err (codes "not enough older chat history to compact"), no_effects)
  split_and_summarize services config input summaries conversation (pos recent) =
      let older = take (length conversation - recent) conversation in
      let kept = drop (length conversation - recent) conversation in
      if ltb recent 2 || leb (length conversation) recent
      then (err (codes "not enough older chat history to compact"), no_effects)
      else summarize services config input summaries older kept

  -- `CompactChatHistory` from the messages on
  unfoldable pub compact_messages :
      Services
      → ModelConfig
      → CompactChatHistoryInput
      → List Message
      → Result Text CompactChatHistoryResult × Effects
  unfolding compactable_conversation compact_recent_count split_and_summarize
  compact_messages services config input messages =
      let split = compactable_conversation lower_rune fold_rune messages in
      if ltb (length split.1) 4
      then (err (codes "not enough chat history to compact"), no_effects)
      else split_and_summarize services config input split.0 split.1
          (compact_recent_count (length split.1) input.recent_messages)

  unfoldable pub compact_chat_history :
      Services → CompactChatHistoryInput → Result Text CompactChatHistoryResult × Effects
  unfolding compact_messages
  compact_chat_history services input =
      if not services.unlocked
      then (err (codes "vault is locked"), no_effects)
      else elim services.runtime_config [
        | err e ↦ (err e, no_effects)
        | ok config ↦ elim (services.list_messages input.chat_id) [
          | err e ↦ (err e, no_effects)
          | ok messages ↦ compact_messages services config input messages
        ]
      ]
