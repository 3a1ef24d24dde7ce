-- ===== src/History/Replacing.antt =====
-- What a compaction puts in place of the messages, `CompactChatHistory` of internal/application/chat_compaction.go.
use agent_workspace.Prelude.{
  ℕ, zero, suc, ◌+◌, ◌-◌, ◌≡◌, ◌≤◌, refl, sym, ap, ◌∙◌, subst, false, not, ◌||◌, List, [], ◌∷◌,
  ◌++◌, Text, arith, keep, length, take, drop, Result, ok, err, is_empty, ltb, leb, if◌then◌else◌,
  ℤ, pos, negsuc, if_cases, ok-injective, length-append, length-drop, codes,
}
use agent_workspace.History.{Message, is_conversation}
use agent_workspace.History.Compaction.{
  limit_or, compact_prompt, compact_recent_count, sanitize_compact_summary,
  compactable_conversation, summary_message, Services, ModelConfig, Effects, no_effects,
  CompactChatHistoryInput, CompactChatHistoryResult, store_compacted, summarize,
  split_and_summarize, compact_messages, compact_chat_history,
}
use agent_workspace.History.Summaries.{length-sanitize_compact_summary}

-- a summary and the end of the conversation, each long enough
abbrev pub IsCompacted : ℕ → List Message → Text → List Message → Type 0
IsCompacted limit conversation summary recent =
    (older : List Message) × (conversation ≡ older ++ recent)
    × (2 ≤ length recent)
    × (1 ≤ length older)
    × (is_empty summary ≡ false)
    × (length summary ≤ limit + 3)

take-drop : (n : ℕ) (xs : List Message) → take n xs ++ drop n xs ≡ xs
take-drop zero xs = refl
take-drop (suc n) [] = refl
take-drop (suc n) (x ∷ xs) = ap (λ r. x ∷ r) (take-drop n xs)

length-take-drop : (n : ℕ) (xs : List Message) → length (take n xs) + length (drop n xs) ≡ length xs
length-take-drop n xs = sym (length-append (take n xs) (drop n xs)) ∙ ap length (take-drop n xs)

abbrev pub Outcome : Type 0
Outcome = Result Text CompactChatHistoryResult × Effects

module _ (lower_rune fold_rune : ℕ → ℕ) (scrub : Text → Text) (services : Services)
    (input : CompactChatHistoryInput) (P : Outcome → Type 0)
    (refused : (e : Text) → P (err e, no_effects)) where
  summarize_cases :
      (config : ModelConfig) (summaries : List Text) (older recent : List Message)
      → ((summary : Text)
          → is_empty summary ≡ false
          → length summary ≤ limit_or 1800 input.summary_max_runes + 3
          → P (
              store_compacted services config input.chat_id summary
                (summary_message summary ∷ recent)))
      → P (summarize lower_rune fold_rune scrub services config input summaries older recent)
  unfolding summarize
  summarize_cases config summaries older recent stored = answered (
      services.generate config (compact_prompt lower_rune fold_rune scrub summaries older recent)
        (limit_or 700 input.max_output_tokens))
    where
      answered :
          (reply : Result Text Text)
          → P (elim reply [
            | err e ↦ (err e, no_effects)
            | ok text ↦
                let summary = sanitize_compact_summary (scrub text) input.summary_max_runes in
                if is_empty summary
                then (err (codes "model returned an empty compaction summary"), no_effects)
                else store_compacted services config input.chat_id summary
                    (summary_message summary ∷ recent)
          ])
      answered (err e) = refused e
      answered (ok text) =
          if_cases P (is_empty (sanitize_compact_summary (scrub text) input.summary_max_runes))
            (λ _. refused (codes "model returned an empty compaction summary"))
            (λ full.
              stored (sanitize_compact_summary (scrub text) input.summary_max_runes) full
                (length-sanitize_compact_summary (scrub text) input.summary_max_runes))

  split_cases :
      (config : ModelConfig) (summaries : List Text) (conversation : List Message) (count : ℤ)
      → ((summary : Text) (recent : List Message)
          → IsCompacted (limit_or 1800 input.summary_max_runes) conversation summary recent
          → P (
              store_compacted services config input.chat_id summary
                (summary_message summary ∷ recent)))
      → P (
          split_and_summarize lower_rune fold_rune scrub services config input summaries
            conversation count)
  unfolding split_and_summarize
  split_cases config summaries conversation (negsuc n) stored =
      refused (codes "not enough older chat history to compact")
  split_cases config summaries conversation (pos recent) stored =
      if_cases P (ltb recent 2 || leb (length conversation) recent)
        (λ _. refused (codes "not enough older chat history to compact"))
        (λ enough. summarize_cases config summaries older kept (λ summary full short.
          stored summary kept (
            older,
            sym (take-drop (length conversation - recent) conversation),
            ground (arith, length-drop (length conversation - recent) conversation),
            ground (
              arith,
              length-drop (length conversation - recent) conversation,
              length-take-drop (length conversation - recent) conversation,
            ),
            full,
            short,
          )))
    where
      older : List Message
      older = take (length conversation - recent) conversation

      kept : List Message
      kept = drop (length conversation - recent) conversation

  messages_cases :
      (config : ModelConfig) (messages : List Message)
      → ((summary : Text) (recent : List Message)
          → IsCompacted
              (limit_or 1800 input.summary_max_runes)
              (keep (is_conversation lower_rune fold_rune) messages)
              summary
              recent
          → P (
              store_compacted services config input.chat_id summary
                (summary_message summary ∷ recent)))
      → P (compact_messages lower_rune fold_rune scrub services config input messages)
  unfolding compact_messages compactable_conversation
  messages_cases config messages stored =
      let split = compactable_conversation lower_rune fold_rune messages in
      if_cases P (ltb (length split.1) 4)
        (λ _. refused (codes "not enough chat history to compact"))
        (λ _.
          split_cases config split.0 split.1
            (compact_recent_count (length split.1) input.recent_messages) stored)

  -- A compaction is refused without effects, or it stores a summary and the end of the conversation.
  pub compact_cases :
      (messages : List Message)
      → services.list_messages input.chat_id ≡ ok messages
      → ((config : ModelConfig)
          → services.runtime_config ≡ ok config
          → (summary : Text) (recent : List Message)
          → IsCompacted
              (limit_or 1800 input.summary_max_runes)
              (keep (is_conversation lower_rune fold_rune) messages)
              summary
              recent
          → P (
              store_compacted services config input.chat_id summary
                (summary_message summary ∷ recent)))
      → P (compact_chat_history lower_rune fold_rune scrub services input)
  unfolding compact_chat_history
  compact_cases messages listed stored =
      if_cases P (not services.unlocked) (λ _. refused (codes "vault is locked"))
        (λ _. configured services.runtime_config refl)
    where
      answered :
          (config : ModelConfig)
          → services.runtime_config ≡ ok config
          → (answer : Result Text (List Message)) → answer ≡ ok messages
          → P (elim answer [
            | err e ↦ (err e, no_effects)
            | ok ms ↦ compact_messages lower_rune fold_rune scrub services config input ms
          ])
      answered config held (err e) same = refused e
      answered config held (ok ms) same =
          subst (λ l. P (compact_messages lower_rune fold_rune scrub services config input l))
            (sym (ok-injective same)) (messages_cases config messages (stored config held))

      configured :
          (found : Result Text ModelConfig)
          → services.runtime_config ≡ found
          → P (elim found [
            | err e ↦ (err e, no_effects)
            | ok config ↦ elim (services.list_messages input.chat_id) [
              | err e ↦ (err e, no_effects)
              | ok ms ↦ compact_messages lower_rune fold_rune scrub services config input ms
            ]
          ])
      configured (err e) same = refused e
      configured (ok config) same =
          answered config same (services.list_messages input.chat_id) listed
