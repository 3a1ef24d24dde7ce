-- ===== src/History/Tests.antt =====
-- A chat of six messages, restored and compacted, and instances of the theorems there.
use agent_workspace.Prelude.{
  ℕ, ◌≡◌, refl, true, none, some, List, [], ◌∷◌, ◌++◌, Text, codes, map, keep, ok, pos, text_eq,
}
use agent_workspace.History.{folded_role, Message, history_of, is_conversation, is_summary}
use agent_workspace.History.Compaction.{
  Services, ModelConfig, CompactChatHistoryInput, CompactChatHistoryResult, summary_message,
  compact_chat_history, compactable_conversation, limit_or,
}
use agent_workspace.History.Restore.{restore_tail, is_user, build_restore_seed, tail_count}
use agent_workspace.History.Tails.{IsSuffix, IsWithin, OpensOnUser}
use agent_workspace.History.Seeds.{conversation, restore_tail_lem, restore_tail-newest}
use agent_workspace.History.Replacing.{IsCompacted}
use agent_workspace.History.Compacted.{
  recent_of, compact_chat_history-replaces, compact_chat_history-ok,
}
use agent_workspace.History.Again.{compact_chat_history-again}

abbrev same_rune : ℕ → ℕ
same_rune c = c

abbrev same_text : Text → Text
same_text t = t

abbrev message : Text → Text → Message
message role content = record {
  id = [];
  session_id = [];
  role = role;
  content = content;
  created_at = [];
  attachments = [];
}

abbrev question : Message
question = message (codes "user") (codes "and now?")

abbrev older : List Message
older =
    message (codes "user") (codes "hello")
    ∷ message (codes "assistant") (codes "hi")
    ∷ message (codes "tool") (codes "ls")
    ∷ message (codes "user") (codes "fix it")
    ∷ message (codes "assistant") (codes "fixed")
    ∷ []

abbrev chat : List Message
chat = older ++ question ∷ []

abbrev answer : List Message
answer =
    summary_message (codes "They fixed it.")
    ∷ message (codes "assistant") (codes "fixed")
    ∷ question
    ∷ []

abbrev config : ModelConfig
config = record {
  provider_id = codes "p";
  provider_name = [];
  auth_type = [];
  model = codes "m";
  api_key = [];
  credential = [];
  base_url = [];
  credential_updater = none;
}

abbrev services : Services
services = record {
  unlocked = true;
  runtime_config = ok config;
  list_messages = λ chat_id. ok chat;
  generate = λ config prompt tokens. ok (codes "`They fixed it.`");
  replace = λ chat_id ms. ok ms;
  reset_session = λ config chat_id history. ok tt;
}

abbrev input : CompactChatHistoryInput
input = record {
  chat_id = codes "c";
  recent_messages = pos 3;
  summary_max_runes = pos 0;
  max_output_tokens = pos 0;
}

abbrev result : CompactChatHistoryResult
result = record {
  chat_id = codes "c";
  summary = codes "They fixed it.";
  messages = answer;
  model_config = config;
}

-- The tool message is not part of the conversation, and three recent messages are made two.
compact_run : (compact_chat_history same_rune same_rune same_text services input).0 ≡ ok result
unfolding compact_chat_history summary_message
compact_run = refl

replaced :
    (compact_chat_history same_rune same_rune same_text services input).1.replaced_by ≡ some answer
unfolding compact_chat_history summary_message
replaced = refl

compact_chat_history-replaces_example :
    (summary : Text) × (recent : List Message) × (answer ≡ summary_message summary ∷ recent)
    × IsCompacted
        (limit_or 1800 (pos 0))
        (keep (is_conversation same_rune same_rune) chat)
        summary
        recent
compact_chat_history-replaces_example =
    compact_chat_history-replaces same_rune same_rune same_text services input chat answer refl
      replaced

compact_chat_history-ok_example :
    (c : List Message) × ((compact_chat_history same_rune same_rune same_text services
        input).1.replaced_by
      ≡ some c)
    × (services.replace (codes "c") c ≡ ok result.messages)
    × (used : ModelConfig) × (services.runtime_config ≡ ok used)
    × (services.reset_session used (codes "c") (map history_of result.messages) ≡ ok tt)
    × ((compact_chat_history same_rune same_rune same_text services input).1.reset_to
        ≡ some (map history_of result.messages))
    × (result.chat_id ≡ codes "c")
    × (c ≡ summary_message result.summary ∷ recent_of c)
    × (result.model_config ≡ used)
compact_chat_history-ok_example =
    compact_chat_history-ok same_rune same_rune same_text services input chat result refl
      compact_run

compact_chat_history-again_example :
    (summary : Text) × (recent : List Message) × (answer ≡ summary_message summary ∷ recent)
    × ((compactable_conversation same_rune same_rune answer).1 ≡ recent)
    × (keep (is_summary same_rune same_rune) answer ≡ summary_message summary ∷ [])
compact_chat_history-again_example =
    compact_chat_history-again same_rune same_rune same_text services input chat answer refl
      replaced

-- A compacted chat is restored from its question on, behind its summary.
restore_run :
    (restore_tail same_rune same_rune answer ≡ question ∷ [])
    × (tail_count same_rune same_rune (build_restore_seed same_rune same_rune answer) ≡ 1)
unfolding restore_tail build_restore_seed tail_count summary_message
restore_run = (refl, refl)

restore_tail_lem_example :
    IsSuffix (restore_tail same_rune same_rune chat) (conversation same_rune same_rune chat)
    × (IsWithin (restore_tail same_rune same_rune chat)
        × OpensOnUser same_rune same_rune (restore_tail same_rune same_rune chat))
restore_tail_lem_example = restore_tail_lem same_rune same_rune chat

abbrev spoken : List Message
spoken =
    message (codes "user") (codes "hello")
    ∷ message (codes "assistant") (codes "hi")
    ∷ message (codes "user") (codes "fix it")
    ∷ message (codes "assistant") (codes "fixed")
    ∷ []

ends : conversation same_rune same_rune chat ≡ spoken ++ question ∷ []
unfolding keep is_conversation
ends = refl

asked : is_user same_rune same_rune question ≡ true
unfolding folded_role text_eq
asked = refl

restore_tail-newest_example : IsSuffix (question ∷ []) (restore_tail same_rune same_rune chat)
restore_tail-newest_example =
    restore_tail-newest same_rune same_rune chat spoken question ends asked
