-- ===== src/History.antt =====
-- Chat messages, and which of them are a conversation: internal/domain/chat.go, internal/domain/llm.go, and the tests
-- that internal/application/chat_compaction.go and chat_restore.go share. A message's texts are its runes.
pub mod Compaction
pub mod Restore
pub mod Summaries
pub mod Seeds
pub mod Replacing
pub mod Compacted
pub mod Again
pub mod Tails
mod Tests
use agent_workspace.Prelude.{
  ℕ, Bool, true, false, not, ◌&&◌, ◌||◌, List, [], ◌∷◌, ◌++◌, Text, codes, text_eq, is_empty, map,
  trim_space, to_lower, has_prefix, if◌then◌else◌,
}

pub record Attachment : Type 0 where
  pub name : Text
  pub type : Text
  pub data_uri : Text

pub record Message : Type 0 where
  pub id : Text
  pub session_id : Text
  pub role : Text
  pub content : Text
  pub created_at : Text
  pub attachments : List Attachment

pub record HistoryMessage : Type 0 where
  pub role : Text
  pub content : Text

unfoldable pub history_of : Message → HistoryMessage
history_of m = record { role = m.role; content = m.content }

abbrev pub compact_summary_prefix : Text
compact_summary_prefix = codes "[aw compacted context]"

-- strings.EqualFold, over Unicode's simple folding
unfoldable pub equal_fold : (ℕ → ℕ) → Text → Text → Bool
unfolding text_eq
equal_fold fold_rune s t = text_eq (map fold_rune s) (map fold_rune t)

module _ (lower_rune fold_rune : ℕ → ℕ) where
  unfoldable pub is_compaction_summary_message : Text → Text → Bool
  unfolding equal_fold trim_space has_prefix
  is_compaction_summary_message role content =
      equal_fold fold_rune (trim_space role) (codes "system")
      && has_prefix (trim_space content) compact_summary_prefix

  unfoldable pub folded_role : Text → Text
  unfolding to_lower trim_space
  folded_role role = to_lower lower_rune (trim_space role)

  unfoldable pub is_summary : Message → Bool
  unfolding is_compaction_summary_message is_empty trim_space
  is_summary m =
      not (is_empty (trim_space m.content)) && is_compaction_summary_message m.role m.content

  -- what both loops append to `conversation`
  unfoldable pub is_conversation : Message → Bool
  unfolding is_compaction_summary_message folded_role text_eq is_empty trim_space
  is_conversation m =
      not (is_empty (trim_space m.content))
      && (not (is_compaction_summary_message m.role m.content)
          && (text_eq (folded_role m.role) (codes "user")
              || text_eq (folded_role m.role) (codes "assistant")))
