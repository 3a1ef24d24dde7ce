-- ===== src/History/Restore.antt =====
-- The seed of a cold session, internal/application/chat_restore.go. The walk backwards keeps the tail it has
-- taken, in place of the index where the tail starts.
use agent_workspace.Prelude.{
  ℕ, ◌+◌, ◌-◌, ◌==◌, Bool, false, not, ◌&&◌, ◌||◌, Option, none, some, List, [], ◌∷◌, ◌++◌, Text,
  codes, text_eq, is_empty, trim_space, keep, length, ltb, leb, map, decimal, Result, ok, err,
  if◌then◌else◌,
}
use agent_workspace.History.{
  Message, HistoryMessage, history_of, is_compaction_summary_message, is_summary, is_conversation,
  folded_role,
}

abbrev pub restore_seed_max_messages : ℕ
restore_seed_max_messages = 30

abbrev pub restore_seed_max_chars : ℕ
restore_seed_max_chars = 24000

-- the reversal of the first list in front of the second
unfoldable pub rev_onto {ℓ} : {A : Type ℓ} → List A → List A → List A
rev_onto [] ys = ys
rev_onto (x ∷ xs) ys = rev_onto xs (x ∷ ys)

-- the loop that walks backwards: the tail, its characters, and the older messages from the newest on
unfoldable pub walk_back : List Message → ℕ → List Message → List Message
walk_back tail chars [] = tail
walk_back tail chars (m ∷ older) =
    let rest = walk_back (m ∷ tail) (chars + length m.content) older in
    if leb restore_seed_max_messages (length tail)
    then tail
    else if ltb 0 (length tail) && ltb restore_seed_max_chars (chars + length m.content)
    then tail
    else rest

-- the last summary wins
unfoldable pub last_of {ℓ} : {A : Type ℓ} → (A → Bool) → Option A → List A → Option A
last_of p found [] = found
last_of p found (x ∷ xs) =
    let kept = last_of p found xs in
    let taken = last_of p (some x) xs in if p x then taken else kept

module _ (lower_rune fold_rune : ℕ → ℕ) where
  abbrev pub is_user : Message → Bool
  is_user m = text_eq (folded_role lower_rune fold_rune m.role) (codes "user")

  unfoldable pub open_on_user : List Message → List Message
  unfolding folded_role text_eq
  open_on_user [] = []
  open_on_user (m ∷ ms) = let rest = open_on_user ms in if is_user m then m ∷ ms else rest

  unfoldable pub restore_tail : List Message → List Message
  unfolding open_on_user walk_back rev_onto keep is_conversation
  restore_tail messages =
      open_on_user
        (walk_back [] 0 (rev_onto (keep (is_conversation lower_rune fold_rune) messages) []))

  unfoldable pub build_restore_seed : List Message → List HistoryMessage
  unfolding restore_tail last_of is_summary history_of
  build_restore_seed messages =
      let tail = map history_of (restore_tail messages) in
      elim (last_of (is_summary lower_rune fold_rune) none messages) [
        | none ↦ tail
        | some summary ↦ history_of summary ∷ tail
      ]

  -- whether the seed opens with a summary
  unfoldable pub has_summary : List HistoryMessage → Bool
  unfolding is_compaction_summary_message
  has_summary [] = false
  has_summary (m ∷ ms) = is_compaction_summary_message lower_rune fold_rune m.role m.content

  -- the number of seeded messages of the conversation, and of saved ones
  unfoldable pub tail_count : List HistoryMessage → ℕ
  unfolding has_summary
  tail_count seed = if has_summary seed then length seed - 1 else length seed

  unfoldable pub total_count : List Message → ℕ
  unfolding keep is_conversation
  total_count messages = length (keep (is_conversation lower_rune fold_rune) messages)

  module _ (quoted : Text → Text) where
    unfoldable pub build_restore_note : Text → List HistoryMessage → List Message → HistoryMessage
    unfolding has_summary tail_count total_count decimal
    build_restore_note chat_id seed messages =
        let carried = tail_count seed in
        let total = total_count messages in
        record {
          role = codes "user";
          content =
              codes "[Continuity note — this session was restored after an app restart] "
              ++ codes "Chat ID: "
              ++ chat_id
              ++ codes ". "
              ++ (if ltb carried total
                  then codes "The context below carries the newest "
                    ++ decimal carried
                    ++ codes " of "
                    ++ decimal total
                    ++ codes " saved messages"
                  else codes "The context below carries all "
                    ++ decimal total
                    ++ codes " saved messages of this chat")
              ++ (if has_summary seed
                  then codes ", plus a summary of earlier compacted turns"
                  else [])
              ++ codes ". "
              ++ (if ltb carried total
                  then codes
                      "Older messages are not in context; to read further back call the aw tool action chat.messages with {\"chatId\": "
                    ++ quoted chat_id
                    ++ codes ", \"limit\": <n>}. "
                  else [])
              ++ codes
                  "Tool results from before the restart were NOT restored — if an earlier turn relied on one "
              ++ codes
                  "(a file, note, web page, or command output), re-run that tool instead of answering from memory.";
        }

    -- `EnsureChatSessionRestored`: the answer, and the history a reset was asked with. The arguments are
    -- whether both services are there, the vault open and the session warm, the messages listed, and what a reset answers.
    unfoldable pub ensure_chat_session_restored :
        Bool
        → Bool
        → Bool
        → Result Text (List Message)
        → (List HistoryMessage → Result Text (Unit {0}))
        → Text
        → Result Text ℕ × Option (List HistoryMessage)
    unfolding build_restore_note build_restore_seed trim_space is_empty
    ensure_chat_session_restored wired unlocked warm listed reset chat_id =
        if not wired || is_empty (trim_space chat_id)
        then (ok 0, none)
        else if not unlocked
        then (ok 0, none)
        else if warm
        then (ok 0, none)
        else elim listed [
          | err e ↦ (err e, none)
          | ok messages ↦
              let seed = build_restore_seed messages in
              let history = build_restore_note chat_id seed messages ∷ seed in
              if length seed == 0 then (ok 0, none) else elim (reset history) [
                | err e ↦ (err e, some history)
                | ok done ↦ (ok (length history), some history)
              ]
        ]
