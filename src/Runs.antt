-- ===== src/Runs.antt =====
-- internal/application/chat_run_coordinator.go: which chats have a run in flight, and which run owns
-- the streaming side channel. `C` is the type of cancel functions. Each method takes both mutexes for
-- its whole body, so a method is one step; the maps' nil state is the empty map.
pub mod Tokens
pub mod Stale
mod Tests
use agent_workspace.Prelude.{
  ℕ, ◌+◌, ◌%◌, ◌^◌, Bool, true, false, not, ◌&&◌, ◌||◌, Option, none, some, [], ◌∷◌, List, Text,
  Dict, lookup, insert, delete, size, has_key, ◌==◌, if◌then◌else◌, Result, ok, err, ◌>>=◌,
}

-- a run's cancel function and its generation token; an int64 is kept as its 64 bits
pub record ChatRunState (C : Type 0) : Type 0 where
  pub cancel : Option C
  pub token : ℕ

pub record Coordinator (C : Type 0) : Type 0 where
  pub runs : Dict (ChatRunState C)
  pub run_seq : ℕ
  pub stream_id : Text
  pub stream_token : ℕ

pub data RunError : Type 0 where
  chat_already_running : RunError

abbrev pub int64_mod : ℕ
int64_mod = 2 ^ 64

module _ {C : Type 0} where
  abbrev pub new : Coordinator C
  new = record { runs = []; run_seq = 0; stream_id = []; stream_token = 0 }

  -- the `int64` result is 0 beside an error
  unfoldable pub begin_run : Coordinator C → Text → Option C → Coordinator C × Result RunError ℕ
  unfolding has_key insert
  begin_run c chat_id cancel =
      let seq = (c.run_seq + 1) % int64_mod in
      if has_key chat_id c.runs then (c, err chat_already_running) else (
        record c {
          runs = insert chat_id (record { cancel = cancel; token = seq }) c.runs;
          run_seq = seq;
        },
        ok seq,
      )

  unfoldable pub begin :
      Coordinator C → Text → Option C → Coordinator C × Result RunError (Unit {0})
  unfolding begin_run
  begin c chat_id cancel =
      let (d, started) = begin_run c chat_id cancel in (d, do token ← started; ok tt)

  -- whether the run of that chat holds that token
  unfoldable pub holds : Dict (ChatRunState C) → Text → ℕ → Bool
  unfolding lookup
  holds runs chat_id token = elim (lookup chat_id runs) [
    | none ↦ false
    | some state ↦ state.token == token
  ]

  unfoldable pub end_run : Coordinator C → Text → ℕ → Coordinator C
  unfolding holds delete
  end_run c chat_id token =
      if not (token == 0) && not (holds c.runs chat_id token)
      then c
      else record c { runs = delete chat_id c.runs }

  unfoldable pub end : Coordinator C → Text → Coordinator C
  unfolding end_run
  end c chat_id = end_run c chat_id 0

  unfoldable pub is_running : Coordinator C → Text → Bool
  unfolding has_key
  is_running c chat_id = has_key chat_id c.runs

  -- the second result is the cancel function that is called, outside the lock
  unfoldable pub stop : Coordinator C → Text → Coordinator C × Option C
  unfolding lookup delete
  stop c chat_id = (
    record c { runs = delete chat_id c.runs },
    elim (lookup chat_id c.runs) [ none ↦ none | some state ↦ state.cancel ],
  )

  unfoldable pub active_count : Coordinator C → ℕ
  unfolding size
  active_count c = size c.runs

  unfoldable pub set_streaming_run : Coordinator C → Text → ℕ → Coordinator C
  set_streaming_run c chat_id token = record c { stream_id = chat_id; stream_token = token }

  unfoldable pub set_streaming : Coordinator C → Text → Coordinator C
  unfolding set_streaming_run
  set_streaming c chat_id = set_streaming_run c chat_id 0

  unfoldable pub clear_streaming_run : Coordinator C → ℕ → Coordinator C
  clear_streaming_run c token =
      if token == 0 || c.stream_token == token
      then record c { stream_id = []; stream_token = 0 }
      else c

  unfoldable pub streaming : Coordinator C → Text
  streaming c = c.stream_id

-- the calls that a session makes, in the order in which the locks are taken
pub data Call (C : Type 0) : Type 0 where
  begins : Text → Option C → Call C
  ends : Text → ℕ → Call C
  stops : Text → Call C
  streams : Text → ℕ → Call C
  unstreams : ℕ → Call C

module _ {C : Type 0} where
  unfoldable pub step : Coordinator C → Call C → Coordinator C
  unfolding begin_run end_run stop set_streaming_run clear_streaming_run
  step c (begins chat_id cancel) = (begin_run c chat_id cancel).0
  step c (ends chat_id token) = end_run c chat_id token
  step c (stops chat_id) = (stop c chat_id).0
  step c (streams chat_id token) = set_streaming_run c chat_id token
  step c (unstreams token) = clear_streaming_run c token

  unfoldable pub run : Coordinator C → List (Call C) → Coordinator C
  unfolding step
  run c [] = c
  run c (x ∷ xs) = run (step c x) xs
