-- ===== src/Runs/Tests.antt =====
-- Runs of the coordinator, and instances of its theorems there.
use agent_workspace.Prelude.{
  ℕ, ◌≡◌, ◌≢◌, refl, true, none, some, List, [], ◌∷◌, Text, codes, arith, ok,
}
use agent_workspace.Runs.{
  Coordinator, new, begin_run, end_run, is_running, set_streaming_run, clear_streaming_run, Call,
  begins, ends, stops, run,
}
use agent_workspace.Runs.Tokens.{Inv, new-Inv, run-Inv}
use agent_workspace.Runs.Stale.{stale_run_harmless}

-- cancel functions are numbered
abbrev idle : Coordinator ℕ
idle = new

abbrev chat_a : Text
chat_a = codes "a"

abbrev chat_b : Text
chat_b = codes "b"

abbrev first_run : Coordinator ℕ
first_run = record {
  runs = (chat_a, record { cancel = some 7; token = 1 }) ∷ [];
  run_seq = 1;
  stream_id = [];
  stream_token = 0;
}

abbrev between : List (Call ℕ)
between = stops chat_a ∷ begins chat_b none ∷ []

abbrev second_run : Coordinator ℕ
second_run = (begin_run (run first_run between) chat_a (some 8)).0

begin_run_run : begin_run idle chat_a (some 7) ≡ (first_run, ok 1)
unfolding begin_run
begin_run_run = refl

run-Inv_example : Inv (run idle (begins chat_a (some 7) ∷ ends chat_a 1 ∷ []))
run-Inv_example = run-Inv idle (begins chat_a (some 7) ∷ ends chat_a 1 ∷ []) (omega arith) new-Inv

stale_run_harmless_example :
    (◌≢◌ {A = ℕ} 1 3)
    × (end_run second_run chat_a 1 ≡ second_run)
    × (is_running second_run chat_a ≡ true)
    × (clear_streaming_run (set_streaming_run second_run chat_a 3) 1
        ≡ set_streaming_run second_run chat_a 3)
unfolding begin_run run
stale_run_harmless_example =
    stale_run_harmless idle first_run second_run chat_a (some 7) (some 8) 1 3 between refl refl
      (omega arith)
