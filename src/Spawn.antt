-- ===== src/Spawn.antt =====
-- Parallel subagents: internal/infrastructure/subagent/spawn.go. A goroutine has two steps, the write of its slot of
-- `results` and its notification under the mutex; a schedule names the goroutine of each step. What the
-- runtime answers to a task is an argument.
pub mod Results
pub mod Liveness
pub mod Answers
mod Tests
use agent_workspace.Prelude.{
  ℕ, zero, suc, ◌+◌, ◌==◌, Bool, true, false, not, ◌&&◌, ◌||◌, Option, none, some, List, [], ◌∷◌,
  ◌++◌, Text, codes, is_empty, trim_space, map, length, ltb, decimal, Result, ok, err,
  if◌then◌else◌, ℤ, pos, negsuc, leb_ℤ,
}

pub record SpawnTask : Type 0 where
  pub id : Text
  pub task : Text
  pub context : Text

pub record SpawnResult : Type 0 where
  pub id : Text
  pub status : Text
  pub output : Text
  pub elapsed_ms : ℕ

pub record SpawnTaskRef : Type 0 where
  pub id : Text
  pub task : Text

-- a broadcast of each phase, with the fields that the phase sets
pub data SpawnStatus : Type 0 where
  phase_start : List SpawnTaskRef → SpawnStatus
  phase_task_done : Text → SpawnResult → SpawnStatus
  phase_end : List SpawnResult → SpawnStatus

abbrev pub max_concurrent_spawn : ℕ
max_concurrent_spawn = 10

-- in nanoseconds
abbrev default_spawn_timeout : ℕ
default_spawn_timeout = 120000000000

abbrev min_spawn_timeout : ℕ
min_spawn_timeout = 30000000000

unfoldable pub spawn_timeout : ℤ → ℤ
spawn_timeout timeout =
    if leb_ℤ timeout (pos 0)
    then pos default_spawn_timeout
    else if not (leb_ℤ (pos min_spawn_timeout) timeout)
    then pos min_spawn_timeout
    else timeout

-- `normalizeSpawnTasks` from an index on
unfoldable pub normalize_from : ℕ → List SpawnTask → List SpawnTask
unfolding trim_space is_empty decimal
normalize_from i [] = []
normalize_from i (t ∷ ts) =
    let rest = normalize_from (i + 1) ts in
    let named : SpawnTask = record {
      id = codes "task-" ++ decimal (i + 1);
      task = t.task;
      context = t.context;
    } in
    if is_empty (trim_space t.task)
    then rest
    else if is_empty (trim_space t.id)
    then named ∷ rest
    else t ∷ rest

unfoldable pub normalize_spawn_tasks : List SpawnTask → List SpawnTask
unfolding normalize_from
normalize_spawn_tasks = normalize_from 0

unfoldable pub spawn_input : SpawnTask → Text
unfolding trim_space is_empty
spawn_input t =
    if not (is_empty (trim_space t.context))
    then codes "Context:\n" ++ trim_space t.context ++ codes "\n\nTask:\n" ++ trim_space t.task
    else trim_space t.task

-- what the runtime answers to an isolated run
pub data RunReply : Type 0 where
  replied : Text → RunReply
  past_deadline : RunReply
  run_failed : Text → RunReply

-- what one goroutine meets: the dependencies that are there, their answers, and its duration
pub record Surroundings : Type 0 where
  pub has_runtime : Bool
  pub has_model_config : Bool
  pub tool_set : Result Text (Unit {0})
  pub model_config : Result Text (Unit {0})
  pub run_isolated : Text → RunReply
  pub elapsed_ms : ℕ
  pub timeout_text : Text

abbrev result_of : SpawnTask → Surroundings → Text → Text → SpawnResult
result_of t around status output = record {
  id = t.id;
  status = status;
  output = output;
  elapsed_ms = around.elapsed_ms;
}

unfoldable pub run_generic_task : SpawnTask → Surroundings → SpawnResult
unfolding spawn_input trim_space
run_generic_task t around =
    if not around.has_runtime
    then result_of t around (codes "error") (codes "subagent runtime is not available")
    else if not around.has_model_config
    then result_of t around (codes "error")
        (codes "subagent provider config resolver is not available")
    else elim around.tool_set [
      | err e ↦ result_of t around (codes "error") e
      | ok tools ↦ elim around.model_config [
        | err e ↦ result_of t around (codes "error") e
        | ok config ↦ elim (around.run_isolated (spawn_input t)) [
          | replied text ↦ result_of t around (codes "success") (trim_space text)
          | past_deadline ↦
              result_of t around (codes "timeout")
                (codes "subagent timed out after " ++ around.timeout_text)
          | run_failed e ↦ result_of t around (codes "error") e
        ]
      ]
    ]

-- a goroutine, with the result that its run returns
pub data Worker : Type 0 where
  running written notified : SpawnResult → Worker

abbrev pub zero_result : SpawnResult
zero_result = record { id = []; status = []; output = []; elapsed_ms = 0 }

-- its slot of `results`
unfoldable pub slot : Worker → SpawnResult
slot (running r) = zero_result
slot (written r) = r
slot (notified r) = r

-- one step of a goroutine, and the result that it broadcasts
unfoldable pub step : Worker → Worker × Option SpawnResult
step (running r) = (written r, none)
step (written r) = (notified r, some r)
step (notified r) = (notified r, none)

unfoldable pub advance : ℕ → List Worker → List Worker × Option SpawnResult
unfolding step
advance i [] = ([], none)
advance zero (w ∷ ws) = ((step w).0 ∷ ws, (step w).1)
advance (suc i) (w ∷ ws) = let rest = advance i ws in (w ∷ rest.0, rest.1)

abbrev pub onto : Option SpawnResult → List SpawnResult → List SpawnResult
onto none rs = rs
onto (some r) rs = r ∷ rs

-- the steps of a schedule, and the results that they broadcast, in order
unfoldable pub drive : List ℕ → List Worker → List Worker × List SpawnResult
unfolding advance
drive [] ws = (ws, [])
drive (i ∷ is) ws =
    let first = advance i ws in let rest = drive is first.0 in (rest.0, onto first.1 rest.1)

-- what wg.Wait waits for
unfoldable pub all_notified : List Worker → Bool
all_notified [] = true
all_notified (notified r ∷ ws) = all_notified ws
all_notified (w ∷ ws) = false

unfoldable pub refs_of : SpawnTask → SpawnTaskRef
refs_of t = record { id = t.id; task = t.task }

-- every task runs in its own surroundings, which hold the deadline
unfoldable pub run_all : (SpawnTask → Surroundings) → List SpawnTask → List SpawnResult
unfolding run_generic_task
run_all around [] = []
run_all around (t ∷ ts) = run_generic_task t (around t) ∷ run_all around ts

-- `RunSpawn` under a schedule: the broadcasts, and the answer once every goroutine is done
unfoldable pub run_spawn :
    (ℤ → SpawnTask → Surroundings)
    → List SpawnTask
    → ℤ
    → List ℕ
    → List SpawnStatus × Option (Result Text (List SpawnResult))
unfolding spawn_timeout decimal normalize_spawn_tasks refs_of run_all drive all_notified slot
run_spawn around requested timeout schedule =
    let tasks = normalize_spawn_tasks requested in
    let end_state = drive schedule (map running (run_all (around (spawn_timeout timeout)) tasks)) in
    let started =
      phase_start (map refs_of tasks)
      ∷ map (λ r. phase_task_done (SpawnResult.id r) r) end_state.1 in
    let results = map slot end_state.0 in
    if length tasks == 0
    then ([], some (err (codes "spawn requires at least one task")))
    else if ltb max_concurrent_spawn (length tasks)
    then (
      [],
      some (
          err (
            codes "too many subagents: "
            ++ decimal (length tasks)
            ++ codes " requested, max "
            ++ decimal max_concurrent_spawn
            ++ codes " concurrent")),
    )
    else if all_notified end_state.0
    then (started ++ phase_end results ∷ [], some (ok results))
    else (started, none)
