-- ===== src/Spawn/Answers.antt =====
-- `RunSpawn` as a whole, and `normalizeSpawnTasks`, of internal/infrastructure/subagent/spawn.go.
use agent_workspace.Prelude.{
  ℕ, ℤ, ◌+◌, ◌==◌, ◌≡◌, ◌≤◌, ◌<◌, refl, ap, ◌∙◌, Bool, true, false, not, ◌&&◌, none, some, List, [],
  ◌∷◌, ◌++◌, codes, arith, All, map, length, is_empty, trim_space, decimal, ltb, ok, err,
  if◌then◌else◌,
}
use agent_workspace.Spawn.{
  SpawnTask, SpawnResult, SpawnStatus, Surroundings, running, phase_start, phase_task_done,
  phase_end, refs_of, slot, drive, all_notified, run_all, run_generic_task, run_spawn,
  spawn_timeout, normalize_from, normalize_spawn_tasks,
}
use agent_workspace.Spawn.Results.{drive-slots}
use agent_workspace.Spawn.Liveness.{turns_of, drive_finishes}

-- a task with a text and an id
unfoldable pub is_named : SpawnTask → Bool
unfolding is_empty trim_space
is_named t = not (is_empty (trim_space t.task)) && not (is_empty (trim_space t.id))

made_id : (n : ℕ) → is_empty (trim_space (codes "task-" ++ decimal n)) ≡ false
made_id n = unfold trim_space in unfold is_empty in refl

normalize_from-named :
    (i : ℕ) (ts : List SpawnTask) → All (λ t. is_named t ≡ true) (normalize_from i ts)
unfolding normalize_from is_named
normalize_from-named i [] = tt
normalize_from-named i (t ∷ ts) = ground (arith, normalize_from-named (i + 1) ts, made_id (i + 1))

-- Whatever tasks are asked for, those that run have a text and an id.
pub normalize_spawn_tasks-named :
    (ts : List SpawnTask) → All (λ t. is_named t ≡ true) (normalize_spawn_tasks ts)
unfolding normalize_spawn_tasks
normalize_spawn_tasks-named ts = normalize_from-named 0 ts

run_generic_task-id :
    (t : SpawnTask) (around : Surroundings) → SpawnResult.id (run_generic_task t around) ≡ t.id
unfolding run_generic_task
run_generic_task-id t around = ground arith

-- Each task's result carries its id, on success, error and timeout alike, in the order of the tasks.
pub run_all-ids :
    (around : SpawnTask → Surroundings) (ts : List SpawnTask)
    → map SpawnResult.id (run_all around ts) ≡ map SpawnTask.id ts
unfolding run_all
run_all-ids around [] = refl
run_all-ids around (t ∷ ts) =
    ground (arith, run_all-ids around ts, run_generic_task-id t (around t))

length-run_all :
    (around : SpawnTask → Surroundings) (ts : List SpawnTask)
    → length (run_all around ts) ≡ length ts
unfolding run_all
length-run_all around [] = refl
length-run_all around (t ∷ ts) = omega (arith, length-run_all around ts)

module _ (around : ℤ → SpawnTask → Surroundings) (requested : List SpawnTask) (timeout : ℤ) where
  abbrev pub tasks : List SpawnTask
  tasks = normalize_spawn_tasks requested

  abbrev runs : List SpawnResult
  runs = run_all (around (spawn_timeout timeout)) tasks

  abbrev slots : List ℕ → List SpawnResult
  slots schedule = map slot (drive schedule (map running runs)).0

  abbrev started : List ℕ → List SpawnStatus
  started schedule =
      phase_start (map refs_of tasks)
      ∷ map (λ r. phase_task_done (SpawnResult.id r) r) (drive schedule (map running runs)).1

  run_spawn_lem :
      (schedule : List ℕ)
      → run_spawn around requested timeout schedule ≡ (
          if length tasks == 0
          then ([], some (err (codes "spawn requires at least one task")))
          else if ltb 10 (length tasks)
          then (
            [],
            some (
                err (
                  codes "too many subagents: "
                  ++ decimal (length tasks)
                  ++ codes " requested, max "
                  ++ decimal 10
                  ++ codes " concurrent")),
          )
          else if all_notified (drive schedule (map running runs)).0
          then (started schedule ++ phase_end (slots schedule) ∷ [], some (ok (slots schedule)))
          else (started schedule, none))
  run_spawn_lem schedule = unfold run_spawn in refl

  -- One to ten tasks are all answered, under every schedule that gives each goroutine its two steps: the
  -- answer is the list of the tasks' own results, in the tasks' order.
  pub run_spawn_completes :
      (schedule : List ℕ)
      → 1 ≤ length tasks
      → length tasks ≤ 10
      → ((j : ℕ) → j < length tasks → 2 ≤ turns_of j schedule)
      → (run_spawn around requested timeout schedule).1
        ≡ some (ok (run_all (around (spawn_timeout timeout)) tasks))
  run_spawn_completes schedule some_task few fair =
      ap (λ r. r.1) answered ∙ ap (λ rs. some (ok rs)) (drive-slots schedule runs done)
    where
      done : all_notified (drive schedule (map running runs)).0 ≡ true
      done = drive_finishes schedule runs (λ j inside.
          fair j (omega (arith, length-run_all (around (spawn_timeout timeout)) tasks)))

      several : (length tasks == 0) ≡ false
      several = ground arith

      small : ltb 10 (length tasks) ≡ false
      small = ground arith

      answered :
          run_spawn around requested timeout schedule
          ≡ (started schedule ++ phase_end (slots schedule) ∷ [], some (ok (slots schedule)))
      answered = run_spawn_lem schedule ∙ rw (several, small, done)
