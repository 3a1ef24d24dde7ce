-- ===== src/Spawn/Tests.antt =====
-- Two tasks under an interleaving, and instances of the theorems there.
use agent_workspace.Prelude.{
  ℕ, ℤ, pos, zero, suc, ◌≡◌, ◌≤◌, ◌<◌, refl, arith, true, some, List, [], ◌∷◌, Text, codes, text_eq,
  map, length, ok, if◌then◌else◌,
}
use agent_workspace.Spawn.{
  SpawnTask, SpawnResult, Surroundings, replied, run_failed, running, drive, all_notified, run_all,
  run_spawn, spawn_timeout, normalize_spawn_tasks,
}
use agent_workspace.Spawn.Results.{count, drive_once}
use agent_workspace.Spawn.Liveness.{turns_of}
use agent_workspace.Spawn.Answers.{tasks, run_spawn_completes}

abbrev task_of : Text → Text → SpawnTask
task_of id task = record { id = id; task = task; context = [] }

abbrev requested : List SpawnTask
requested = task_of (codes "a") (codes "list") ∷ task_of [] [] ∷ task_of [] (codes "read") ∷ []

abbrev around : ℤ → SpawnTask → Surroundings
around deadline t = record {
  has_runtime = true;
  has_model_config = true;
  tool_set = ok tt;
  model_config = ok tt;
  run_isolated =
      λ text. if text_eq text (codes "list") then run_failed (codes "no") else replied text;
  elapsed_ms = 5;
  timeout_text = codes "2m0s";
}

-- the second goroutine writes and notifies first
abbrev schedule : List ℕ
schedule = 1 ∷ 0 ∷ 1 ∷ 0 ∷ []

abbrev result : Text → Text → Text → SpawnResult
result id status output = record { id = id; status = status; output = output; elapsed_ms = 5 }

abbrev results : List SpawnResult
results =
    result (codes "a") (codes "error") (codes "no")
    ∷ result (codes "task-3") (codes "success") (codes "read")
    ∷ []

run_spawn_run : (run_spawn around requested (pos 0) schedule).1 ≡ some (ok results)
unfolding run_spawn text_eq
run_spawn_run = refl

-- An id that is given and one that is made up can be the same.
normalize_run :
    map SpawnTask.id
      (normalize_spawn_tasks (task_of (codes "task-2") (codes "a") ∷ task_of [] (codes "b") ∷ []))
    ≡ codes "task-2" ∷ codes "task-2" ∷ []
unfolding normalize_spawn_tasks
normalize_run = refl

two_tasks : length (tasks around requested (pos 0)) ≡ 2
unfolding normalize_spawn_tasks
two_tasks = refl

fair : (j : ℕ) → j < length (tasks around requested (pos 0)) → 2 ≤ turns_of j schedule
unfolding turns_of
fair zero inside = omega arith
fair (suc zero) inside = omega arith
fair (suc (suc j)) inside = omega (arith, two_tasks)

run_spawn_completes_example :
    (run_spawn around requested (pos 0) schedule).1
    ≡ some (ok (run_all (around (spawn_timeout (pos 0))) (normalize_spawn_tasks requested)))
run_spawn_completes_example =
    run_spawn_completes around requested (pos 0) schedule (omega (arith, two_tasks))
      (omega (arith, two_tasks)) fair

done : all_notified (drive schedule (map running results)).0 ≡ true
unfolding drive all_notified
done = refl

drive_once_example :
    count
      (λ r. text_eq (SpawnResult.status r) (codes "error"))
      (drive schedule (map running results)).1
    ≡ count (λ r. text_eq (SpawnResult.status r) (codes "error")) results
drive_once_example =
    drive_once (λ r. text_eq (SpawnResult.status r) (codes "error")) schedule results done
