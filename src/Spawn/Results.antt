-- ===== src/Spawn/Results.antt =====
-- What the slots and the broadcasts of internal/infrastructure/subagent/spawn.go hold after a schedule.
use agent_workspace.Prelude.{
  ℕ, zero, suc, ◌+◌, ◌≡◌, refl, ap, ◌∙◌, Bool, true, Option, none, some, List, [], ◌∷◌, arith, map,
  if◌then◌else◌,
}
use agent_workspace.Spawn.{
  SpawnResult, Worker, running, written, notified, slot, step, advance, onto, drive, all_notified,
}

-- the result that a goroutine's run returns
unfoldable pub planned : Worker → SpawnResult
planned (running r) = r
planned (written r) = r
planned (notified r) = r

step-planned : (w : Worker) → planned (step w).0 ≡ planned w
unfolding planned step
step-planned (running r) = refl
step-planned (written r) = refl
step-planned (notified r) = refl

advance-planned : (i : ℕ) (ws : List Worker) → map planned (advance i ws).0 ≡ map planned ws
unfolding advance
advance-planned i [] = refl
advance-planned zero (w ∷ ws) = ap (λ r. r ∷ map planned ws) (step-planned w)
advance-planned (suc i) (w ∷ ws) = ap (λ rs. planned w ∷ rs) (advance-planned i ws)

drive-planned : (is : List ℕ) (ws : List Worker) → map planned (drive is ws).0 ≡ map planned ws
unfolding drive
drive-planned [] ws = refl
drive-planned (i ∷ is) ws = drive-planned is (advance i ws).0 ∙ advance-planned i ws

slots_planned : (ws : List Worker) → all_notified ws ≡ true → map slot ws ≡ map planned ws
unfolding all_notified slot planned
slots_planned [] h = refl
slots_planned (running r ∷ ws) h = cc
slots_planned (written r ∷ ws) h = cc
slots_planned (notified r ∷ ws) h = ap (λ rs. r ∷ rs) (slots_planned ws h)

planned_running : (rs : List SpawnResult) → map planned (map running rs) ≡ rs
unfolding planned
planned_running [] = refl
planned_running (r ∷ rs) = ap (λ x. r ∷ x) (planned_running rs)

-- When every goroutine is done, the slots hold the results of the runs in the tasks' order, whatever the
-- order in which the runs ended.
pub drive-slots :
    (is : List ℕ) (rs : List SpawnResult)
    → all_notified (drive is (map running rs)).0 ≡ true
    → map slot (drive is (map running rs)).0 ≡ rs
drive-slots is rs done =
    slots_planned (drive is (map running rs)).0 done
    ∙ drive-planned is (map running rs)
    ∙ planned_running rs

module _ (p : SpawnResult → Bool) where
  -- how many results pass a test
  unfoldable pub count : List SpawnResult → ℕ
  count [] = 0
  count (r ∷ rs) = let rest = count rs in if p r then suc rest else rest

  -- how many of them have been broadcast
  unfoldable broadcast : List Worker → ℕ
  broadcast [] = 0
  broadcast (notified r ∷ ws) = let rest = broadcast ws in if p r then suc rest else rest
  broadcast (w ∷ ws) = broadcast ws

  advance-broadcast :
      (i : ℕ) (ws : List Worker)
      → broadcast (advance i ws).0 ≡ count (onto (advance i ws).1 []) + broadcast ws
  unfolding broadcast count advance step
  advance-broadcast i [] = refl
  advance-broadcast zero (running r ∷ ws) = ground arith
  advance-broadcast zero (written r ∷ ws) = ground arith
  advance-broadcast zero (notified r ∷ ws) = ground arith
  advance-broadcast (suc i) (running r ∷ ws) = advance-broadcast i ws
  advance-broadcast (suc i) (written r ∷ ws) = advance-broadcast i ws
  advance-broadcast (suc i) (notified r ∷ ws) = ground (arith, advance-broadcast i ws)

  count-onto :
      (o : Option SpawnResult) (rs : List SpawnResult)
      → count (onto o rs) ≡ count (onto o []) + count rs
  unfolding count
  count-onto none rs = omega arith
  count-onto (some r) rs = ground arith

  drive-broadcast :
      (is : List ℕ) (ws : List Worker)
      → broadcast (drive is ws).0 ≡ count (drive is ws).1 + broadcast ws
  unfolding drive count
  drive-broadcast [] ws = ground arith
  drive-broadcast (i ∷ is) ws = omega (
    arith,
    drive-broadcast is (advance i ws).0,
    advance-broadcast i ws,
    count-onto (advance i ws).1 (drive is (advance i ws).0).1,
  )

  broadcast_running : (rs : List SpawnResult) → broadcast (map running rs) ≡ 0
  unfolding broadcast
  broadcast_running [] = refl
  broadcast_running (r ∷ rs) = broadcast_running rs

  broadcast_all :
      (ws : List Worker) → all_notified ws ≡ true → broadcast ws ≡ count (map planned ws)
  unfolding broadcast all_notified count planned
  broadcast_all [] h = refl
  broadcast_all (running r ∷ ws) h = cc
  broadcast_all (written r ∷ ws) h = cc
  broadcast_all (notified r ∷ ws) h = ground (arith, broadcast_all ws h)

  -- When every goroutine is done, each of the results has been broadcast exactly once: for any test, as many
  -- of the broadcast ones pass it as of the tasks'.
  pub drive_once :
      (is : List ℕ) (rs : List SpawnResult)
      → all_notified (drive is (map running rs)).0 ≡ true
      → count (drive is (map running rs)).1 ≡ count rs
  drive_once is rs done = omega (
    arith,
    drive-broadcast is (map running rs),
    broadcast_running rs,
    broadcast_all (drive is (map running rs)).0 done,
    ap count (drive-planned is (map running rs) ∙ planned_running rs),
  )
