-- ===== src/Spawn/Liveness.antt =====
-- The steps that the goroutines of internal/infrastructure/subagent/spawn.go have before them.
use agent_workspace.Prelude.{
  ℕ, zero, suc, ◌-◌, ◌==◌, ◌≡◌, ◌≤◌, ◌<◌, refl, true, Bool-cases, inl, inr, ltb, List, [], ◌∷◌,
  arith, map, length, if◌then◌else◌,
}
use agent_workspace.Spawn.{
  SpawnResult, Worker, running, written, notified, step, advance, drive, all_notified,
}

-- how often a goroutine is named in a schedule
unfoldable pub turns_of : ℕ → List ℕ → ℕ
turns_of j [] = 0
turns_of j (i ∷ is) = let rest = turns_of j is in if i == j then suc rest else rest

abbrev steps_left : Worker → ℕ
steps_left (running r) = 2
steps_left (written r) = 1
steps_left (notified r) = 0

-- the steps that the goroutine of an index has before it
unfoldable left_at : ℕ → List Worker → ℕ
left_at j [] = 0
left_at zero (w ∷ ws) = steps_left w
left_at (suc j) (w ∷ ws) = left_at j ws

step_left : (w : Worker) → steps_left (step w).0 ≡ steps_left w - 1
unfolding step
step_left (running r) = omega arith
step_left (written r) = omega arith
step_left (notified r) = omega arith

left_at-advance :
    (i j : ℕ) (ws : List Worker)
    → left_at j (advance i ws).0 ≡ (if i == j then left_at j ws - 1 else left_at j ws)
unfolding left_at advance
left_at-advance i j [] = ground arith
left_at-advance zero zero (w ∷ ws) = ground (arith, step_left w)
left_at-advance zero (suc j) (w ∷ ws) = ground arith
left_at-advance (suc i) zero (w ∷ ws) = ground arith
left_at-advance (suc i) (suc j) (w ∷ ws) = ground (arith, left_at-advance i j ws)

left_at-drive :
    (is : List ℕ) (j : ℕ) (ws : List Worker)
    → left_at j (drive is ws).0 ≡ left_at j ws - turns_of j is
unfolding drive turns_of
left_at-drive [] j ws = omega arith
left_at-drive (i ∷ is) j ws =
    ground (arith, left_at-drive is j (advance i ws).0, left_at-advance i j ws)

none_left : (ws : List Worker) → ((j : ℕ) → left_at j ws ≡ 0) → all_notified ws ≡ true
unfolding left_at all_notified
none_left [] done = refl
none_left (running r ∷ ws) done = ground (arith, done 0)
none_left (written r ∷ ws) done = ground (arith, done 0)
none_left (notified r ∷ ws) done = none_left ws (λ j. done (suc j))

left_at-running : (rs : List SpawnResult) (j : ℕ) → left_at j (map running rs) ≤ 2
unfolding left_at
left_at-running [] j = omega arith
left_at-running (r ∷ rs) zero = omega arith
left_at-running (r ∷ rs) (suc j) = left_at-running rs j

left_at-outside : (rs : List SpawnResult) (j : ℕ) → length rs ≤ j → left_at j (map running rs) ≡ 0
unfolding left_at
left_at-outside [] j h = refl
left_at-outside (r ∷ rs) zero h = omega arith
left_at-outside (r ∷ rs) (suc j) h = left_at-outside rs j (omega arith)

-- Every schedule that names each goroutine at least twice lets all of them finish.
pub drive_finishes :
    (is : List ℕ) (rs : List SpawnResult)
    → ((j : ℕ) → j < length rs → 2 ≤ turns_of j is)
    → all_notified (drive is (map running rs)).0 ≡ true
drive_finishes is rs fair = none_left (drive is (map running rs)).0 (λ j. nothing j)
  where
    nothing : (j : ℕ) → left_at j (drive is (map running rs)).0 ≡ 0
    nothing j = elim (Bool-cases (ltb j (length rs))) [
      | inl inside ↦
          omega (
            arith,
            left_at-drive is j (map running rs),
            left_at-running rs j,
            fair j (ground arith),
          )
      | inr outside ↦
          omega (arith, left_at-drive is j (map running rs), left_at-outside rs j (ground arith))
    ]
