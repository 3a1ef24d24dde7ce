-- ===== src/AutoLock/Window.antt =====
-- The inactivity window.
use agent_workspace.Prelude.{ℕ, ◌+◌, ◌*◌, ◌≤◌, ◌≡◌, true, false, ◌&&◌, arith, ltb, leb, pos, negsuc}
use agent_workspace.AutoLock.{
  Locker, minute, max_int64, minutes_to_duration, touch, set_timeout_minutes, timeout_minutes,
  expired,
}

-- the minutes whose nanoseconds fit an int64
abbrev pub Fits : ℕ → Type 0
Fits minutes = minutes * minute ≤ max_int64

duration_of_minutes :
    (minutes : ℕ) → Fits minutes → minutes_to_duration (pos minutes) ≡ pos (minutes * minute)
unfolding minutes_to_duration
duration_of_minutes minutes fits = ground arith

-- With a timeout of `minutes` that fits an int64 and the last activity at `last`, the vault is due for
-- locking at a time exactly if the timeout is not zero and at least that long has passed.
pub expired-touch :
    (l : Locker) (minutes last now : ℕ)
    → Fits minutes
    → expired (touch (set_timeout_minutes l (pos minutes)) last) now
      ≡ (ltb 0 minutes && leb (last + minutes * minute) now)
unfolding expired touch set_timeout_minutes
expired-touch l minutes last now fits = ground (arith, duration_of_minutes minutes fits)

-- Later activity only postpones locking: what is due after activity at `last` was due after activity
-- at any earlier time.
pub expired_mono :
    (l : Locker) (early last now : ℕ)
    → early ≤ last
    → expired (touch l last) now ≡ true
    → expired (touch l early) now ≡ true
unfolding expired touch
expired_mono l early last now le h = ground arith

-- A number of minutes that fits is read back as it was set; a negative one is read back as 0, and never
-- expires.
pub timeout_minutes-set :
    (l : Locker) (minutes n now : ℕ)
    → Fits minutes
    → (timeout_minutes (set_timeout_minutes l (pos minutes)) ≡ pos minutes)
      × (timeout_minutes (set_timeout_minutes l (negsuc n)) ≡ pos 0)
      × (expired (set_timeout_minutes l (negsuc n)) now ≡ false)
unfolding timeout_minutes set_timeout_minutes expired
timeout_minutes-set l minutes n now fits =
    (ground (arith, duration_of_minutes minutes fits), ground arith, ground arith)
