-- ===== src/AutoLock.antt =====
-- internal/infrastructure/autolock/autolock.go: when an unlocked vault is locked for inactivity. Times
-- and durations are in nanoseconds; `none` is the zero Time. Products of durations are int64.
pub mod Window
pub mod Vault
mod Tests
use agent_workspace.Prelude.{
  ℕ, ◌+◌, ◌-◌, ◌*◌, ◌/◌, ◌%◌, ◌^◌, Bool, true, false, not, ◌||◌, Option, none, some, ltb, leb,
  if◌then◌else◌, ℤ, pos, negsuc, sub_ℕ, leb_ℤ,
}

pub record Locker : Type 0 where
  pub timeout : ℤ
  pub last : Option ℕ

abbrev pub minute : ℕ
minute = 60 * 1000000000

abbrev pub max_int64 : ℕ
max_int64 = 2 ^ 63 - 1

-- the int64 with the bits of `n`
unfoldable pub int64 : ℕ → ℤ
int64 n = let low = n % 2 ^ 64 in if leb low max_int64 then pos low else negsuc (2 ^ 64 - low - 1)

unfoldable pub minutes_to_duration : ℤ → ℤ
unfolding int64
minutes_to_duration (pos minutes) = if leb minutes 0 then pos 0 else int64 (minutes * minute)
minutes_to_duration (negsuc n) = pos 0

unfoldable pub new : ℤ → Locker
unfolding minutes_to_duration
new minutes = record { timeout = minutes_to_duration minutes; last = none }

unfoldable pub touch : Locker → ℕ → Locker
touch l now = record l { last = some now }

unfoldable pub set_timeout_minutes : Locker → ℤ → Locker
unfolding minutes_to_duration
set_timeout_minutes l minutes = record l { timeout = minutes_to_duration minutes }

-- Go's division of int64 truncates towards zero
unfoldable pub div_minute : ℤ → ℤ
div_minute (pos n) = pos (n / minute)
div_minute (negsuc n) = sub_ℕ 0 ((n + 1) / minute)

unfoldable pub timeout_minutes : Locker → ℤ
unfolding div_minute
timeout_minutes l = div_minute l.timeout

-- Time.Sub, which stops at the ends of int64
unfoldable pub time_sub : ℕ → ℕ → ℤ
time_sub now last =
    if leb last now
    then pos (if ltb max_int64 (now - last) then max_int64 else now - last)
    else negsuc (if ltb max_int64 (last - now - 1) then max_int64 else last - now - 1)

abbrev pub is_zero : ℤ → Bool
is_zero (pos n) = leb n 0
is_zero (negsuc n) = false

unfoldable pub expired : Locker → ℕ → Bool
unfolding time_sub
expired l now = elim l.last [
  | none ↦ false
  | some last ↦ if is_zero l.timeout then false else leb_ℤ l.timeout (time_sub now last)
]
