-- ===== src/AutoLock/Tests.antt =====
-- A vault that is locked when it is due, and an instance of the theorem on it.
use agent_workspace.Prelude.{◌*◌, ◌≡◌, refl, Bool, true, false, none, ok, pos, ℤ}
use agent_workspace.AutoLock.{Locker, minute, touch}
use agent_workspace.AutoLock.Vault.{AutoLockVault, lock_vault_if_inactive, AppConfigStore}

abbrev five_minutes : Locker
five_minutes = record { timeout = pos (5 * minute); last = none }

-- a vault that is its own lock's state
abbrev small_vault : AutoLockVault
small_vault = record { State = Bool; is_unlocked = λ s. s; lock = λ s. (false, ok tt) }

lock_vault_if_inactive_run :
    lock_vault_if_inactive small_vault (touch five_minutes 0) true 300000000000 ≡ (false, ok true)
unfolding lock_vault_if_inactive touch
lock_vault_if_inactive_run = refl

-- a settings file that keeps the number
abbrev small_config : AppConfigStore
small_config = record { State = ℤ; save_auto_lock_minutes = λ minutes c. (minutes, ok tt) }
