-- ===== src/AutoLock/Vault.antt =====
-- internal/application/auto_lock.go: recording activity, the setting, and locking an idle vault. The
-- policy is the `Locker`; the vault and the settings file are the arguments `AutoLockVault` and
-- `AppConfigStore`. A missing policy, vault or settings file is left out: they are given.
use agent_workspace.Prelude.{ℕ, Bool, true, false, not, ◌&&◌, Result, ok, err, if◌then◌else◌, ℤ}
use agent_workspace.AutoLock.{Locker, touch, set_timeout_minutes, timeout_minutes, expired}

pub data VaultError : Type 0 where
  not_locked not_saved : VaultError

pub record AutoLockVault : Type 1 where
  pub State : Type 0
  pub is_unlocked : State → Bool
  pub lock : State → State × Result VaultError (Unit {0})

pub record AppConfigStore : Type 1 where
  pub State : Type 0
  pub save_auto_lock_minutes : ℤ → State → State × Result VaultError (Unit {0})

unfoldable pub record_auto_lock_activity : Locker → ℕ → Locker
unfolding touch
record_auto_lock_activity policy now = touch policy now

unfoldable pub get_auto_lock_minutes : Locker → ℤ
unfolding timeout_minutes
get_auto_lock_minutes policy = timeout_minutes policy

-- what is saved is what the policy answers after the change
unfoldable pub set_auto_lock_minutes :
    (config : AppConfigStore)
    → Locker
    → ℤ
    → config.State
    → Locker × (config.State × Result VaultError (Unit {0}))
unfolding set_timeout_minutes timeout_minutes
set_auto_lock_minutes config policy minutes s =
    let changed = set_timeout_minutes policy minutes in
    (changed, config.save_auto_lock_minutes (timeout_minutes changed) s)

module _ (vault : AutoLockVault) where
  unfoldable pub should_lock_vault_if_inactive : Locker → vault.State → ℕ → Bool
  unfolding expired
  should_lock_vault_if_inactive policy s now = vault.is_unlocked s && expired policy now

  abbrev locked : vault.State × Result VaultError (Unit {0}) → vault.State × Result VaultError Bool
  locked (t, ok u) = (t, ok true)
  locked (t, err e) = (t, err e)

  unfoldable pub lock_vault_if_inactive :
      Locker → vault.State → ℕ → vault.State × Result VaultError Bool
  unfolding should_lock_vault_if_inactive
  lock_vault_if_inactive policy s now =
      if not (should_lock_vault_if_inactive policy s now)
      then (s, ok false)
      else locked (vault.lock s)
