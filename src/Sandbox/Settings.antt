-- ===== src/Sandbox/Settings.antt =====
-- internal/application/sandbox.go: reading and saving the permissions configuration. The vault is the
-- argument `SandboxConfigStore` (internal/domain/ports/sandbox.go).
use agent_workspace.Prelude.{
  ◌≡◌, refl, ap, ◌∙◌, Bool, true, false, not, ◌&&◌, ◌||◌, ◌⊎◌, inl, inr, List, [], ◌∷◌, ◌++◌, map,
  Text, arith, text_eq_iff, elem, elem-nil, elem-cons, elem-append, is_empty, trim_space, distinct,
  distinct-append_one, Result, ok, err, Bool-cases, if◌then◌else◌,
}
use agent_workspace.Sandbox.Policies.{SandboxConfig, valid_mode, default_sandbox_config}

pub data SettingsError : Type 0 where
  vault_locked invalid_mode store_failed : SettingsError

pub record SandboxConfigStore : Type 1 where
  pub State : Type 0
  pub is_unlocked : State → Bool
  pub dir : State → Text
  pub load_sandbox_config : State → Result SettingsError SandboxConfig
  pub save_sandbox_config : SandboxConfig → State → State × Result SettingsError (Unit {0})

pub record SandboxRuntime : Type 0 where
  pub config : SandboxConfig
  pub vault_dir : Text

-- one round of the loop; the keys of `seen` are `normalized`
unfoldable pub next_entry : Text → List Text → List Text
unfolding is_empty elem trim_space
next_entry entry normalized =
    if is_empty (trim_space entry) || elem (trim_space entry) normalized
    then normalized
    else normalized ++ trim_space entry ∷ []

unfoldable pub normalize_loop : List Text → List Text → List Text
unfolding next_entry
normalize_loop [] normalized = normalized
normalize_loop (entry ∷ list) normalized = normalize_loop list (next_entry entry normalized)

unfoldable pub normalize_sandbox_path_list : List Text → List Text
unfolding normalize_loop
normalize_sandbox_path_list list = normalize_loop list []

module _ (store : SandboxConfigStore) where
  open store use {State, is_unlocked, dir, load_sandbox_config, save_sandbox_config}

  unfoldable pub get_sandbox_config : State → Result SettingsError SandboxConfig
  get_sandbox_config s = if not (is_unlocked s) then err vault_locked else load_sandbox_config s

  -- what is returned behind the save
  abbrev saved :
      SandboxConfig
      → State × Result SettingsError (Unit {0})
      → State × Result SettingsError SandboxConfig
  saved config (t, ok u) = (t, ok config)
  saved config (t, err e) = (t, err e)

  unfoldable pub set_sandbox_config :
      SandboxConfig → State → State × Result SettingsError SandboxConfig
  unfolding valid_mode normalize_sandbox_path_list
  set_sandbox_config config s =
      let normalized = record config {
        allowed_folders = normalize_sandbox_path_list (config.allowed_folders);
      } in
      if not (is_unlocked s)
      then (s, err vault_locked)
      else if not (valid_mode config.mode)
      then (s, err invalid_mode)
      else saved normalized (save_sandbox_config normalized s)

  unfoldable pub load_sandbox_runtime : State → SandboxRuntime
  load_sandbox_runtime s =
      let config =
        if is_unlocked s
        then elim (load_sandbox_config s) as (λ r. SandboxConfig) [
          | ok config ↦ config
          | err e ↦ default_sandbox_config
        ]
        else default_sandbox_config in
      record { config = config; vault_dir = dir s }

next_entry_lem :
    (entry : Text) (out : List Text)
    → next_entry entry out ≡ (
        if is_empty (trim_space entry) || elem (trim_space entry) out
        then out
        else out ++ trim_space entry ∷ [])
next_entry_lem entry out = unfold next_entry in refl

normalize_loop-distinct :
    (list out : List Text) → distinct out ≡ true → distinct (normalize_loop list out) ≡ true
unfolding normalize_loop
normalize_loop-distinct [] out d = d
normalize_loop-distinct (entry ∷ list) out d =
    normalize_loop-distinct list (next_entry entry out)
      (ground (arith, next_entry_lem entry out, distinct-append_one out (trim_space entry)))

normalize_loop-elem :
    (list out : List Text) (x : Text)
    → elem x (normalize_loop list out)
      ≡ (elem x out || (not (is_empty x) && elem x (map trim_space list)))
unfolding normalize_loop
normalize_loop-elem [] out x = ground (arith, elem-nil x)
normalize_loop-elem (entry ∷ list) out x =
    normalize_loop-elem list (next_entry entry out) x
    ∙ ground (
      arith,
      next_entry_lem entry out,
      elem-append x out (trim_space entry ∷ []),
      elem-cons x (trim_space entry) [],
      elem-cons x (trim_space entry) (map trim_space list),
      elem-nil x,
      text_eq_iff x (trim_space entry),
    )

-- The normalized list holds exactly the trimmed entries that are not empty, each of them once.
pub normalize_sandbox_path_list_lem :
    (list : List Text) (x : Text)
    → (elem x (normalize_sandbox_path_list list)
        ≡ (not (is_empty x) && elem x (map trim_space list)))
      × (distinct (normalize_sandbox_path_list list) ≡ true)
unfolding normalize_sandbox_path_list
normalize_sandbox_path_list_lem list x = (
  normalize_loop-elem list [] x ∙ ground (arith, elem-nil x),
  normalize_loop-distinct list [] (unfold distinct in refl),
)

-- whether `GetSandboxConfig` returns an error
abbrev pub get_failed : Result SettingsError SandboxConfig → Bool
get_failed (ok config) = false
get_failed (err e) = true

module _ (store : SandboxConfigStore) where
  -- A configuration is written to the vault only when the vault is unlocked and the mode is one of the
  -- three, and then with its folders normalized; otherwise the call is an error and writes nothing.
  pub set_sandbox_config_guarded :
      (config : SandboxConfig) (s : store.State)
      → ((store.is_unlocked s && valid_mode config.mode ≡ true)
          × ((set_sandbox_config store config s).0
              ≡ (store.save_sandbox_config
                  (record config {
                    allowed_folders = normalize_sandbox_path_list (config.allowed_folders);
                  })
                  s).0))
        ⊎ ((store.is_unlocked s && valid_mode config.mode ≡ false)
            × ((e : SettingsError) × (set_sandbox_config store config s ≡ (s, err e))))
  set_sandbox_config_guarded config s = elim (Bool-cases (store.is_unlocked s)) [
    | inr locked ↦ inr (rw locked, (vault_locked, unfold set_sandbox_config in rw locked))
    | inl open_vault ↦ elim (Bool-cases (valid_mode config.mode)) [
      | inr unknown ↦ inr (rw (open_vault, unknown), (invalid_mode, refused open_vault unknown))
      | inl known ↦ inl (rw (open_vault, known), written open_vault known)
    ]
  ]
    where
      next : SandboxConfig
      next = record config {
        allowed_folders = normalize_sandbox_path_list (config.allowed_folders);
      }

      shape : set_sandbox_config store config s ≡ (
          if not (store.is_unlocked s)
          then (s, err vault_locked)
          else if not (valid_mode config.mode)
          then (s, err invalid_mode)
          else saved store next (store.save_sandbox_config next s))
      shape = unfold set_sandbox_config in refl

      saved-state :
          (c : SandboxConfig) (r : store.State × Result SettingsError (Unit {0}))
          → (saved store c r).0 ≡ r.0
      saved-state c (t, ok u) = refl
      saved-state c (t, err e) = refl

      refused :
          store.is_unlocked s ≡ true
          → valid_mode config.mode ≡ false
          → set_sandbox_config store config s ≡ (s, err invalid_mode)
      refused o u = shape ∙ rw (o, u)

      written :
          store.is_unlocked s ≡ true
          → valid_mode config.mode ≡ true
          → (set_sandbox_config store config s).0 ≡ (store.save_sandbox_config next s).0
      written o k =
          let q : set_sandbox_config store config s
              ≡ saved store next (store.save_sandbox_config next s) =
            shape ∙ rw (o, k) in
          ap (λ p. p.0) q ∙ saved-state next (store.save_sandbox_config next s)

  -- The policy of a dispatch fails closed: it is the stored configuration only if the vault is unlocked
  -- and the load succeeds, and otherwise the default, which allows no extra folder.
  pub load_sandbox_runtime_closed :
      (s : store.State)
      → ((store.is_unlocked s ≡ true)
          × (store.load_sandbox_config s ≡ ok (load_sandbox_runtime store s).config))
        ⊎ ((get_failed (get_sandbox_config store s) ≡ true)
            × ((load_sandbox_runtime store s).config ≡ default_sandbox_config))
  unfolding load_sandbox_runtime get_sandbox_config
  load_sandbox_runtime_closed s = ground arith
