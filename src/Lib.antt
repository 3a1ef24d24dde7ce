-- ===== src/Lib.antt =====
-- The core logic of Agent Workspace, a desktop application in which an agent works inside a fence
-- that its user sets. Each part below is a module of this library.
--
-- Prelude: what the parts share. Text is the list of a string's code points, Dict a Go map as a
--   list of entries with distinct keys, Result a Go `(T, error)` pair with the error's kind for
--   its message.
-- Firewall: who may reach the local servers. Firewall.Rules is internal/domain/firewall.go;
--   Firewall.Address and Firewall.Acl are internal/infrastructure/agentfw/firewall.go (`Decide` is
--   `decide`, `BindKinds` is `bind_kinds`, `PeerFilter` of internal/infrastructure/agentfw/net.go
--   is `peer_filter`); Firewall.Interfaces is internal/infrastructure/agentfw/net.go;
--   Firewall.Origins (`validateOrigin`) and Firewall.Saving are internal/application/firewall.go. The parsers of Go's `net` are the
--   parameter `Net`, the operating system's interfaces the parameter `Os`, and the case mapping of
--   letters outside ASCII the parameter `lower_rune`.
-- Runs: internal/application/chat_run_coordinator.go. A method holds its mutexes for its whole
--   body, so it is one step, and an interleaving is a list of calls that `run` executes. The int64
--   sequence wraps at 2 ^ 64; theorems that need fresh tokens ask that it does not wrap.
-- Cooldown: internal/application/provider_cooldown.go. A time is a number of nanoseconds, and the
--   clock's answer is an argument of each method.
-- AutoLock: internal/infrastructure/autolock/autolock.go, with durations as int64; AutoLock.Vault
--   is internal/application/auto_lock.go, over the vault and the settings file as parameters.
-- Confirmations: internal/application/confirmation_coordinator.go. The channels stand in a store,
--   since the coordinator and the waiting caller share them.
-- Modules: internal/domain/module.go and internal/application/modules.go, over the port of
--   internal/domain/ports/modules.go, which is the parameter `WorkspaceModuleStore`; its
--   documented behaviour is `Modules.Fence.StoreLaws`. The catalog is an argument, as in the code,
--   and Modules.Registry is the one that ships (`ModuleCatalog`).
-- Sandbox: the fence around the file system. Sandbox.Policies is internal/domain/sandbox.go;
--   Sandbox.Paths and Sandbox.Checker are internal/infrastructure/sandbox/checker.go with the
--   functions of Go's path/filepath that it calls; Sandbox.Extraction and Sandbox.Commands are
--   internal/infrastructure/sandbox/extract.go (`ExtractPaths` is `extract_paths`, `CheckCommand`
--   is `check_command`), where the captures of its three regular expressions for redirects, curl
--   and wget are the parameter `Patterns`; Sandbox.Resolve is
--   internal/infrastructure/sandbox/resolve.go (`ResolveAndCheck` is `resolve_and_check`), over
--   the file system `Fs`, with fuel for the walk up to an existing ancestor, one more than the
--   length of the path, which is enough for an absolute path under the documented behaviour of
--   filepath.Dir, `Sandbox.Resolve.Ancestors.DirLaw`; Sandbox.Settings is internal/application/sandbox.go. The host is Unix.
-- Taint: internal/domain/external_safety.go (`WithObservation` is `with_observation`); Taint.Turns
--   is internal/infrastructure/externaltaint/store.go; Taint.Guard is `requireExternalActionGuard` of
--   internal/infrastructure/tools/external_safety.go, where the scanner's verdict, the decoded
--   arguments and the user's answer are arguments. The abstract view of Taint.Lattice keeps of a
--   turn two flags and a rank.
-- Memory: internal/application/user_memory.go over the row that
--   internal/infrastructure/vault/vault.go reads and writes; the regular expressions that scrub
--   secrets are the argument `scrub`.
-- History: History.Compaction is internal/application/chat_compaction.go, History.Restore
--   internal/application/chat_restore.go (`BuildRestoreSeed` is `build_restore_seed`), over the
--   messages of internal/domain/chat.go. What the stores and the model answer are arguments, and
--   what is asked of them is recorded as `Effects`.
-- Sessions: internal/infrastructure/webserver/session.go and the session methods of
--   internal/appcore/app_web.go. JSON, base64url and HMAC are the parameter `Codec`, with their
--   documented behaviour as `Sessions.Tokens.IsFaithful`. Generations, times and lifetimes wrap
--   around as int64 does.
-- Spawn: internal/infrastructure/subagent/spawn.go. A goroutine has two steps, and an interleaving
--   is a list of goroutines' numbers, which `drive` executes.
-- Mcp: internal/domain/mcp_connection.go; Mcp.Cases and Mcp.Calls are
--   internal/application/mcp_connections.go, over the ports of connections and
--   secrets (`McpPorts`) and the client's answers, for any type of a call's arguments.
-- Tasks: internal/domain/tasks.go and internal/application/tasks.go, over the port of the vault's
--   tables (`TasksStore`), whose promise is `Tasks.Attachments.TasksStoreLaws`.
--
-- The parts meet where the composition root joins them: `peer_filter` is what each server calls on
-- a connection and `bind_addrs` what it listens on, and the sandbox's `Policy` is built from
-- `load_sandbox_runtime`. Every other loop is structural recursion on the list that it walks.
-- Errors keep their kind and the values in their message, not its words. The checks for a nil
-- store are left out: a store is always given.
--
-- Not modelled: the user interface, the servers' and providers' HTTP, the vault's storage and
-- cryptography, the browser driver and the tools, which are I/O or calls of libraries; the prompt
-- blocks that are put together from the parts; the Windows variants of paths.
mod Prelude
pub mod Firewall
pub mod Runs
pub mod Cooldown
pub mod AutoLock
pub mod Confirmations
pub mod Modules
pub mod Sandbox
pub mod Taint
pub mod Memory
pub mod History
pub mod Sessions
pub mod Spawn
pub mod Mcp
pub mod Tasks
