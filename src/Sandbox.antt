-- ===== src/Sandbox.antt =====
-- The permissions sandbox that fences the agent's reach: internal/domain/sandbox.go,
-- internal/infrastructure/sandbox/checker.go, extract.go and resolve.go, internal/application/sandbox.go. The
-- model is of a Unix host (`runtime.GOOS` is not "windows").
pub mod Policies
pub mod Paths
pub mod Checker
pub mod Resolve
pub mod Extraction
pub mod Commands
pub mod Settings
mod Tests
