-- ===== src/Shell.antt =====
-- pkg/tools/shell.go and pkg/tools/security.go: the tool that runs commands. The children are the
-- two readers of a command, the allowlist and the state of the tool, the guards, and `Execute`.
pub mod Host
pub mod Parse
pub mod Quoting
pub mod Guards
pub mod Tool
pub mod Commands
pub mod Execute
pub mod Safety
pub mod Arguments
pub mod Segments
mod Examples
