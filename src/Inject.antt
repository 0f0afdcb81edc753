-- ===== src/Inject.antt =====
-- pkg/inject/writer.go. Path is what it uses of path/filepath, Files the calls of package os with
-- their contract, Writer the code itself.
pub mod Path
pub mod Files
pub mod Writer
pub mod Shell
pub mod LoadEnv
pub mod Sourced
pub mod Samples
