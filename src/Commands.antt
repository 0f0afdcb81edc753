-- ===== src/Commands.antt =====
-- cmd: the commands, as functions from their arguments to an exit code and what they leave.
pub mod Flags
pub mod Inject
pub mod Encrypt
pub mod Samples
