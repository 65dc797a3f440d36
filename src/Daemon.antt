-- ===== src/Daemon.antt =====
-- internal/daemon and cmd/watchd: the process that puts the parts together.
pub mod Config
pub mod Accepted
pub mod Serve
pub mod Phases
pub mod Command
