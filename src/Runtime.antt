-- ===== src/Runtime.antt =====
-- internal/runtime/daemon.go: the daemon. The HTTP server, the tickers, the file watcher and the
-- stop signal are its input: they appear as an explicit list of what happens, in the order in which
-- the daemon takes notice of it.
pub mod Inbox
pub mod Heartbeat
pub mod Active
pub mod Run
pub mod Names
