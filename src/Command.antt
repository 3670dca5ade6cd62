-- ===== src/Command.antt =====
-- cmd/file-pubsub: the command line. What the commands print is left out, except for the data that
-- a successful one prints.
pub mod Flags
pub mod Run
