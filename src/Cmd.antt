-- ===== src/Cmd.antt =====
-- The three programs, cmd: what they check before they start, and the order-entry client's loop.
pub mod OeClient
pub mod Startup
pub mod Main
