-- ===== src/Rcon.antt =====
-- internal/rcon: the Source RCON protocol over a byte stream, and the two drain commands.
pub mod Wire
pub mod Session
pub mod FakeServer
