-- ===== src/Client.antt =====
-- The two client applications, internal/client.
pub mod DropCopy
pub mod OrderEntry
