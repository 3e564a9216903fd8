-- ===== src/Inbox.antt =====
-- `inbox.py`: the inbox of group mentions.
pub mod Peers
pub mod Terms
pub mod Spool
pub mod Ingest
pub mod Reader
mod Tests
