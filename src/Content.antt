-- ===== src/Content.antt =====
-- telegram_presence/content.py
pub mod Media
pub mod Chunks
