-- ===== src/Trackers.antt =====
-- The tracker plugins of backend/internal/plugins/trackers.
pub mod Lostfilm
