-- ===== src/Credentials.antt =====
-- backend/internal/trackercreds/session.go: one session with a tracker for each user.
pub mod Fingerprint
pub mod Session
