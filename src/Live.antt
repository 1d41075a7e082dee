-- ===== src/Live.antt =====
-- backend/internal/sse: the live stream of events to the browser.
pub mod Tickets
pub mod Hub
