-- ===== src/Torrentmeta.antt =====
-- backend/internal/torrentmeta: the file list of a torrent, and which files an update already had.
pub mod Skip
pub mod Layout
pub mod Decoder
pub mod Decode
pub mod Fuel
