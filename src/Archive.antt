-- ===== src/Archive.antt =====
-- engine/wolves/archive: which forecast and which results a day of the archive shows, and that reading
-- a source has lost nothing of it.
pub mod Difference
pub mod Lossless
pub mod Selection
pub mod Chosen
pub mod Results
mod Tests
