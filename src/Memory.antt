-- ===== src/Memory.antt =====
-- engine/wolves/agent/source_memory.py and relevance_memory.py: what earlier runs saw and judged.
pub mod History
pub mod Sources
pub mod Relevance
pub mod Reload
pub mod Fetched
pub mod Replay
pub mod Lines
mod Tests
