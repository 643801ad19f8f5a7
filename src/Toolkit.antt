-- ===== src/Toolkit.antt =====
-- engine/wolves/toolkit: the budget gate of a node's tools, the truncation of tool results and the
-- retry loop of the HTTP clients.
pub mod Gate
pub mod Truncation
pub mod Retry
mod Tests
