-- ===== src/Daily.antt =====
-- engine/wolves/run_agent.py: the run of a day, from the kill switch to what it publishes and keeps.
pub mod World
pub mod Flow
pub mod Hoare
pub mod Ends
pub mod Outcome
pub mod Publishes
pub mod Attempts
pub mod Blocked
pub mod Pull
pub mod Phase
pub mod Saved
pub mod Stages
pub mod Unpublished
mod Tests
