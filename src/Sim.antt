-- ===== src/Sim.antt =====
-- engine/wolves/sim: how played matches enter the simulation.
pub mod Overlay
pub mod Mirror
pub mod Results
pub mod Lock
pub mod Store
mod Tests
