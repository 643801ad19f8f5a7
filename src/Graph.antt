-- ===== src/Graph.antt =====
-- engine/wolves/graph: the graph of worker nodes that one run is.
pub mod Contracts
pub mod Coverage
pub mod TextRules
pub mod Board
pub mod Admit
pub mod Merge
pub mod Runner
