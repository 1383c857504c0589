-- ===== src/Candidate.antt =====
-- knight/src/candidate: the candidates for a backrun and the state that collects them.
pub mod Types
pub mod Mempool
pub mod State
pub mod Filter
pub mod Source
pub mod BlockSyncer
pub mod Startup
mod Tests
