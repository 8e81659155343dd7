-- ===== src/Tokens/Owner/Flows.antt =====
-- What the flows that an owner starts do to the ledger.
pub mod Settled
pub mod Commits
pub mod Locks
pub mod Services
