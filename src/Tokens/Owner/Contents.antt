-- ===== src/Tokens/Owner/Contents.antt =====
-- What the transactions move that an owner's REST server commits for its clients.
pub mod Payments
pub mod HashLocks
pub mod LockRequests
pub mod Unlocks
