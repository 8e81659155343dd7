-- ===== src/Tokens/Owner.antt =====
-- tokens/owner: the node that holds wallets.
pub mod Types
pub mod ParseUint
pub mod Balances
pub mod History
pub mod Transfer
pub mod Redeem
pub mod Lock
pub mod Unlock
pub mod Acceptance
pub mod TwoNodes
pub mod Flows
pub mod Contents
pub mod Progress
pub mod Routes
pub mod Server
