-- ===== src/Tokens.antt =====
-- The token application under tokens/: three kinds of node (owner, issuer, endorser).
pub mod Int
pub mod Types
pub mod Platform
pub mod Calls
pub mod Settlement
pub mod Contents
pub mod Http
pub mod Common
pub mod Owner
pub mod Issuer
pub mod Endorser
pub mod Factories
pub mod Sessions
pub mod Node
pub mod Routing
