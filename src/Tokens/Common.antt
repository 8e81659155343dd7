-- ===== src/Tokens/Common.antt =====
-- tokens/common: what the three kinds of node share.
pub mod Options
pub mod Assert
pub mod Views
pub mod Lifecycle
pub mod Contents
pub mod Acceptance
pub mod Responders
