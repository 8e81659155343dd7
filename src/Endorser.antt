-- ===== src/Endorser.antt =====
-- custom-endorser: an endorser service with an executor of its own, and its command-line client.
pub mod Text
pub mod Config
pub mod Types
pub mod Executor
pub mod Service
pub mod Client
pub mod Main
pub mod Programs
pub mod EndToEnd
