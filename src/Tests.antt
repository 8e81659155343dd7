-- ===== src/Tests.antt =====
-- Runs at concrete inputs: the external code is played by concrete functions.
mod Demo
mod Contents
mod Tokens
mod Endorser
mod Servers
mod Nodes
