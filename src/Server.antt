-- ===== src/Server.antt =====
-- server.py: what a session's server does with the relay directory, part by part.
pub mod Inbox
pub mod Inherit
pub mod Public
pub mod Receipts
pub mod Registry
pub mod Claim
