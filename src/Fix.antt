-- ===== src/Fix.antt =====
-- The FIX part of the package: src/nasdaq_protocols/fix.
pub mod Types
pub mod Field
pub mod Segment
pub mod Access
pub mod Message
pub mod Reader
pub mod Session
pub mod Parser
