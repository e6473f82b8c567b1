-- ===== src/Common.antt =====
-- The part that all protocols share: src/nasdaq_protocols/common.
pub mod Buffer
pub mod Reader
pub mod Message
pub mod Queue
pub mod Monitor
pub mod Session
