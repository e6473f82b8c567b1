-- ===== src/Common/Message.antt =====
-- Message definitions and their binary form: src/nasdaq_protocols/common/message.
pub mod Types
pub mod Structures
pub mod Registry
pub mod Parser
pub mod Context
