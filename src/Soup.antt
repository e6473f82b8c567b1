-- ===== src/Soup.antt =====
-- The SoupBinTCP part of the package: src/nasdaq_protocols/soup.
pub mod Core
pub mod Reader
pub mod Stream
pub mod Session
pub mod Sync
