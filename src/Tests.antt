-- ===== src/Tests.antt =====
-- Concrete runs of the library.
pub mod SoupTests
pub mod MessageTests
pub mod ParserTests
pub mod DefinitionTests
pub mod SessionTests
pub mod ProtocolTests
pub mod FixTests
