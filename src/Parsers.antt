-- ===== src/Parsers.antt =====
-- internal/xml/cwmp_1_4/parsers.go: from an XML element to a message.
pub mod Loops
pub mod Arrays
pub mod Responses
pub mod InformParser
pub mod Table
