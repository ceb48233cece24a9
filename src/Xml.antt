-- ===== src/Xml.antt =====
-- internal/xml and internal/xml/dom.
pub mod Structs
pub mod Namespaces
pub mod Header
pub mod Envelope
pub mod Dom
