-- ===== src/Cwmp.antt =====
-- internal/cwmp and internal/errors: messages, protocol versions, errors.
pub mod Structs
pub mod Versions
pub mod Errors
