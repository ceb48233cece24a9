-- ===== src/Tests.antt =====
-- Tests of the definitions, and the theorems at concrete inputs.
mod Go
mod Samples
mod Messages
mod Storage
mod Requests
mod Opening
mod Queue
mod Calls
mod Documents
