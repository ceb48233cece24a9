-- ===== src/Server.antt =====
-- The server: database, sessions, events, controllers.
pub mod Database
pub mod Broker
pub mod Session
pub mod Build
pub mod World
pub mod Rpc
pub mod Incoming
pub mod Cwmp
pub mod Api
pub mod Events
pub mod Router
pub mod Start
pub mod Serving
