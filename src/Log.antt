-- ===== src/Log.antt =====
-- The example logging: a service whose requests, queries and outcomes are logged.
pub mod Database
pub mod Value
pub mod Bag
pub mod Multiline
pub mod Tracer
pub mod World
pub mod Users
pub mod Served
