-- ===== src/Pgx.antt =====
-- The example pgx-transactions: transactions over pgx, retried, and the services that run in them.
pub mod Retry
pub mod Tx
pub mod Users
pub mod Reads
pub mod Tracing
pub mod Example
pub mod Orders
