-- ===== src/Indexer.antt =====
-- The indexer: the logs of the contracts become events, and each event is processed once.
-- (likenft-indexer/internal, likenft-indexer/cmd/worker/task)
pub mod Model
pub mod Logs
pub mod Db
pub mod Acquire
pub mod Process
pub mod Repos
pub mod Processors
mod Tests
