-- ===== src/Nft.antt =====
-- Migrating NFTs: a migration with its classes and tokens. (migration-backend/pkg/logic/likenft,
-- migration-backend/pkg/handler/likenft)
pub mod Model
pub mod Status
pub mod Retry
pub mod Enqueue
pub mod Begin
pub mod Actions
pub mod Amount
pub mod Snapshot
mod Tests
