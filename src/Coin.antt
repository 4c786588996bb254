-- ===== src/Coin.antt =====
-- Migrating LikeCoin: a deposit on Cosmos is paid out once on the new chain.
-- (migration-backend/pkg/logic/likecoin)
pub mod Convert
pub mod Model
pub mod Create
pub mod Mint
mod Tests
