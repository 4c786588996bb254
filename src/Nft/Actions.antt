-- ===== src/Nft/Actions.antt =====
-- The actions that bring classes and tokens to the new chain. (migration-backend/pkg/logic/likenft)
pub mod Model
pub mod Calls
pub mod NewClass
pub mod TransferClass
pub mod MintNft
pub mod Migrate
pub mod Sound
pub mod Advances
pub mod Others
pub mod Service
pub mod Completes
mod Tests
