-- ===== src/Signer.antt =====
-- The signing service: requests to send a transaction are stored once, signed under a fresh nonce,
-- broadcast and awaited. (signer-backend/pkg)
pub mod Model
pub mod Db
pub mod Evm
pub mod Await
pub mod Request
pub mod Service
mod Tests
