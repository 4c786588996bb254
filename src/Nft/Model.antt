-- ===== src/Nft/Model.antt =====
-- The rows of a migration of NFTs. (migration-backend/pkg/model, migration-backend/pkg/db)
use likecoin_op.Base.{ℕ, Option, none, some, List, ◌==◌, find, keep, replace, Text}
use likecoin_op.Exec.{Error, Result, ok, err, no_rows, Exec, World}

-- The status of a class or of a token.
pub data AssetStatus : Type 0 where
  init in_progress completed failed other : AssetStatus

pub data MigrationStatus : Type 0 where
  init in_progress completed failed other : MigrationStatus

pub record LikeNftAssetMigration : Type 0 where
  pub id : ℕ
  pub likenft_asset_snapshot_id : ℕ
  pub cosmos_address : Text
  pub eth_address : Text
  pub status : MigrationStatus
  pub failed_reason : Option Error

pub record LikeNftAssetMigrationClass : Type 0 where
  pub id : ℕ
  pub likenft_asset_migration_id : ℕ
  pub cosmos_class_id : Text
  pub status : AssetStatus
  pub enqueue_time : Option ℕ
  pub finish_time : Option ℕ
  pub evm_tx_hash : Option Text
  pub failed_reason : Option Error

pub record LikeNftAssetMigrationNft : Type 0 where
  pub id : ℕ
  pub likenft_asset_migration_id : ℕ
  pub cosmos_class_id : Text
  pub cosmos_nft_id : Text
  pub status : AssetStatus
  pub enqueue_time : Option ℕ
  pub finish_time : Option ℕ
  pub evm_tx_hash : Option Text
  pub failed_reason : Option Error

pub record Tables : Type 0 where
  pub migrations : List LikeNftAssetMigration
  pub classes : List LikeNftAssetMigrationClass
  pub nfts : List LikeNftAssetMigrationNft

-- The ids of the migrations whose failed assets were put into the queue.
abbrev pub Action : Type 0 → Type 0
Action A = Exec Tables (List ℕ) A

abbrev pub State : Type 0
State = World Tables (List ℕ)

abbrev pub or_no_rows : Option LikeNftAssetMigration → Result LikeNftAssetMigration
or_no_rows none = err no_rows
or_no_rows (some m) = ok m

-- `QueryLikeNFTAssetMigrationById`
unfoldable pub query_migration : ℕ → Tables → Result LikeNftAssetMigration × Tables
query_migration id t =
    (or_no_rows (find (λ (m : LikeNftAssetMigration). m.id == id) t.migrations), t)

-- `QueryLikeNFTAssetMigrationByCosmosAddress`
unfoldable pub query_migration_of : Text → Tables → Result LikeNftAssetMigration × Tables
query_migration_of address t =
    (or_no_rows (find (λ (m : LikeNftAssetMigration). m.cosmos_address == address) t.migrations), t)

abbrev pub classes_of : ℕ → Tables → List LikeNftAssetMigrationClass
classes_of id t =
    keep (λ (c : LikeNftAssetMigrationClass). c.likenft_asset_migration_id == id) t.classes

abbrev pub nfts_of : ℕ → Tables → List LikeNftAssetMigrationNft
nfts_of id t = keep (λ (n : LikeNftAssetMigrationNft). n.likenft_asset_migration_id == id) t.nfts

-- `QueryLikeNFTAssetMigrationClassesByNFTMigrationId`
unfoldable pub query_classes : ℕ → Tables → Result (List LikeNftAssetMigrationClass) × Tables
query_classes id t = (ok (classes_of id t), t)

-- `QueryLikeNFTAssetMigrationNFTsByNFTMigrationId`
unfoldable pub query_nfts : ℕ → Tables → Result (List LikeNftAssetMigrationNft) × Tables
query_nfts id t = (ok (nfts_of id t), t)

-- `UpdateLikeNFTAssetMigration`: the statement of a row that is not there changes nothing.
unfoldable pub update_migration : LikeNftAssetMigration → Tables → Result (Unit {0}) × Tables
update_migration m t = (
  ok tt,
  record t {
    migrations = replace (λ (n : LikeNftAssetMigration). n.id == m.id) (λ _. m) t.migrations;
  },
)
