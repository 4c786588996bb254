-- ===== src/Nft/Retry.antt =====
-- Retrying a migration that has failed. (migration-backend/pkg/handler/likenft/migration/retry.go)
pub mod Accepted
use likecoin_op.Base.{
  ℕ, suc, ◌≡◌, refl, ap, Bool, true, false, ◌&&◌, ◌||◌, Option, none, some, List, [], ◌∷◌, map,
  keep, contains, ◌==◌, if◌then◌else◌, All, arith, Text, Bool-cases,
}
use likecoin_op.Exec.{
  exec, Error, Result, ok, err, stop, migration_not_failed, assets_not_matched, pure, raise, check,
  db_call,
}
use likecoin_op.Nft.Model.{
  AssetStatus, MigrationStatus, LikeNftAssetMigration, LikeNftAssetMigrationClass,
  LikeNftAssetMigrationNft, Tables, Action, State, classes_of, nfts_of, query_migration_of,
  query_classes, query_nfts, update_migration,
}
use likecoin_op.Nft.Status.{is_failed, row}

pub record BookNft : Type 0 where
  pub class_id : Text
  pub nft_id : Text

pub record RetryRequest : Type 0 where
  pub book_nft_collection : List Text
  pub book_nft : List BookNft

abbrev pub is_failed_migration : MigrationStatus → Bool
is_failed_migration MigrationStatus.failed = true
is_failed_migration _ = false

-- Every key of the first map is one of the second.
abbrev pub keys_within : List Text → List Text → Bool
keys_within [] ys = true
keys_within (x ∷ xs) ys = contains ys x && keys_within xs ys

-- `reflect.DeepEqual` of two maps whose values are all `true`.
abbrev pub same_keys : List Text → List Text → Bool
same_keys xs ys = keys_within xs ys && keys_within ys xs

abbrev pub failed_classes : List LikeNftAssetMigrationClass → List LikeNftAssetMigrationClass
failed_classes = keep (λ (c : LikeNftAssetMigrationClass). is_failed c.status)

abbrev pub failed_nfts : List LikeNftAssetMigrationNft → List LikeNftAssetMigrationNft
failed_nfts = keep (λ (n : LikeNftAssetMigrationNft). is_failed n.status)

-- The queries by migration and status.
abbrev pub query_failed_classes : ℕ → Tables → Result (List LikeNftAssetMigrationClass) × Tables
query_failed_classes id t = (ok (failed_classes (classes_of id t)), t)

abbrev pub query_failed_nfts : ℕ → Tables → Result (List LikeNftAssetMigrationNft) × Tables
query_failed_nfts id t = (ok (failed_nfts (nfts_of id t)), t)

-- `prefixed` is `newClassPrefixedNFTId`: the two ids with a slash between them.
module _ (prefixed : Text → Text → Text) where
  abbrev pub class_keys : List LikeNftAssetMigrationClass → List Text
  class_keys cs = map (λ (c : LikeNftAssetMigrationClass). c.cosmos_class_id) (failed_classes cs)

  abbrev pub nft_keys : List LikeNftAssetMigrationNft → List Text
  nft_keys ns =
      map (λ (n : LikeNftAssetMigrationNft). prefixed n.cosmos_class_id n.cosmos_nft_id)
        (failed_nfts ns)

  abbrev pub requested_keys : List BookNft → List Text
  requested_keys = map (λ (n : BookNft). prefixed n.class_id n.nft_id)

  -- `CheckAssets`
  unfoldable pub check_assets :
      RetryRequest → List LikeNftAssetMigrationClass → List LikeNftAssetMigrationNft → Bool
  check_assets req cs ns =
      same_keys req.book_nft_collection (class_keys cs)
      && same_keys (requested_keys req.book_nft) (nft_keys ns)

  module _ (fault : ℕ → Bool) where
    abbrev pub begun : LikeNftAssetMigration → LikeNftAssetMigration
    begun m = record m { status = MigrationStatus.in_progress }

    -- `RetryMigrationHandler.handle`
    unfoldable pub handle_retry : Text → RetryRequest → Action LikeNftAssetMigration
    handle_retry cosmos_address req =
        check (db_call fault (query_migration_of cosmos_address)) raise λ m.
          if is_failed_migration m.status
          then (check (db_call fault (query_failed_classes m.id)) raise λ cs.
              check (db_call fault (query_failed_nfts m.id)) raise λ ns.
                if check_assets req cs ns
                then (check (db_call fault (query_classes m.id)) raise λ _.
                    check (db_call fault (query_nfts m.id)) raise λ _.
                      check (db_call fault (update_migration (begun m))) raise λ _. pure (begun m))
                else raise assets_not_matched)
          else raise migration_not_failed
