-- ===== src/Nft/Actions/Migrate.antt =====
-- Migrating a class or a token by its actions, and the tasks of the queue that do so.
-- (migration-backend/pkg/logic/likenft/migrate_class.go, migrate_nft.go)
use likecoin_op.Base.{ℕ, Bool, true, false, if◌then◌else◌, Option, some, [], ◌==◌, find, Text}
use likecoin_op.Exec.{
  Error, Result, ok, err, stop, nil_dereference, panicked, blocked, crashed, join_opt, pure, raise,
  halt, check, error_of, db_call, ◌>>=◌,
}
use likecoin_op.Ethereum.{given}
use likecoin_op.Nft.Model
use likecoin_op.Nft.Model.{
  AssetStatus, LikeNftAssetMigration, LikeNftAssetMigrationClass, LikeNftAssetMigrationNft,
  query_migration,
}
use likecoin_op.Nft.Enqueue.{update_class, update_nft}
use likecoin_op.Nft.Status.{recalculate_migration_status}
use likecoin_op.Nft.Actions.Model.{
  LikeNftMigrationActionTransferClass, LikeNftMigrationActionMintNft, Action, or_no_rows, on_assets,
}
use likecoin_op.Nft.Actions.Calls.{Env}
use likecoin_op.Nft.Actions.NewClass.{Initial, get_or_create_new_class, do_new_class}
use likecoin_op.Nft.Actions.TransferClass.{get_or_create_transfer_class, do_transfer_class}
use likecoin_op.Nft.Actions.MintNft.{get_or_create_mint_nft, do_mint_nft}

-- `QueryLikeNFTAssetMigrationClassById`
unfoldable pub query_class_by_id :
    ℕ → Model.Tables → Result LikeNftAssetMigrationClass × Model.Tables
query_class_by_id id t =
    (or_no_rows (find (λ (c : LikeNftAssetMigrationClass). c.id == id) t.classes), t)

-- `QueryLikeNFTAssetMigrationNFTById`
unfoldable pub query_nft_by_id : ℕ → Model.Tables → Result LikeNftAssetMigrationNft × Model.Tables
query_nft_by_id id t = (or_no_rows (find (λ (n : LikeNftAssetMigrationNft). n.id == id) t.nfts), t)

-- The result of a call whose deferred function has ended: only a panic of that function changes it.
abbrev pub after_deferred : {A : Type 0} → Result A → Result (Unit {0}) → Result A
after_deferred r (stop s) = stop s
after_deferred r (ok _) = r
after_deferred r (err _) = r

abbrev pub is_crash : {A : Type 0} → Result A → Bool
is_crash (ok a) = false
is_crash (err e) = false
is_crash (stop nil_dereference) = false
is_crash (stop panicked) = false
is_crash (stop blocked) = false
is_crash (stop crashed) = true

-- `defer d()`: the function runs after the call, also where the call panics, but not where the process
-- has ended.
unfoldable pub deferred : {A : Type 0} → Action (Unit {0}) → Action A → Action A
deferred d m w =
    let (r, u) = m w in let (s, v) = d u in if is_crash r then (r, u) else (after_deferred r s, v)

module _ (env : Env) where
  -- `MigrateClass`
  unfoldable pub migrate_class :
      Text → Initial → Text → Text → Action LikeNftMigrationActionTransferClass
  migrate_class cosmos_class_id initial cosmos_owner evm_owner =
      check (get_or_create_new_class env cosmos_class_id initial) raise λ created.
        check (do_new_class env created) raise λ a.
          given a.evm_class_id (halt nil_dereference) λ evm_class_id.
            check (get_or_create_transfer_class env evm_class_id cosmos_owner evm_owner) raise
              λ transfer. do_transfer_class env transfer

  -- `MigrateNFT`
  unfoldable pub migrate_nft :
      Text → Text → Initial → Text → Text → Action LikeNftMigrationActionMintNft
  migrate_nft cosmos_class_id cosmos_nft_id initial initial_batch_mint_owner evm_owner =
      check (get_or_create_new_class env cosmos_class_id initial) raise λ created.
        check (do_new_class env created) raise λ a.
          given a.evm_class_id (halt nil_dereference) λ evm_class_id.
            check
              (get_or_create_mint_nft env evm_class_id cosmos_nft_id initial_batch_mint_owner
                evm_owner)
              raise λ mint. do_mint_nft env mint

  -- `RecalculateMigrationStatus`, on the tables of the migration.
  unfoldable pub recalculate : ℕ → Action (Unit {0})
  recalculate id w =
      let (r, v) =
        recalculate_migration_status env.fault id
          (record { tick = w.tick; db = w.db.assets; net = [] }) in
      (r, record w { tick = v.tick; db = record w.db { assets = v.db } })

  -- `migrateClassFromAssetMigrationFailed`
  unfoldable pub migrate_class_failed : {A : Type 0} → LikeNftAssetMigrationClass → Error → Action A
  migrate_class_failed mc e =
      error_of (
        db_call env.fault (
          on_assets
            (update_class (record mc { status = AssetStatus.failed; failed_reason = some e }))))
      >>= λ failure. raise (join_opt e failure)

  -- `migrateNFTFromAssetMigrationFailed`
  unfoldable pub migrate_nft_failed : {A : Type 0} → LikeNftAssetMigrationNft → Error → Action A
  migrate_nft_failed mn e =
      error_of (
        db_call env.fault (
          on_assets
            (update_nft (record mn { status = AssetStatus.failed; failed_reason = some e }))))
      >>= λ failure. raise (join_opt e failure)

  abbrev pub begun_class : LikeNftAssetMigrationClass → LikeNftAssetMigrationClass
  begun_class mc = record mc { status = AssetStatus.in_progress }

  abbrev pub begun_nft : LikeNftAssetMigrationNft → LikeNftAssetMigrationNft
  begun_nft mn = record mn { status = AssetStatus.in_progress }

  abbrev pub at_time : {A : Type 0} → (ℕ → Action A) → Action A
  at_time k w = k (env.now w.tick) w

  abbrev pub finished_class :
      LikeNftAssetMigrationClass → Option Text → ℕ → LikeNftAssetMigrationClass
  finished_class mc hash now = record mc {
    status = AssetStatus.completed;
    evm_tx_hash = hash;
    finish_time = some now;
  }

  abbrev pub finished_nft : LikeNftAssetMigrationNft → Option Text → ℕ → LikeNftAssetMigrationNft
  finished_nft mn hash now = record mn {
    status = AssetStatus.completed;
    evm_tx_hash = hash;
    finish_time = some now;
  }

  -- `MigrateClassFromAssetMigration` after its `defer`.
  unfoldable pub run_class :
      LikeNftAssetMigrationClass
      → Initial
      → LikeNftAssetMigration
      → Action LikeNftAssetMigrationClass
  run_class mc initial m =
      check (migrate_class mc.cosmos_class_id initial m.cosmos_address m.eth_address)
        (migrate_class_failed mc)
        λ last_action. at_time λ now.
          let done = finished_class mc last_action.evm_tx_hash now in
          check (db_call env.fault (on_assets (update_class done))) (migrate_class_failed done)
            λ _. pure done

  -- `MigrateClassFromAssetMigration`
  unfoldable pub migrate_class_from_asset_migration :
      Initial → ℕ → Action LikeNftAssetMigrationClass
  migrate_class_from_asset_migration initial id =
      check (db_call env.fault (on_assets (query_class_by_id id))) raise λ row.
        let mc = begun_class row in
        check (db_call env.fault (on_assets (update_class mc))) raise λ _.
          check (db_call env.fault (on_assets (query_migration mc.likenft_asset_migration_id)))
            (migrate_class_failed mc) λ m. deferred (recalculate m.id) (run_class mc initial m)

  -- `MigrateNFTFromAssetMigration` after its `defer`.
  unfoldable pub run_nft :
      LikeNftAssetMigrationNft
      → Initial
      → Text
      → LikeNftAssetMigration
      → Action LikeNftAssetMigrationNft
  run_nft mn initial initial_batch_mint_owner m =
      check
        (migrate_nft mn.cosmos_class_id mn.cosmos_nft_id initial initial_batch_mint_owner
          m.eth_address)
        (migrate_nft_failed mn)
        λ last_action. at_time λ now.
          let done = finished_nft mn last_action.evm_tx_hash now in
          check (db_call env.fault (on_assets (update_nft done))) (migrate_nft_failed done)
            λ _. pure done

  -- `MigrateNFTFromAssetMigration`
  unfoldable pub migrate_nft_from_asset_migration :
      Initial → Text → ℕ → Action LikeNftAssetMigrationNft
  migrate_nft_from_asset_migration initial initial_batch_mint_owner id =
      check (db_call env.fault (on_assets (query_nft_by_id id))) raise λ row.
        let mn = begun_nft row in
        check (db_call env.fault (on_assets (update_nft mn))) raise λ _.
          check (db_call env.fault (on_assets (query_migration mn.likenft_asset_migration_id)))
            (migrate_nft_failed mn)
            λ m. deferred (recalculate m.id) (run_nft mn initial initial_batch_mint_owner m)
