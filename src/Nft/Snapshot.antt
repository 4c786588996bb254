-- ===== src/Nft/Snapshot.antt =====
-- The snapshot of what an address owns on Cosmos, and the handler that asks for one.
-- (migration-backend/pkg/logic/likenft/snapshot_cosmos_state.go, pkg/db/nft_snapshot*.go,
-- pkg/handler/likenft/migration_preview/create.go)
pub mod Model
pub mod Outcome
pub mod Taken
pub mod Executed
mod Tests
use likecoin_op.Base.{
  ℕ, suc, Bool, true, false, not, ◌&&◌, Option, none, some, List, [], ◌∷◌, ◌==◌, if◌then◌else◌,
  find, any, replace, map, Text,
}
use likecoin_op.Exec.{
  Error, Result, ok, err, stop, no_rows, unique_violation, rpc_error, snapshot_not_init,
  snapshot_in_progress, join_opt, Exec, World, pure, raise, check, error_of, outside, db_call,
  begin_tx, commit, rollback, ◌>>=◌, ◌>>◌,
}
use likecoin_op.Nft.Snapshot.Model.{
  SnapshotStatus, LikeNftAssetSnapshot, LikeNftAssetSnapshotClass, LikeNftAssetSnapshotNft, Tables,
  Action, State, query_snapshot, query_latest_snapshot, same_block, same_height, or_no_rows,
  insert_snapshot, update_snapshot, insert_unique, same_class, same_nft, add_classes, add_nfts,
}

-- What the Cosmos node answers.
pub record Block : Type 0 where
  pub height : Text
  pub time : ℕ

pub record CosmosClass : Type 0 where
  pub id : Text
  pub name : Text
  pub image : Text

pub record CosmosNft : Type 0 where
  pub id : Text
  pub class_id : Text
  pub name : Text
  pub image : Text

-- The database, and the Cosmos node by the number of the call.
pub record Env : Type 0 where
  pub fault : ℕ → Bool
  pub latest_block : ℕ → Option Block
  pub classes_by_owner : Text → ℕ → Option (List CosmosClass)
  pub nfts_by_owner : Text → ℕ → Option (List CosmosNft)

-- The rows of a snapshot.
abbrev pub class_rows : ℕ → List CosmosClass → List LikeNftAssetSnapshotClass
class_rows id cs =
    map
      (λ (c : CosmosClass). record {
        nft_snapshot_id = id;
        cosmos_class_id = c.id;
        name = c.name;
        image = c.image;
      })
      cs

abbrev pub nft_rows : ℕ → List CosmosNft → List LikeNftAssetSnapshotNft
nft_rows id ns =
    map
      (λ (n : CosmosNft). record {
        nft_snapshot_id = id;
        cosmos_class_id = n.class_id;
        cosmos_nft_id = n.id;
        name = n.name;
        image = n.image;
      })
      ns

module _ (env : Env) where
  abbrev pub finish_tx : Tables → Result (Unit {0}) → Action (Unit {0})
  finish_tx before (ok a) = commit env.fault before
  finish_tx before (err e) =
      error_of (rollback env.fault before) >>= λ rolled. raise (join_opt e rolled)
  finish_tx before (stop s) = error_of (rollback env.fault before) >> λ w. (stop s, w)

  -- `WithTx` around statements of the transaction, and around statements that the body sends outside it.
  unfoldable pub with_db_tx : Action (Unit {0}) → Action (Unit {0})
  with_db_tx body =
      check (begin_tx env.fault) raise λ before w. finish_tx before (body w).0 (body w).1

  unfoldable pub with_db_tx_outside : Action (Unit {0}) → Action (Unit {0})
  with_db_tx_outside body =
      check (begin_tx env.fault) raise λ _ w. finish_tx (body w).1.db (body w).0 (body w).1

  -- `InsertLikeNFTAssetSnapshotClasses`: without rows, nothing is sent.
  unfoldable pub insert_snapshot_classes : List LikeNftAssetSnapshotClass → Action (Unit {0})
  insert_snapshot_classes [] = pure tt
  insert_snapshot_classes (c ∷ cs) = db_call env.fault (add_classes (c ∷ cs))

  -- `InsertLikeNFTAssetSnapshotNFTs`
  unfoldable pub insert_snapshot_nfts : List LikeNftAssetSnapshotNft → Action (Unit {0})
  insert_snapshot_nfts [] = pure tt
  insert_snapshot_nfts (n ∷ ns) = db_call env.fault (add_nfts (n ∷ ns))

  -- `failed`: the row is read in the transaction and written outside it, and a failure that could be
  -- stored is no error.
  unfoldable pub snapshot_failed : ℕ → Error → Action (Unit {0})
  snapshot_failed id reason = with_db_tx_outside (
      check (db_call env.fault (query_snapshot id)) raise λ s. db_call env.fault (
        update_snapshot (record s { failed_reason = some reason; status = SnapshotStatus.failed })))

  -- The transaction of `Execute`
  unfoldable pub store_snapshot :
      LikeNftAssetSnapshot → List CosmosClass → List CosmosNft → Action (Unit {0})
  store_snapshot s cs ns = check (db_call env.fault (update_snapshot s)) raise λ _.
      check (insert_snapshot_classes (class_rows s.id cs)) raise
        λ _. insert_snapshot_nfts (nft_rows s.id ns)

  -- `Execute` after its guard
  unfoldable pub take_snapshot : Text → LikeNftAssetSnapshot → Action (Unit {0})
  take_snapshot address s =
      let taken = record s { status = SnapshotStatus.in_progress } in
      check (db_call env.fault (update_snapshot taken)) raise λ _.
        check (outside env.latest_block rpc_error) (snapshot_failed s.id) λ block.
          check (outside (env.classes_by_owner address) rpc_error) (snapshot_failed s.id) λ cs.
            check (outside (env.nfts_by_owner address) rpc_error) (snapshot_failed s.id) λ ns.
              let done = record taken {
                block_height = some block.height;
                block_time = some block.time;
                status = SnapshotStatus.completed;
              } in
              check (with_db_tx (store_snapshot done cs ns)) (snapshot_failed s.id) λ _. pure tt

  unfoldable pub execute_by : SnapshotStatus → Text → LikeNftAssetSnapshot → Action (Unit {0})
  execute_by SnapshotStatus.init address s = take_snapshot address s
  execute_by _ address s = raise snapshot_not_init

  -- `Execute`
  unfoldable pub execute : Text → Action (Unit {0})
  execute address =
      check (db_call env.fault (query_latest_snapshot address)) raise
        λ s. execute_by s.status address s

  abbrev pub new_snapshot : Text → LikeNftAssetSnapshot
  new_snapshot address = record {
    id = 0;
    cosmos_address = address;
    block_height = none;
    block_time = none;
    status = SnapshotStatus.init;
    failed_reason = none;
  }

  abbrev pub has_ended : SnapshotStatus → Bool
  has_ended SnapshotStatus.completed = true
  has_ended SnapshotStatus.failed = true
  has_ended _ = false

  abbrev pub is_no_rows : Error → Bool
  is_no_rows no_rows = true
  is_no_rows _ = false

  -- `CreateMigrationPreviewHandler.handle`
  unfoldable pub create_preview : Text → Action LikeNftAssetSnapshot
  create_preview address =
      let insert = db_call env.fault (insert_snapshot (new_snapshot address)) in
      check (db_call env.fault (query_latest_snapshot address))
        (λ e. if is_no_rows e then insert else raise e)
        λ latest. if has_ended latest.status then insert else raise snapshot_in_progress
