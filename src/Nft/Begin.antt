-- ===== src/Nft/Begin.antt =====
-- Putting all assets of a new migration into the queue.
-- (migration-backend/pkg/logic/likenft/enqueue_likenft_asset_migration.go)
pub mod Marked
use likecoin_op.Base.{ℕ, suc, Option, none, some, List, [], ◌∷◌}
use likecoin_op.Exec.{
  Result, ok, err, rpc_error, pure, raise, check, error_of, db_call, begin_tx, commit, rollback,
  ◌>>=◌, ◌>>◌,
}
use likecoin_op.Nft.Model.{
  LikeNftAssetMigrationClass, LikeNftAssetMigrationNft, Tables, query_classes, query_nfts,
}
use likecoin_op.Nft.Enqueue.{
  Task, migrate_class, migrate_nft, Queued, update_class, update_nft, Env, at_time,
}

module _ (env : Env) where
  -- `Client.Enqueue`
  unfoldable pub enqueue_task : Task → Queued (Unit {0})
  enqueue_task task w = elim (env.answer w.tick) [
    | none ↦ (err rpc_error, record w { tick = suc w.tick })
    | some _ ↦ (ok tt, record w { tick = suc w.tick; net = task ∷ w.net })
  ]

  -- `_ = tx.Rollback()` and `continue`
  abbrev pub skip : Tables → Queued (Unit {0})
  skip before = error_of (rollback env.fault before) >> pure tt

  -- The body of both loops: every error ends it, and none ends the loop.
  unfoldable pub enqueue_one : Task → (ℕ → Tables → Result (Unit {0}) × Tables) → Queued (Unit {0})
  enqueue_one task update =
      check (begin_tx env.fault) (λ _. pure tt)
        λ before. at_time env λ now.
          check (db_call env.fault (update now)) (λ _. skip before)
            λ _.
              check (enqueue_task task) (λ _. skip before)
                λ _. error_of (commit env.fault before) >> pure tt

  abbrev pub timed_class : LikeNftAssetMigrationClass → ℕ → Tables → Result (Unit {0}) × Tables
  timed_class c now = update_class (record c { enqueue_time = some now })

  abbrev pub timed_nft : LikeNftAssetMigrationNft → ℕ → Tables → Result (Unit {0}) × Tables
  timed_nft n now = update_nft (record n { enqueue_time = some now })

  unfoldable pub enqueue_classes : List LikeNftAssetMigrationClass → Queued (Unit {0})
  enqueue_classes [] = pure tt
  enqueue_classes (c ∷ cs) = enqueue_one (migrate_class c.id) (timed_class c) >> enqueue_classes cs

  unfoldable pub enqueue_nfts : List LikeNftAssetMigrationNft → Queued (Unit {0})
  enqueue_nfts [] = pure tt
  enqueue_nfts (n ∷ ns) = enqueue_one (migrate_nft n.id) (timed_nft n) >> enqueue_nfts ns

  -- `EnqueueLikeNFTAssetMigration`
  unfoldable pub enqueue_likenft_asset_migration : ℕ → Queued (Unit {0})
  enqueue_likenft_asset_migration id = check (db_call env.fault (query_classes id)) raise λ cs.
      check (db_call env.fault (query_nfts id)) raise λ ns. enqueue_classes cs >> enqueue_nfts ns
