-- ===== src/Nft/Enqueue.antt =====
-- Putting the failed assets of a migration into the queue.
-- (migration-backend/pkg/logic/likenft/enqueue_failed_likenft_asset_migration.go)
pub mod Steps
pub mod Outcome
use likecoin_op.Base.{ℕ, suc, Bool, Option, none, some, List, [], ◌∷◌, ◌++◌, ◌==◌, replace}
use likecoin_op.Exec.{
  Error, Result, ok, err, stop, nil_dereference, join_opt, Exec, World, pure, raise, halt, check,
  error_of, db_call, begin_tx, commit, rollback, ◌>>=◌,
}
use likecoin_op.Nft.Model.{
  MigrationStatus, LikeNftAssetMigration, LikeNftAssetMigrationClass, LikeNftAssetMigrationNft,
  Tables, query_migration, update_migration,
}
use likecoin_op.Nft.Retry.{query_failed_classes, query_failed_nfts}

-- The tasks of `pkg/task`, whose payload is an id: to marshal it does not fail.
pub data Task : Type 0 where
  migrate_class migrate_nft : ℕ → Task

-- The tasks in the queue, the last one first.
abbrev pub Queued : Type 0 → Type 0
Queued A = Exec Tables (List Task) A

abbrev pub State : Type 0
State = World Tables (List Task)

-- `UpdateLikeNFTAssetMigrationClass`
unfoldable pub update_class : LikeNftAssetMigrationClass → Tables → Result (Unit {0}) × Tables
update_class c t = (
  ok tt,
  record t {
    classes = replace (λ (d : LikeNftAssetMigrationClass). d.id == c.id) (λ _. c) t.classes;
  },
)

-- `UpdateLikeNFTAssetMigrationNFT`
unfoldable pub update_nft : LikeNftAssetMigrationNft → Tables → Result (Unit {0}) × Tables
update_nft n t = (
  ok tt,
  record t { nfts = replace (λ (m : LikeNftAssetMigrationNft). m.id == n.id) (λ _. n) t.nfts },
)

-- The database, the clock, and the queue, which answers by the number of the call.
pub record Env : Type 0 where
  pub fault : ℕ → Bool
  pub now : ℕ → ℕ
  pub answer : ℕ → Option (Unit {0})

module _ (env : Env) where
  abbrev pub at_time : {A : Type 0} → (ℕ → Queued A) → Queued A
  at_time k w = k (env.now w.tick) w

  -- `enqueueFailedLikeNFTAssetMigrationFailed`
  unfoldable pub enqueue_failed_failed : LikeNftAssetMigration → Error → Queued (Unit {0})
  enqueue_failed_failed m e =
      error_of (
        db_call env.fault
          (update_migration (record m { status = MigrationStatus.failed; failed_reason = some e })))
      >>= λ failure. raise (join_opt e failure)

  -- The two loops of `EnqueueFailedLikeNFTAssetMigration` over the failed assets, and their tasks.
  unfoldable pub mark_classes : List LikeNftAssetMigrationClass → Queued (List Task)
  mark_classes [] = pure []
  mark_classes (c ∷ cs) =
      let others = mark_classes cs in
      at_time λ now.
        check (db_call env.fault (update_class (record c { enqueue_time = some now }))) raise
          λ _. check others raise λ tasks. pure (migrate_class c.id ∷ tasks)

  unfoldable pub mark_nfts : List LikeNftAssetMigrationNft → Queued (List Task)
  mark_nfts [] = pure []
  mark_nfts (n ∷ ns) =
      let others = mark_nfts ns in
      at_time λ now.
        check (db_call env.fault (update_nft (record n { enqueue_time = some now }))) raise
          λ _. check others raise λ tasks. pure (migrate_nft n.id ∷ tasks)

  -- The part of the transaction whose errors all end in one way.
  unfoldable pub mark_failed : ℕ → Queued (List Task)
  mark_failed id = check (db_call env.fault (query_failed_classes id)) raise λ cs.
      check (db_call env.fault (query_failed_nfts id)) raise λ ns.
        check (mark_classes cs) raise
          λ class_tasks. check (mark_nfts ns) raise λ nft_tasks. pure (class_tasks ++ nft_tasks)

  -- The loop over the tasks: after a refusal the line of the log reads the nil answer.
  unfoldable pub enqueue_tasks : List Task → Queued (Unit {0})
  enqueue_tasks [] w = (ok tt, w)
  enqueue_tasks (task ∷ tasks) w =
      let others = enqueue_tasks tasks (record w { tick = suc w.tick; net = task ∷ w.net }) in
      elim (env.answer w.tick) [
        | none ↦ (stop nil_dereference, record w { tick = suc w.tick })
        | some _ ↦ others
      ]

  abbrev pub abandon : Tables → LikeNftAssetMigration → Error → Queued (Unit {0})
  abandon before m e = error_of (rollback env.fault before) >>= λ failure.
      enqueue_failed_failed m (join_opt e failure)

  -- `EnqueueFailedLikeNFTAssetMigration`
  unfoldable pub enqueue_failed_likenft_asset_migration : ℕ → Queued (Unit {0})
  enqueue_failed_likenft_asset_migration id = check (begin_tx env.fault) raise λ before.
      check (db_call env.fault (query_migration id))
        (λ e. error_of (rollback env.fault before) >>= λ failure. raise (join_opt e failure))
        λ m.
          check (mark_failed id) (abandon before m)
            λ tasks. check (commit env.fault before) (abandon before m) λ _. enqueue_tasks tasks
