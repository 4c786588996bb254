-- ===== src/Nft/Tests.antt =====
-- A migration of two tokens that has failed and is retried.
-- (migration-backend/pkg/logic/likenft, migration-backend/pkg/handler/likenft)
use likecoin_op.Base.{
  if◌then◌else◌, ℕ, ◌+◌, ◌*◌, ◌≡◌, refl, max, Bool, true, false, ◌==◌, none, some, List, [], ◌∷◌,
  arith, Text,
}
use likecoin_op.Exec.{exec, World, ok, db_error}
use likecoin_op.Nft.Model.{
  AssetStatus, MigrationStatus, LikeNftAssetMigration, LikeNftAssetMigrationClass,
  LikeNftAssetMigrationNft, Tables, State, classes_of, nfts_of, query_migration, query_migration_of,
  query_classes, query_nfts, update_migration,
}
use likecoin_op.Nft.Status.{
  scan, determine_migration_status, recalculate_migration_status, Means, asset_statuses,
  determine-Means, row, recalculate_stores,
}
use likecoin_op.Nft.Amount.{pos, get_desire_batch_mint_amount, mint_reaches}
use likecoin_op.Nft.Retry.{
  RetryRequest, failed_classes, failed_nfts, class_keys, nft_keys, requested_keys, check_assets,
  handle_retry,
}
use likecoin_op.Nft.Enqueue.{
  Task, migrate_nft, Env, update_class, update_nft, enqueue_failed_failed, mark_classes, mark_nfts,
  mark_failed, enqueue_tasks, enqueue_failed_likenft_asset_migration,
}
use likecoin_op.Nft.Begin.{
  enqueue_task, enqueue_one, enqueue_classes, enqueue_nfts, enqueue_likenft_asset_migration,
}
use likecoin_op.Nft.Begin.Marked.{Marks, enqueue_migration-Marks}
use likecoin_op.Nft.Enqueue.Steps.{failed_tasks, onto}
use likecoin_op.Nft.Enqueue.Outcome.{enqueue_failed_queues, enqueue_failed_atomic}
use likecoin_op.Nft.Retry.Accepted.{SameNames, check_assets_iff, retry_accepted}

-- Named on an `unfolding` line, it opens the whole service.
unfoldable running : Unit {0}
unfolding exec query_migration query_migration_of query_classes query_nfts update_migration scan
    determine_migration_status recalculate_migration_status get_desire_batch_mint_amount
    check_assets handle_retry update_class update_nft enqueue_failed_failed mark_classes mark_nfts
    mark_failed enqueue_tasks enqueue_failed_likenft_asset_migration enqueue_task enqueue_one
    enqueue_classes enqueue_nfts enqueue_likenft_asset_migration
running = tt

abbrev class_1 : LikeNftAssetMigrationClass
class_1 = record {
  id = 1;
  likenft_asset_migration_id = 1;
  cosmos_class_id = 10;
  status = AssetStatus.completed;
  enqueue_time = none;
  finish_time = none;
  evm_tx_hash = none;
  failed_reason = none;
}

abbrev nft_1 : LikeNftAssetMigrationNft
nft_1 = record {
  id = 1;
  likenft_asset_migration_id = 1;
  cosmos_class_id = 10;
  cosmos_nft_id = 11;
  status = AssetStatus.failed;
  enqueue_time = none;
  finish_time = none;
  evm_tx_hash = none;
  failed_reason = none;
}

abbrev nft_2 : LikeNftAssetMigrationNft
nft_2 = record nft_1 { id = 2; cosmos_nft_id = 12; status = AssetStatus.completed }

abbrev classes : List LikeNftAssetMigrationClass
classes = class_1 ∷ []

abbrev nfts : List LikeNftAssetMigrationNft
nfts = nft_1 ∷ nft_2 ∷ []

abbrev migration_1 : LikeNftAssetMigration
migration_1 = record {
  id = 1;
  likenft_asset_snapshot_id = 1;
  cosmos_address = 5;
  eth_address = 8;
  status = MigrationStatus.in_progress;
  failed_reason = none;
}

abbrev start : State
start = record {
  tick = 0;
  db = record { migrations = migration_1 ∷ []; classes = classes; nfts = nfts };
  net = [];
}

abbrev no_fault : ℕ → Bool
no_fault t = false

determine-Means_example :
    Means (determine_migration_status classes nfts) (asset_statuses classes nfts)
determine-Means_example = determine-Means classes nfts

abbrev recalculated : State
recalculated = (recalculate_migration_status no_fault 1 start).1

abbrev failed_1 : LikeNftAssetMigration
failed_1 = record migration_1 { status = MigrationStatus.failed }

recalculate_stores_example :
    (status : MigrationStatus) × (determine_migration_status
        (classes_of 1 start.db)
        (nfts_of 1 start.db)
      ≡ ok status)
    × (row 1 recalculated.db ≡ some (record migration_1 { status = status }))
    × (recalculated.db.classes ≡ start.db.classes)
    × (recalculated.db.nfts ≡ start.db.nfts)
    × (recalculated.net ≡ start.net)
unfolding running
recalculate_stores_example =
    recalculate_stores no_fault 1 start recalculated {m = migration_1} refl refl

mint_reaches_example :
    (n : ℕ) × (get_desire_batch_mint_amount 3 7 ≡ pos n) × (3 + n ≡ max 3 (7 + 1))
mint_reaches_example = mint_reaches 3 7 (omega arith)

abbrev prefixed : Text → Text → Text
prefixed c n = c * 1000 + n

abbrev request : RetryRequest
request = record {
  book_nft_collection = [];
  book_nft = record { class_id = 10; nft_id = 11 } ∷ record { class_id = 10; nft_id = 11 } ∷ [];
}

check_assets_iff_example :
    (check_assets prefixed request classes nfts ≡ true
      → SameNames request.book_nft_collection (class_keys prefixed classes)
        × SameNames (requested_keys prefixed request.book_nft) (nft_keys prefixed nfts))
    × (SameNames request.book_nft_collection (class_keys prefixed classes)
        → SameNames (requested_keys prefixed request.book_nft) (nft_keys prefixed nfts)
        → check_assets prefixed request classes nfts ≡ true)
check_assets_iff_example = check_assets_iff prefixed request classes nfts

abbrev retried : State
retried = (handle_retry prefixed no_fault 5 request recalculated).1

retry_accepted_example :
    (failed_1.status ≡ MigrationStatus.failed)
    × (check_assets prefixed request
          (failed_classes (classes_of failed_1.id recalculated.db))
          (failed_nfts (nfts_of failed_1.id recalculated.db))
        ≡ true)
    × (migration_1 ≡ record failed_1 { status = MigrationStatus.in_progress })
    × (row failed_1.id retried.db ≡ some migration_1)
    × (retried.db.classes ≡ recalculated.db.classes)
    × (retried.db.nfts ≡ recalculated.db.nfts)
unfolding running
retry_accepted_example =
    retry_accepted prefixed no_fault 5 request recalculated retried {m = migration_1}
      {found = failed_1} refl refl

-- A request that leaves the failed token out.
abbrev short_request : RetryRequest
short_request = record { book_nft_collection = []; book_nft = [] }

abbrev refused : State
refused = (handle_retry prefixed no_fault 5 short_request recalculated).1

-- The queue takes every task; the database fails in the call of the number `broken`.
abbrev queue_env : ℕ → Env
queue_env broken = record { fault = λ t. t == broken; now = λ t. 1000 + t; answer = λ t. some tt }

abbrev queue_start : World Tables (List Task)
queue_start = record { tick = 0; db = recalculated.db; net = [] }

abbrev queued : World Tables (List Task)
queued = (enqueue_failed_likenft_asset_migration (queue_env 99) 1 queue_start).1

queued_task : queued.net ≡ migrate_nft 1 ∷ []
unfolding running
queued_task = refl

enqueue_failed_queues_example : queued.net ≡ onto (failed_tasks 1 queue_start.db) queue_start.net
unfolding running
enqueue_failed_queues_example = enqueue_failed_queues (queue_env 99) 1 queue_start queued refl

-- The commit fails.
abbrev not_queued : World Tables (List Task)
not_queued = (enqueue_failed_likenft_asset_migration (queue_env 5) 1 queue_start).1

enqueue_failed_atomic_example :
    (not_queued.db.classes ≡ queue_start.db.classes)
    × (not_queued.db.nfts ≡ queue_start.db.nfts)
    × (not_queued.net ≡ queue_start.net)
unfolding running
enqueue_failed_atomic_example =
    enqueue_failed_atomic (queue_env 5) 1 queue_start not_queued {e = db_error} refl

-- The queue refuses the first task: the class keeps its row, and the tokens are marked.
abbrev refusing_env : Env
refusing_env = record {
  fault = λ t. false;
  now = λ t. 1000 + t;
  answer = λ t. if t == 4 then none else some tt;
}

abbrev begun_state : World Tables (List Task)
begun_state = (enqueue_likenft_asset_migration refusing_env 1 queue_start).1

begun_rows :
    (begun_state.net ≡ migrate_nft 2 ∷ migrate_nft 1 ∷ [])
    × (begun_state.db.classes ≡ queue_start.db.classes)
unfolding running
begun_rows = (refl, refl)

enqueue_migration-Marks_example : Marks queue_start begun_state
enqueue_migration-Marks_example = enqueue_migration-Marks refusing_env 1 queue_start
