-- ===== src/Nft/Actions/Service.antt =====
-- Runs of the worker: migrating classes and tokens, one task after the other.
-- (migration-backend/pkg/logic/likenft/migrate_class.go, migrate_nft.go)
use likecoin_op.Base.{
  ℕ, ◌≡◌, refl, sym, ap, ◌∙◌, true, inl, inr, Bool-cases, some, List, [], ◌∷◌, Text,
}
use likecoin_op.Exec.{Error, Result, check, raise, halt, db_call, nil_dereference}
use likecoin_op.Exec.Frame.{Keeps, Keeps-check, Keeps-raise, Keeps-pure}
use likecoin_op.Ethereum.{given}
use likecoin_op.Nft.Model
use likecoin_op.Nft.Model.{
  LikeNftAssetMigration, LikeNftAssetMigrationClass, LikeNftAssetMigrationNft, query_migration,
}
use likecoin_op.Nft.Enqueue.{update_class, update_nft}
use likecoin_op.Nft.Actions.Model.{LikeNftMigrationActionNewClass, Action, State, on_assets}
use likecoin_op.Nft.Actions.Calls.{Env}
use likecoin_op.Nft.Actions.NewClass.{Initial}
use likecoin_op.Nft.Actions.NewClass.Runs.{then-Advances}
use likecoin_op.Nft.Actions.TransferClass.{get_or_create_transfer_class, do_transfer_class}
use likecoin_op.Nft.Actions.MintNft.{get_or_create_mint_nft, do_mint_nft}
use likecoin_op.Nft.Actions.Migrate.{
  query_class_by_id, query_nft_by_id, is_crash, deferred, migrate_class, migrate_nft, recalculate,
  migrate_class_failed, migrate_nft_failed, run_class, run_nft, begun_class, begun_nft,
  migrate_class_from_asset_migration, migrate_nft_from_asset_migration,
}
use likecoin_op.Nft.Actions.Sound.{row_of, announced, deployed, is_completed}
use likecoin_op.Nft.Actions.Advances.{SoundAt, Advances, advances, Untouched, Untouched-Keeps}
use likecoin_op.Nft.Actions.Others.{
  quiet_rules, statement-Untouched, stored-Untouched, get_or_create_transfer-Untouched,
  do_transfer-Untouched, get_or_create_mint-Untouched, do_mint-Untouched,
}

-- The tasks of the worker, each with what its calls meet outside.
pub data Job : Type 0 where
  class_task : Env → Initial → ℕ → Job
  nft_task : Env → Initial → Text → ℕ → Job

unfoldable pub perform : Job → State → State
perform (class_task env initial id) w = (migrate_class_from_asset_migration env initial id w).1
perform (nft_task env initial minter id) w =
    (migrate_nft_from_asset_migration env initial minter id w).1

unfoldable pub run : List Job → State → State
run [] w = w
run (job ∷ jobs) w = run jobs (perform job w)

Keeps-deferred :
    {A : Type 0} (d : Action (Unit {0})) (m : Action A)
    → Keeps Advances d
    → Keeps Advances m
    → Keeps Advances (deferred d m)
unfolding deferred
Keeps-deferred d m kd km = record {
  at = λ w. elim (Bool-cases (is_crash (m w).0)) [
    | inl ended ↦ rw ended (km.at w)
    | inr goes_on ↦ rw goes_on (advances.trans w (m w).1 (d (m w).1).1 (km.at w) (kd.at (m w).1))
  ];
}

module _ (env : Env) where
  assets-Advances :
      {A : Type 0} (f : Model.Tables → Result A × Model.Tables)
      → Keeps Advances (db_call env.fault (on_assets f))
  assets-Advances f =
      Untouched-Keeps (db_call env.fault (on_assets f))
        (statement-Untouched env (on_assets f) (λ t. (refl, refl)))

  recalculate-Advances : (id : ℕ) → Keeps Advances (recalculate env id)
  unfolding recalculate
  recalculate-Advances id =
      Untouched-Keeps (recalculate env id)
        (record { at = λ w. record { rows = refl; next = refl; told = λ class. refl } })

  class_failed-Advances :
      (mc : LikeNftAssetMigrationClass) (e : Error)
      → Keeps Advances (migrate_class_failed env {A = LikeNftAssetMigrationClass} mc e)
  unfolding migrate_class_failed
  class_failed-Advances mc e =
      Untouched-Keeps (migrate_class_failed env mc e)
        (stored-Untouched env (on_assets (update_class _)) e (λ t. (refl, refl)))

  nft_failed-Advances :
      (mn : LikeNftAssetMigrationNft) (e : Error)
      → Keeps Advances (migrate_nft_failed env {A = LikeNftAssetMigrationNft} mn e)
  unfolding migrate_nft_failed
  nft_failed-Advances mn e =
      Untouched-Keeps (migrate_nft_failed env mn e)
        (stored-Untouched env (on_assets (update_nft _)) e (λ t. (refl, refl)))

  transfer_part-Untouched :
      (cosmos_owner evm_owner : Text) (a : LikeNftMigrationActionNewClass)
      → Keeps Untouched (
          given a.evm_class_id (halt nil_dereference) λ evm_class_id.
            check
              (get_or_create_transfer_class env evm_class_id cosmos_owner evm_owner)
              raise
              λ transfer. do_transfer_class env transfer)
  transfer_part-Untouched cosmos_owner evm_owner a =
      search (quiet_rules, get_or_create_transfer-Untouched, do_transfer-Untouched)

  mint_part-Untouched :
      (nft minter evm_owner : Text) (a : LikeNftMigrationActionNewClass)
      → Keeps Untouched (
          given a.evm_class_id (halt nil_dereference) λ evm_class_id.
            check
              (get_or_create_mint_nft env evm_class_id nft minter evm_owner)
              raise
              λ mint. do_mint_nft env mint)
  mint_part-Untouched nft minter evm_owner a =
      search (quiet_rules, get_or_create_mint-Untouched, do_mint-Untouched)

  migrate_class-Advances :
      (class : Text) (initial : Initial) (cosmos_owner evm_owner : Text)
      → Keeps Advances (migrate_class env class initial cosmos_owner evm_owner)
  unfolding migrate_class
  migrate_class-Advances class initial cosmos_owner evm_owner =
      then-Advances env class initial _ (transfer_part-Untouched cosmos_owner evm_owner)

  migrate_nft-Advances :
      (class nft : Text) (initial : Initial) (minter evm_owner : Text)
      → Keeps Advances (migrate_nft env class nft initial minter evm_owner)
  unfolding migrate_nft
  migrate_nft-Advances class nft initial minter evm_owner =
      then-Advances env class initial _ (mint_part-Untouched nft minter evm_owner)

  run_class-Advances :
      (mc : LikeNftAssetMigrationClass) (initial : Initial) (m : LikeNftAssetMigration)
      → Keeps Advances (run_class env mc initial m)
  unfolding run_class
  run_class-Advances mc initial m =
      Keeps-check advances
        (migrate_class env mc.cosmos_class_id initial m.cosmos_address m.eth_address)
        (migrate_class_failed env mc) _
        (migrate_class-Advances mc.cosmos_class_id initial m.cosmos_address m.eth_address)
        (class_failed-Advances mc)
        λ last. record {
          at = λ w.
              (Keeps-check advances (db_call env.fault (on_assets (update_class _))) _ _
                  (assets-Advances (update_class _)) (class_failed-Advances _)
                  (λ _. Keeps-pure advances _)).at
                w;
        }

  run_nft-Advances :
      (mn : LikeNftAssetMigrationNft) (initial : Initial) (minter : Text)
      (m : LikeNftAssetMigration)
      → Keeps Advances (run_nft env mn initial minter m)
  unfolding run_nft
  run_nft-Advances mn initial minter m =
      Keeps-check advances
        (migrate_nft env mn.cosmos_class_id mn.cosmos_nft_id initial minter m.eth_address)
        (migrate_nft_failed env mn) _
        (migrate_nft-Advances mn.cosmos_class_id mn.cosmos_nft_id initial minter m.eth_address)
        (nft_failed-Advances mn)
        λ last. record {
          at = λ w.
              (Keeps-check advances (db_call env.fault (on_assets (update_nft _))) _ _
                  (assets-Advances (update_nft _)) (nft_failed-Advances _)
                  (λ _. Keeps-pure advances _)).at
                w;
        }

  class_task-Advances :
      (initial : Initial) (id : ℕ)
      → Keeps Advances (migrate_class_from_asset_migration env initial id)
  unfolding migrate_class_from_asset_migration
  class_task-Advances initial id =
      Keeps-check advances (db_call env.fault (on_assets (query_class_by_id id))) raise _
        (assets-Advances (query_class_by_id id)) (Keeps-raise advances)
        λ row.
          Keeps-check advances (db_call env.fault (on_assets (update_class (begun_class env row))))
            raise _ (assets-Advances (update_class (begun_class env row))) (Keeps-raise advances)
            λ _.
              Keeps-check advances
                (db_call env.fault (on_assets (query_migration row.likenft_asset_migration_id)))
                (migrate_class_failed env (begun_class env row)) _
                (assets-Advances (query_migration row.likenft_asset_migration_id))
                (class_failed-Advances (begun_class env row))
                λ m.
                  Keeps-deferred (recalculate env m.id)
                    (run_class env (begun_class env row) initial m) (recalculate-Advances m.id)
                    (run_class-Advances (begun_class env row) initial m)

  nft_task-Advances :
      (initial : Initial) (minter : Text) (id : ℕ)
      → Keeps Advances (migrate_nft_from_asset_migration env initial minter id)
  unfolding migrate_nft_from_asset_migration
  nft_task-Advances initial minter id =
      Keeps-check advances (db_call env.fault (on_assets (query_nft_by_id id))) raise _
        (assets-Advances (query_nft_by_id id)) (Keeps-raise advances)
        λ row.
          Keeps-check advances (db_call env.fault (on_assets (update_nft (begun_nft env row))))
            raise _ (assets-Advances (update_nft (begun_nft env row))) (Keeps-raise advances)
            λ _.
              Keeps-check advances
                (db_call env.fault (on_assets (query_migration row.likenft_asset_migration_id)))
                (migrate_nft_failed env (begun_nft env row)) _
                (assets-Advances (query_migration row.likenft_asset_migration_id))
                (nft_failed-Advances (begun_nft env row))
                λ m.
                  Keeps-deferred (recalculate env m.id)
                    (run_nft env (begun_nft env row) initial minter m) (recalculate-Advances m.id)
                    (run_nft-Advances (begun_nft env row) initial minter m)

perform-Advances : (job : Job) (w : State) → Advances w (perform job w)
unfolding perform
perform-Advances (class_task env initial id) w = (class_task-Advances env initial id).at w
perform-Advances (nft_task env initial minter id) w = (nft_task-Advances env initial minter id).at w

run-Advances : (jobs : List Job) (w : State) → Advances w (run jobs w)
unfolding run
run-Advances [] w = advances.same w
run-Advances (job ∷ jobs) w =
    advances.trans w (perform job w) (run jobs (perform job w)) (perform-Advances job w)
      (run-Advances jobs (perform job w))

-- No actions yet, and nothing sent; the tables of the migrations hold anything.
abbrev pub fresh : Model.Tables → State
fresh assets = record {
  tick = 0;
  db = record {
    assets = assets;
    new_classes = [];
    next_new_class = 1;
    transfer_classes = [];
    next_transfer_class = 1;
    mint_nfts = [];
    next_mint_nft = 1;
  };
  net = [];
}

fresh-SoundAt : (assets : Model.Tables) → SoundAt (fresh assets)
fresh-SoundAt assets = record {
  own = λ class a e. cc;
  below = tt;
  told = λ class. refl;
  identified = λ class a e done. cc;
}

-- After any run of class and token tasks from empty action tables, whatever the database, the signing
-- service and the nodes answer: for each class of Cosmos the LikeCoin API was told of a class of the
-- new chain at most once, namely of the one that its row names, and just when its action is completed.
pub announced_once :
    (assets : Model.Tables) (jobs : List Job) (class : Text)
    → announced class (run jobs (fresh assets)).net
      ≡ deployed (row_of class (run jobs (fresh assets)).db.new_classes)
announced_once assets jobs class =
    let s = (run-Advances jobs (fresh assets)).sound (fresh-SoundAt assets) in s.told class

-- Once the action of a class is completed, every later run of tasks leaves its row as it is, and tells
-- the LikeCoin API nothing more of the class.
pub completed_stays :
    (assets : Model.Tables) (jobs later : List Job) (class : Text)
    {a : LikeNftMigrationActionNewClass}
    → row_of class (run jobs (fresh assets)).db.new_classes ≡ some a
    → is_completed a.status ≡ true
    → (row_of class (run later (run jobs (fresh assets))).db.new_classes ≡ some a)
      × (announced class (run later (run jobs (fresh assets))).net
          ≡ announced class (run jobs (fresh assets)).net)
completed_stays assets jobs later class {a} found done =
    let w = run jobs (fresh assets) in
    let s = (run-Advances jobs (fresh assets)).sound (fresh-SoundAt assets) in
    let on = run-Advances later w in
    let there = on.stays s class a found done in
    (there, (on.sound s).told class ∙ ap deployed (there ∙ sym found) ∙ sym (s.told class))
