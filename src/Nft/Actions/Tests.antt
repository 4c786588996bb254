-- ===== src/Nft/Actions/Tests.antt =====
-- A class and a numbered token on a small chain. (migration-backend/pkg/logic/likenft)
use likecoin_op.Base.{◌+◌, ◌≡◌, refl, false, none, some, List, [], ◌∷◌, ◌++◌, ◌==◌, inl, arith}
use likecoin_op.Exec.{exec, ok}
use likecoin_op.Nft.Model
use likecoin_op.Nft.Model.{
  AssetStatus, MigrationStatus, query_migration, query_classes, query_nfts, update_migration,
}
use likecoin_op.Nft.Enqueue.{update_class, update_nft}
use likecoin_op.Nft.Amount.{get_desire_batch_mint_amount, pos}
use likecoin_op.Nft.Status.{scan, determine_migration_status, recalculate_migration_status}
use likecoin_op.Nft.Actions.Model.{
  ActionStatus, LikeNftMigrationActionNewClass, LikeNftMigrationActionTransferClass,
  LikeNftMigrationActionMintNft, Request, transfer_from, State, query_new_class, insert_new_class,
  update_new_class, query_transfer_class, insert_transfer_class, update_transfer_class,
  query_mint_nft, insert_mint_nft, update_mint_nft,
}
use likecoin_op.Ethereum.{
  TxStatus, answered, create_evm_transaction_request, poll_tx, await_tx, send,
}
use likecoin_op.Nft.Actions.Calls.{Env, Class, get_class_id}
use likecoin_op.Nft.Actions.NewClass.{
  Initial, get_or_create_new_class, new_class_failed, deploy, prepare, begin_new_class,
  new_class_by, do_new_class,
}
use likecoin_op.Nft.Actions.TransferClass.{
  get_or_create_transfer_class, transfer_class_failed, begin_transfer_class, transfer_class_by,
  do_transfer_class,
}
use likecoin_op.Nft.Actions.MintNft.{
  get_or_create_mint_nft, mint_nft_failed, describe, describe_alone, mint_alone, make_batch,
  mint_batch, mint_numbered, mint, begin_mint_nft, mint_nft_by, do_mint_nft,
}
use likecoin_op.Nft.Actions.MintNft.Numbered.{ReachesToken, mint_numbered-ReachesToken}
use likecoin_op.Nft.Actions.Migrate.{
  query_class_by_id, query_nft_by_id, deferred, migrate_class, migrate_nft, recalculate,
  migrate_class_failed, migrate_nft_failed, run_class, run_nft, migrate_class_from_asset_migration,
  migrate_nft_from_asset_migration,
}
use likecoin_op.Nft.Actions.Sound.{row_of, announced, deployed}
use likecoin_op.Nft.Actions.Service.{
  Job, class_task, perform, run, fresh, announced_once, completed_stays,
}
use likecoin_op.Nft.Actions.Completes.{Works, poll_tx-mined}
use likecoin_op.Nft.Actions.Completes.Migrated.{Migrated, migrate_class_completes}

-- Named on an `unfolding` line, it opens the whole service.
unfoldable running : Unit {0}
unfolding exec query_migration query_classes query_nfts update_migration update_class update_nft
    get_desire_batch_mint_amount scan determine_migration_status recalculate_migration_status
    query_new_class insert_new_class update_new_class query_transfer_class insert_transfer_class
    update_transfer_class query_mint_nft insert_mint_nft update_mint_nft
    create_evm_transaction_request poll_tx await_tx send get_class_id get_or_create_new_class
    new_class_failed deploy prepare begin_new_class new_class_by do_new_class
    get_or_create_transfer_class transfer_class_failed begin_transfer_class transfer_class_by
    do_transfer_class get_or_create_mint_nft mint_nft_failed describe describe_alone mint_alone
    make_batch mint_batch mint_numbered mint begin_mint_nft mint_nft_by do_mint_nft
    query_class_by_id query_nft_by_id deferred migrate_class migrate_nft recalculate
    migrate_class_failed migrate_nft_failed run_class run_nft migrate_class_from_asset_migration
    migrate_nft_from_asset_migration perform run
running = tt

abbrev class_31 : Class
class_31 = record {
  id = 31;
  name = 32;
  symbol = 33;
  content = some (record { iscn_id_prefix = 34; iscn_version_at_mint = 35; max_supply = none });
}

-- Everything answers, a transaction is mined at the first look, and the supply is one token.
abbrev env : Env
env = record {
  fault = λ t. false;
  now = λ t. 1000 + t;
  chain = record {
    patience = 3;
    create_request = λ r t. answered (some 1);
    get_transaction_hash = λ id t.
        some (record { tx_hash = some 90; status = some TxStatus.mined; failed_reason = none });
    transaction_receipt = λ hash t. some (record { tx_hash = hash; logs = 70 ∷ 71 ∷ [] });
    transaction_by_hash = λ hash t. some hash;
  };
  total_supply = λ class t. some 1;
  query_class = λ id t. some class_31;
  query_iscn = λ p v t. some 36;
  query_royalty = λ id t. some 37;
  query_nft = λ c id t. some (some (record { class_id = c; id = id }));
  query_nfts_of_class = λ c t. some (record { class_id = c; id = 202 } ∷ []);
  query_external_metadata = λ n t. some 38;
  query_nft_events = λ c id t. some [];
  parse_new_book_nft = λ log. some 500;
  hex_to_address = λ t. t;
  parse_uint = λ t. some 2;
  class_metadata = λ c i r. some 39;
  nft_metadata = λ n c i o. some 40;
  make_memo = λ es. 41;
  empty_memo = 0;
  empty_metadata = 42;
  number_of = λ id. some id;
  has_number = λ n id. id == 200 + n;
}

abbrev assets : Model.Tables
assets = record {
  migrations =
      record {
        id = 1;
        likenft_asset_snapshot_id = 1;
        cosmos_address = 5;
        eth_address = 8;
        status = MigrationStatus.in_progress;
        failed_reason = none;
      }
      ∷ [];
  classes =
      record {
        id = 1;
        likenft_asset_migration_id = 1;
        cosmos_class_id = 31;
        status = AssetStatus.init;
        enqueue_time = none;
        finish_time = none;
        evm_tx_hash = none;
        failed_reason = none;
      }
      ∷ [];
  nfts = [];
}

abbrev initial : Initial
initial = record { owner = 10; minter = 11; updater = 12 }

-- The first task loses its last update, and the second one takes the action up again.
abbrev broken_env : Env
broken_env = record env { fault = λ t. t == 13 }

abbrev jobs : List Job
jobs = class_task broken_env initial 1 ∷ class_task env initial 1 ∷ []

abbrev later : List Job
later = class_task env initial 1 ∷ []

announced_once_example :
    announced 31 (run jobs (fresh assets)).net
    ≡ deployed (row_of 31 (run jobs (fresh assets)).db.new_classes)
announced_once_example = announced_once assets jobs 31

announced_class : announced 31 (run jobs (fresh assets)).net ≡ 500 ∷ []
unfolding running
announced_class = refl

abbrev action_1 : LikeNftMigrationActionNewClass
action_1 = record {
  id = 1;
  cosmos_class_id = 31;
  initial_owner = 10;
  initial_minter = 11;
  initial_updater = 12;
  status = ActionStatus.completed;
  evm_class_id = some 500;
  evm_tx_hash = some 90;
  failed_reason = none;
}

completed_stays_example :
    (row_of 31 (run later (run later (fresh assets))).db.new_classes ≡ some action_1)
    × (announced 31 (run later (run later (fresh assets))).net
        ≡ announced 31 (run later (fresh assets)).net)
unfolding running
completed_stays_example = completed_stays assets later later 31 {a = action_1} refl refl

env-Works : Works env
env-Works = record {
  up = λ t. refl;
  asked = λ r t. (1, refl);
  mines = λ id t. (0, 90, omega arith, refl);
  receipts = λ hash t. (_, refl, (500, refl));
  hashes = λ hash t. (hash, refl);
  classes = λ id t. (class_31, _, refl, refl, (_, refl));
  iscns = λ p v t. (36, refl);
  royalties = λ id t. (37, refl);
  metadata = λ c i r. (39, refl);
}

migrate_class_completes_example :
    (t : LikeNftMigrationActionTransferClass) × (v : State) × (migrate_class env 31 initial 5 8
        (fresh assets)
      ≡ (ok t, v))
    × Migrated env 31 5 8 (fresh assets) v t
migrate_class_completes_example =
    migrate_class_completes env env-Works 31 initial 5 8 (fresh assets) (inl refl) refl

poll_tx-mined_example :
    poll_tx env.chain 3 1 (fresh assets) ≡ (ok 90, record (fresh assets) { tick = 1 })
poll_tx-mined_example = poll_tx-mined env 3 1 0 90 (fresh assets) (omega arith) refl

abbrev token : LikeNftMigrationActionMintNft
token = record {
  id = 1;
  evm_class_id = 500;
  cosmos_nft_id = 202;
  initial_batch_mint_owner = 10;
  evm_owner = 8;
  status = ActionStatus.init;
  evm_tx_hash = none;
  failed_reason = none;
}

abbrev minted : State
minted = (mint_numbered env token class_31 36 31 1 2 (fresh assets)).1

mint_numbered-ReachesToken_example :
    (sent : List Request) × (minted.net
      ≡ transfer_from 500 10 8 (pos 2) ∷ sent ++ (fresh assets).net)
    × ReachesToken 500 10 1 2 sent
unfolding running
mint_numbered-ReachesToken_example =
    mint_numbered-ReachesToken env token class_31 36 31 1 2 (fresh assets) minted {hash = 90}
      (omega arith) refl
