-- ===== src/Nft/Actions/NewClass.antt =====
-- Bringing a class to the new chain.
-- (migration-backend/pkg/logic/likenft/do_new_class_action.go, get_or_create_new_class_action.go)
pub mod Announce
pub mod Runs
use likecoin_op.Base.{
  ℕ, ◌-◌, ◌^◌, Bool, true, false, Option, none, some, List, [], ◌∷◌, ◌==◌, if◌then◌else◌, Text,
}
use likecoin_op.Exec.{
  Error, Result, ok, err, no_rows, not_init_or_failed, bad_number, nil_dereference, rpc_error,
  join_opt, pure, raise, halt, check, error_of, db_call, outside, ◌>>=◌,
}
use likecoin_op.Coin.Create.{is_no_rows}
use likecoin_op.Nft.Actions.Model.{
  ActionStatus, LikeNftMigrationActionNewClass, MsgNewBookNft, submit_evm_book_migrated, Action,
  query_new_class, insert_new_class, update_new_class,
}
use likecoin_op.Ethereum.{Receipt, given}
use likecoin_op.Nft.Actions.Calls.{Class, ClassData, Env, new_book, get_class_id, make_metadata}

-- The owner, the minter and the updater that a new class begins with.
pub record Initial : Type 0 where
  pub owner : Text
  pub minter : Text
  pub updater : Text

abbrev pub initial_new_class : Text → Initial → LikeNftMigrationActionNewClass
initial_new_class cosmos_class_id initial = record {
  id = 0;
  cosmos_class_id = cosmos_class_id;
  initial_owner = initial.owner;
  initial_minter = initial.minter;
  initial_updater = initial.updater;
  status = ActionStatus.init;
  evm_class_id = none;
  evm_tx_hash = none;
  failed_reason = none;
}

abbrev pub lift : {A : Type 0} → Result A → Action A
lift r w = (r, w)

-- `^uint64(0)`
abbrev pub no_limit : ℕ
no_limit = 2 ^ 64 - 1

abbrev pub limited : ℕ → ℕ
limited n = if n == 0 then no_limit else n

module _ (env : Env) where
  -- `GetOrCreateNewClassAction`
  unfoldable pub get_or_create_new_class : Text → Initial → Action LikeNftMigrationActionNewClass
  get_or_create_new_class cosmos_class_id initial =
      check (db_call env.fault (query_new_class (some cosmos_class_id) none))
        (λ e.
          if is_no_rows e
          then (db_call env.fault (insert_new_class (initial_new_class cosmos_class_id initial)))
          else raise e)
        pure

  -- `doNewClassActionFailed`
  unfoldable pub new_class_failed : {A : Type 0} → LikeNftMigrationActionNewClass → Error → Action A
  new_class_failed a e =
      error_of (
        db_call env.fault
          (update_new_class (record a { status = ActionStatus.failed; failed_reason = some e })))
      >>= λ failure. raise (join_opt e failure)

  abbrev pub parsed_supply : Option ℕ → Result ℕ
  parsed_supply none = err bad_number
  parsed_supply (some n) = ok (limited n)

  -- The maximal supply of a class.
  abbrev pub max_supply : Option Text → Result ℕ
  max_supply none = ok no_limit
  max_supply (some text) = parsed_supply (env.parse_uint text)

  abbrev pub message : LikeNftMigrationActionNewClass → Class → Text → ℕ → MsgNewBookNft
  message a class metadata supply = record {
    creator = env.hex_to_address a.initial_owner;
    updater = env.hex_to_address a.initial_updater;
    minter = env.hex_to_address a.initial_minter;
    name = class.name;
    symbol = class.symbol;
    metadata = metadata;
    max_supply = supply;
  }

  abbrev pub completed_new_class :
      LikeNftMigrationActionNewClass → Text → Text → LikeNftMigrationActionNewClass
  completed_new_class a evm_class_id hash = record a {
    status = ActionStatus.completed;
    evm_class_id = some evm_class_id;
    evm_tx_hash = some hash;
  }

  abbrev pub start_submission : Text → Text → Action (Unit {0})
  start_submission cosmos_class_id evm_class_id w =
      (ok tt, record w { net = submit_evm_book_migrated cosmos_class_id evm_class_id ∷ w.net })

  -- `DoNewClassAction` from the call of the new chain on.
  unfoldable pub deploy :
      LikeNftMigrationActionNewClass → Class → Text → ℕ → Action LikeNftMigrationActionNewClass
  deploy a class metadata supply =
      check (new_book env (message a class metadata supply)) (new_class_failed a) λ (hash, receipt).
        check (get_class_id env receipt) (new_class_failed a) λ evm_class_id.
          let b = completed_new_class a evm_class_id hash in
          check (db_call env.fault (update_new_class b)) (new_class_failed b)
            λ _. start_submission b.cosmos_class_id evm_class_id >>= λ _. pure b

  -- `DoNewClassAction` from the query of the class on: what the class is made of.
  unfoldable pub prepare : LikeNftMigrationActionNewClass → Action LikeNftMigrationActionNewClass
  prepare a =
      check (outside (env.query_class a.cosmos_class_id) rpc_error) (new_class_failed a) λ class.
        given class.content (halt nil_dereference) λ content.
          check
            (outside (env.query_iscn content.iscn_id_prefix content.iscn_version_at_mint) rpc_error)
            (new_class_failed a)
            λ iscn.
              check (outside (env.query_royalty class.id) rpc_error) (new_class_failed a) λ royalty.
                check (lift (max_supply content.max_supply)) (new_class_failed a) λ supply.
                  check (lift (make_metadata env (env.class_metadata class iscn royalty)))
                    (new_class_failed a) λ metadata. deploy a class metadata supply

  abbrev pub begun_new_class : LikeNftMigrationActionNewClass → LikeNftMigrationActionNewClass
  begun_new_class a = record a { status = ActionStatus.in_progress }

  unfoldable pub begin_new_class :
      LikeNftMigrationActionNewClass → Action LikeNftMigrationActionNewClass
  begin_new_class a =
      check (db_call env.fault (update_new_class (begun_new_class a))) raise
        λ _. prepare (begun_new_class a)

  -- The tests of `DoNewClassAction` on the status.
  unfoldable pub new_class_by :
      ActionStatus → LikeNftMigrationActionNewClass → Action LikeNftMigrationActionNewClass
  new_class_by ActionStatus.completed a = pure a
  new_class_by ActionStatus.init a = begin_new_class a
  new_class_by ActionStatus.failed a = begin_new_class a
  new_class_by ActionStatus.in_progress a = raise not_init_or_failed
  new_class_by ActionStatus.other a = raise not_init_or_failed

  -- `DoNewClassAction`
  unfoldable pub do_new_class :
      LikeNftMigrationActionNewClass → Action LikeNftMigrationActionNewClass
  do_new_class a = new_class_by a.status a
