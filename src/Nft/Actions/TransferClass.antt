-- ===== src/Nft/Actions/TransferClass.antt =====
-- Handing a class over to its owner.
-- (migration-backend/pkg/logic/likenft/do_transfer_class_action.go, get_or_create_transfer_class_action.go)
use likecoin_op.Base.{none, some, if◌then◌else◌, Text}
use likecoin_op.Exec.{
  Error, not_init_or_failed, join_opt, pure, raise, check, error_of, db_call, ◌>>=◌,
}
use likecoin_op.Coin.Create.{is_no_rows}
use likecoin_op.Nft.Actions.Model.{
  ActionStatus, LikeNftMigrationActionTransferClass, Action, query_transfer_class,
  insert_transfer_class, update_transfer_class,
}
use likecoin_op.Nft.Actions.Calls.{Env, transfer_class}

abbrev pub initial_transfer_class : Text → Text → Text → LikeNftMigrationActionTransferClass
initial_transfer_class evm_class_id cosmos_owner evm_owner = record {
  id = 0;
  evm_class_id = evm_class_id;
  cosmos_owner = cosmos_owner;
  evm_owner = evm_owner;
  status = ActionStatus.init;
  evm_tx_hash = none;
  failed_reason = none;
}

module _ (env : Env) where
  -- `GetOrCreateTransferClassAction`
  unfoldable pub get_or_create_transfer_class :
      Text → Text → Text → Action LikeNftMigrationActionTransferClass
  get_or_create_transfer_class evm_class_id cosmos_owner evm_owner =
      check
        (db_call env.fault
          (query_transfer_class (some evm_class_id) (some cosmos_owner) (some evm_owner)))
        (λ e.
          if is_no_rows e
          then (db_call env.fault
              (insert_transfer_class (initial_transfer_class evm_class_id cosmos_owner evm_owner)))
          else raise e)
        pure

  -- `doTransferClassActionFailed`
  unfoldable pub transfer_class_failed :
      {A : Type 0} → LikeNftMigrationActionTransferClass → Error → Action A
  transfer_class_failed a e =
      error_of (
        db_call env.fault (
          update_transfer_class
            (record a { status = ActionStatus.failed; failed_reason = some e })))
      >>= λ failure. raise (join_opt e failure)

  abbrev pub completed_transfer_class :
      LikeNftMigrationActionTransferClass → Text → LikeNftMigrationActionTransferClass
  completed_transfer_class a hash = record a {
    status = ActionStatus.completed;
    evm_tx_hash = some hash;
  }

  abbrev pub begun_transfer_class :
      LikeNftMigrationActionTransferClass → LikeNftMigrationActionTransferClass
  begun_transfer_class a = record a { status = ActionStatus.in_progress }

  -- `DoTransferClassAction` after the tests on the status.
  unfoldable pub begin_transfer_class :
      LikeNftMigrationActionTransferClass → Action LikeNftMigrationActionTransferClass
  begin_transfer_class row =
      let a = begun_transfer_class row in
      check (db_call env.fault (update_transfer_class a)) raise λ _.
        check
          (transfer_class env (env.hex_to_address a.evm_class_id) (env.hex_to_address a.evm_owner))
          (transfer_class_failed a)
          λ (hash, _).
            let b = completed_transfer_class a hash in
            check (db_call env.fault (update_transfer_class b)) (transfer_class_failed b)
              λ _. pure b

  unfoldable pub transfer_class_by :
      ActionStatus
      → LikeNftMigrationActionTransferClass
      → Action LikeNftMigrationActionTransferClass
  transfer_class_by ActionStatus.completed a = pure a
  transfer_class_by ActionStatus.init a = begin_transfer_class a
  transfer_class_by ActionStatus.failed a = begin_transfer_class a
  transfer_class_by ActionStatus.in_progress a = raise not_init_or_failed
  transfer_class_by ActionStatus.other a = raise not_init_or_failed

  -- `DoTransferClassAction`
  unfoldable pub do_transfer_class :
      LikeNftMigrationActionTransferClass → Action LikeNftMigrationActionTransferClass
  do_transfer_class a = transfer_class_by a.status a
