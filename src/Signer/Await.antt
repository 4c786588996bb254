-- ===== src/Signer/Await.antt =====
-- The life of a request: `AwaitTransaction` and the handlers of each status. A pointer that a failed
-- update has set to nil is `none`. (signer-backend/pkg/logic/await_transaction.go)
pub mod Safe
pub mod Pending
pub mod Broadcast
pub mod Nonces
pub mod Lifecycle
use likecoin_op.Base.{ℕ, Option, none, some, List, [], ◌∷◌, if◌then◌else◌}
use likecoin_op.Exec.{
  Error, join, join_opt, in_progress_skipping, unknown_status, not_init_or_failed, not_submitted,
  not_mined, bad_hex, rpc_error, nil_dereference, Exec, pure, raise, halt, check, ◌>>=◌, ◌>>◌,
  outside, db_call, begin_tx, commit, rollback, error_of,
}
use likecoin_op.Signer.Model.{
  Status, init, in_progress, submitted, mined, failed, other, is_init_or_failed, is_submitted,
  is_mined, EvmTransactionRequest, TransactionNonce, Tables, Transaction, Receipt, Action, State,
  Env,
}
use likecoin_op.Signer.Db.{
  query_evm_transaction_request, update_evm_transaction_request, insert_transaction_nonce,
  delete_transaction_nonce,
}
use likecoin_op.Signer.Evm.{sign, transact, await_tx}

-- The transaction and its receipt; `none` for (nil, nil, nil), which is what a failure that could be
-- stored returns.
abbrev pub Outcome : Type 0
Outcome = Option (Transaction × Receipt)

abbrev pub mark_failed : EvmTransactionRequest → Error → EvmTransactionRequest
mark_failed r reason = record r { status = failed; failed_reason = some reason }

module _ (env : Env) where
  -- The deferred `tx.Rollback()` of `failed`, whose error is dropped.
  abbrev pub roll_back : {A : Type 0} → Tables → Action A → Action A
  roll_back before k = error_of (rollback env.fault before) >> k

  -- `errors.Join(err, tx.Rollback())`
  abbrev pub join_rollback : {A : Type 0} → Tables → Error → (Error → Action A) → Action A
  join_rollback before e k =
      error_of (rollback env.fault before) >>= λ rolled. k (join_opt e rolled)

  -- `failed`
  unfoldable pub mark : Option EvmTransactionRequest → Error → Action Outcome
  mark transaction reason =
      check (begin_tx env.fault) (λ e. raise (join reason e))
        λ before. elim transaction [
          | none ↦ roll_back before (halt nil_dereference)
          | some r ↦
              check (db_call env.fault (update_evm_transaction_request (mark_failed r reason)))
                (λ e. roll_back before (raise (join reason e)))
                λ _. check (commit env.fault before) (λ e. raise (join reason e)) λ _. pure none
        ]

  -- `failedAndRemoveNonce`
  unfoldable pub mark_and_remove_nonce :
      EvmTransactionRequest → TransactionNonce → Error → Action Outcome
  mark_and_remove_nonce r n reason =
      check (begin_tx env.fault) (λ e. raise (join reason e))
        λ before.
          check (db_call env.fault (delete_transaction_nonce n))
            (λ e. join_rollback before (join reason e) raise)
            λ _.
              check (db_call env.fault (update_evm_transaction_request (mark_failed r reason)))
                (λ e. join_rollback before (join reason e) raise)
                λ _.
                  check (commit env.fault before) (λ e. join_rollback before (join reason e) raise)
                    λ _. pure none

  abbrev pub mark_mined : EvmTransactionRequest → Receipt → EvmTransactionRequest
  mark_mined r receipt = record r {
    status = mined;
    block_hash = some receipt.block_hash;
    receipt_status = some receipt.status;
  }

  -- The end of `initTransaction` and of `submitted`: wait for the receipt and store it.
  unfoldable pub await_receipt : EvmTransactionRequest → Transaction → Action Outcome
  await_receipt r tx = check (await_tx env) (mark (some r)) λ receipt.
      check (db_call env.fault (update_evm_transaction_request (mark_mined r receipt))) raise
        λ _. pure (some (tx, receipt))

  abbrev pub nonce_of : EvmTransactionRequest → Transaction → TransactionNonce
  nonce_of r tx = record {
    id = 0;
    eth_address = r.signer_address;
    nonce = tx.nonce;
    evm_transaction_request_id = r.id;
  }

  abbrev pub mark_submitted : EvmTransactionRequest → Transaction → State → EvmTransactionRequest
  mark_submitted r tx w = record r {
    gas_limit = some tx.gas;
    gas_price = some tx.gas_price;
    nonce = some tx.nonce;
    signed_tx_hash = some tx.hash;
    status = submitted;
    submitted_at = some (env.now w.tick);
  }

  -- The broadcast of `initTransaction`, once the nonce is stored.
  unfoldable pub broadcast : EvmTransactionRequest → TransactionNonce → Transaction → Action Outcome
  broadcast r n tx = check (transact env tx) (mark_and_remove_nonce r n) λ _. await_receipt r tx

  -- The commit of `initTransaction`, and the broadcast.
  unfoldable pub commit_request :
      EvmTransactionRequest → TransactionNonce → Transaction → Tables → Action Outcome
  commit_request r n tx before =
      check (commit env.fault before) (λ e. join_rollback before e (mark (some r)))
        λ _. broadcast r n tx

  -- The rest of the transaction of `initTransaction`, once the nonce is inserted.
  unfoldable pub store_request :
      EvmTransactionRequest → TransactionNonce → Transaction → Tables → Action Outcome
  store_request r n tx before =
      check (db_call env.fault (update_evm_transaction_request r))
        (λ e. join_rollback before e (mark none)) λ _. commit_request r n tx before

  -- The transaction of `initTransaction` that stores the nonce and the submitted request.
  unfoldable pub store_nonce : EvmTransactionRequest → Transaction → Action Outcome
  store_nonce r tx = check (begin_tx env.fault) (mark (some r)) λ before.
      check (db_call env.fault (insert_transaction_nonce (nonce_of r tx)))
        (λ e. join_rollback before e (mark (some r))) λ n. store_request r n tx before

  -- `initTransaction`
  unfoldable pub init_transaction : EvmTransactionRequest → Action Outcome
  init_transaction r =
      if is_init_or_failed r.status
      then (let r' = record r { status = in_progress } in
          check (db_call env.fault (update_evm_transaction_request r')) (mark none) λ _.
            check (outside (λ _. env.decode_hex r'.call_data_hex) bad_hex) (mark (some r')) λ input.
              check (sign env r'.to_address input r'.amount) (mark (some r'))
                λ tx w. store_nonce (mark_submitted r' tx w) tx w)
      else raise not_init_or_failed

  abbrev pub with_hash : EvmTransactionRequest → Action Outcome → Action Outcome
  with_hash r k = elim r.signed_tx_hash [ none ↦ halt nil_dereference | some _ ↦ k ]

  -- `submitted`
  unfoldable pub await_submitted : EvmTransactionRequest → Action Outcome
  await_submitted r =
      if is_submitted r.status
      then with_hash r
          (check (outside env.transaction_by_hash rpc_error) raise λ tx. await_receipt r tx)
      else raise not_submitted

  -- `mined`
  unfoldable pub read_mined : EvmTransactionRequest → Action Outcome
  read_mined r =
      if is_mined r.status
      then with_hash r (
          check (outside env.transaction_by_hash rpc_error) raise
            λ tx. check (outside env.receipt rpc_error) raise λ receipt. pure (some (tx, receipt)))
      else raise not_mined

  -- The `switch` of `AwaitTransaction`.
  unfoldable pub dispatch : Status → EvmTransactionRequest → Action Outcome
  dispatch init r = init_transaction r
  dispatch in_progress r = raise in_progress_skipping
  dispatch submitted r = await_submitted r
  dispatch mined r = read_mined r
  dispatch failed r = init_transaction r
  dispatch other r = raise unknown_status

  -- `AwaitTransaction`
  unfoldable pub await_transaction : ℕ → Action Outcome
  await_transaction transaction_id =
      check (db_call env.fault (query_evm_transaction_request (some transaction_id))) raise
        λ r. dispatch r.status r
