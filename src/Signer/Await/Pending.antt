-- ===== src/Signer/Await/Pending.antt =====
-- The state between storing a nonce and broadcasting under it.
-- (signer-backend/pkg/logic/await_transaction.go)
use likecoin_op.Base.{suc, ◌≡◌, true, false, not, List, ◌∷◌, ◌==◌, keep, arith, Text}
use likecoin_op.Exec.{Error, exec, ok, err, rpc_error, db_call}
use likecoin_op.Signer.Model.{EvmTransactionRequest, TransactionNonce, Transaction, State, Env}
use likecoin_op.Signer.Db.{
  is_nonce_of, update_evm_transaction_request, insert_transaction_nonce, delete_transaction_nonce,
}
use likecoin_op.Signer.Evm.{transact}
use likecoin_op.Signer.Await.{nonce_of, mark_failed, mark_and_remove_nonce, broadcast}
use likecoin_op.Signer.Await.Safe.{
  is_confirmed, IsRecorded, IsBelow, IsSafe, keep-below, IsBelow-suc, IsSafe-frame, update-IsSafe,
  await_receipt-IsSafe,
}

module _ (env : Env) (signer : Text) where
  -- The state in which a transaction is broadcast: its nonce is stored in the newest row and was not
  -- broadcast before.
  pub record IsPending (n : TransactionNonce) (tx : Transaction) (w : State) : Type 0 where
    safe : IsSafe signer w
    old : List TransactionNonce
    newest : w.db.nonces ≡ n ∷ old
    below_old : IsBelow n.id old
    recorded_old : IsRecorded old w.net
    fresh : is_confirmed tx.from tx.nonce w.net ≡ false
    stored : is_nonce_of tx.from tx.nonce n ≡ true

  pub delete_newest :
      (n : TransactionNonce) (tx : Transaction) (w : State)
      → IsPending n tx w
      → IsSafe signer (record w { tick = suc w.tick; db = (delete_transaction_nonce n w.db).1 })
  unfolding delete_transaction_nonce
  delete_newest n tx w h =
      let rest : keep (λ (m : TransactionNonce). not (m.id == n.id)) w.db.nonces ≡ h.old =
        rw h.newest (ground (arith, keep-below n.id h.old h.below_old)) in
      record {
        recorded = rw rest h.recorded_old;
        once = h.safe.once;
        below = rw rest (rw h.newest at h.safe.below).1;
        own = h.safe.own;
      }

  pub accept-IsSafe :
      (n : TransactionNonce) (tx : Transaction) (w : State)
      → IsPending n tx w
      → IsSafe signer (record w {
        tick = suc w.tick;
        net = record { transaction = tx; confirmed = true } ∷ w.net;
      })
  accept-IsSafe n tx w h = record {
    recorded = λ from nonce s. ground (arith, h.safe.recorded from nonce);
    once = (h.fresh, h.safe.once);
    below = h.safe.below;
    own = h.safe.own;
  }

  -- A lost answer leaves no trace on the service's side.
  pub lost-IsPending :
      (n : TransactionNonce) (tx : Transaction) (w : State)
      → IsPending n tx w
      → IsPending n tx (record w {
        tick = suc w.tick;
        net = record { transaction = tx; confirmed = false } ∷ w.net;
      })
  lost-IsPending n tx w h = record {
    safe = record {
      recorded = λ from nonce s. h.safe.recorded from nonce s;
      once = (h.fresh, h.safe.once);
      below = h.safe.below;
      own = h.safe.own;
    };
    old = h.old;
    newest = h.newest;
    below_old = h.below_old;
    recorded_old = λ from nonce s. h.recorded_old from nonce s;
    fresh = h.fresh;
    stored = h.stored;
  }

  pub IsPending-tick :
      (n : TransactionNonce) (tx : Transaction) (w : State)
      → IsPending n tx w
      → IsPending n tx (record w { tick = suc w.tick })
  IsPending-tick n tx w h = record {
    safe = (IsSafe-frame env signer).tick w h.safe;
    old = h.old;
    newest = h.newest;
    below_old = h.below_old;
    recorded_old = h.recorded_old;
    fresh = h.fresh;
    stored = h.stored;
  }

  pub remove-IsSafe :
      (r : EvmTransactionRequest) (n : TransactionNonce) (tx : Transaction) (reason : Error)
      → r.signer_address ≡ signer
      → (w : State) → IsPending n tx w
      → IsSafe signer (mark_and_remove_nonce env r n reason w).1
  unfolding mark_and_remove_nonce exec
  remove-IsSafe r n tx reason e w h =
      let w1 = record w { tick = suc w.tick } in
      let removed = delete_newest n tx w1 (IsPending-tick n tx w h) in
      let w2 : State = record w1 {
        tick = suc w1.tick;
        db = (delete_transaction_nonce n w1.db).1;
      } in
      ground (arith, removed, update-IsSafe env signer (mark_failed r reason) e w2 removed)

  pub broadcast-IsSafe :
      (r : EvmTransactionRequest) (n : TransactionNonce) (tx : Transaction)
      → r.signer_address ≡ signer
      → (w : State) → IsPending n tx w
      → IsSafe signer (broadcast env r n tx w).1
  unfolding broadcast transact exec
  broadcast-IsSafe r n tx e w h = ground (
    arith,
    remove-IsSafe r n tx rpc_error e (record w { tick = suc w.tick }) (IsPending-tick n tx w h),
    remove-IsSafe r n tx rpc_error e
        (record w {
          tick = suc w.tick;
          net = record { transaction = tx; confirmed = false } ∷ w.net;
        })
        (lost-IsPending n tx w h),
    (await_receipt-IsSafe env signer r tx e).at
        (record w {
          tick = suc w.tick;
          net = record { transaction = tx; confirmed = true } ∷ w.net;
        })
        (accept-IsSafe n tx w h),
  )

  pub insert-IsPending :
      (r : EvmTransactionRequest) (tx : Transaction) (n : TransactionNonce) (w v : State)
      → r.signer_address ≡ signer
      → tx.from ≡ signer
      → IsSafe signer w
      → db_call env.fault (insert_transaction_nonce (nonce_of env r tx)) w ≡ (ok n, v)
      → IsPending n tx v
  unfolding insert_transaction_nonce exec
  insert-IsPending r tx n w v e f h p =
      let below = IsBelow-suc w.db.next_nonce w.db.nonces h.below in
      record {
        safe = record {
          recorded = λ from nonce s. ground (arith, h.recorded from nonce);
          once = ground (arith, h.once);
          below = ground (arith, below);
          own = ground (arith, h.own);
        };
        old = w.db.nonces;
        newest = ground arith;
        below_old = ground (arith, h.below);
        recorded_old = λ from nonce s. ground (arith, h.recorded from nonce);
        fresh = ground (arith, h.recorded tx.from tx.nonce);
        stored = ground arith;
      }

  pub insert_err-IsSafe :
      (n : TransactionNonce) (x : Error) (w v : State)
      → IsSafe signer w
      → db_call env.fault (insert_transaction_nonce n) w ≡ (err x, v)
      → IsSafe signer v
  unfolding insert_transaction_nonce exec
  insert_err-IsSafe n x w v h p = ground arith

  pub update-IsPending :
      (r : EvmTransactionRequest) (n : TransactionNonce) (tx : Transaction) (w : State)
      → r.signer_address ≡ signer
      → IsPending n tx w
      → IsPending n tx
          (record w { tick = suc w.tick; db = (update_evm_transaction_request r w.db).1 })
  unfolding update_evm_transaction_request
  update-IsPending r n tx w e h = record {
    safe = update-IsSafe env signer r e w h.safe;
    old = h.old;
    newest = ground (arith, h.newest);
    below_old = h.below_old;
    recorded_old = h.recorded_old;
    fresh = h.fresh;
    stored = h.stored;
  }
