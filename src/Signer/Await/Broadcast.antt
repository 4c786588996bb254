-- ===== src/Signer/Await/Broadcast.antt =====
-- Storing a nonce and broadcasting under it keeps the invariant, whatever fails.
-- (signer-backend/pkg/logic/await_transaction.go)
use likecoin_op.Base.{suc, ◌≡◌, sym, some, arith, Text}
use mathlib.Core.Path.{subst}
use likecoin_op.Exec.{Result, Error, Stop, exec, ok, err, stop, db_error, db_call, begin_tx}
use likecoin_op.Exec.Steps.{check-cases, db_call-eq-ok, db_call-net}
use likecoin_op.Signer.Model.{
  EvmTransactionRequest, TransactionNonce, Transaction, Action, State, Env, Tables,
}
use likecoin_op.Signer.Db.{update_evm_transaction_request, insert_transaction_nonce}
use likecoin_op.Signer.Await.{
  Outcome, nonce_of, mark, commit_request, store_request, store_nonce, join_rollback,
}
use likecoin_op.Signer.Await.Safe.{IsSafe, KeepsSafe, IsSafe-frame, mark-IsSafe, mark-none-IsSafe}
use likecoin_op.Signer.Await.Pending.{
  IsPending, IsPending-tick, broadcast-IsSafe, insert-IsPending, update-IsPending,
}

module _ (env : Env) (signer : Text) where
  pub join_rollback-IsSafe :
      (before : Tables) (x : Error) (f : Error → Action Outcome) (w : State)
      → ((y : Error) → KeepsSafe env signer (f y))
      → IsSafe signer (record w { db = before })
      → IsSafe signer (join_rollback env before x f w).1
  unfolding exec
  join_rollback-IsSafe before x f w kf h =
      let back = (IsSafe-frame env signer).tick (record w { db = before }) h in
      let w1 : State = record w { tick = suc w.tick; db = before } in
      ground (arith, (kf (Error.join x db_error)).at w1 back, (kf x).at w1 back)

  pub commit-IsSafe :
      (r : EvmTransactionRequest) (n : TransactionNonce) (tx : Transaction) (before : Tables)
      (w : State)
      → r.signer_address ≡ signer
      → IsPending env signer n tx w
      → IsSafe signer (record w { db = before })
      → IsSafe signer (commit_request env r n tx before w).1
  unfolding commit_request exec
  commit-IsSafe r n tx before w e pending back =
      let w1 : State = record w { tick = suc w.tick; db = before } in
      ground (
        arith,
        join_rollback-IsSafe before db_error (mark env (some r)) w1
            (λ y. mark-IsSafe env signer r y e)
            ((IsSafe-frame env signer).tick (record w { db = before }) back),
        broadcast-IsSafe env signer r n tx e (record w { tick = suc w.tick })
            (IsPending-tick env signer n tx w pending),
      )

  pub IsSafe-net :
      (before : Tables) (w v : State)
      → v.net ≡ w.net
      → IsSafe signer (record w { db = before })
      → IsSafe signer (record v { db = before })
  IsSafe-net before w v e h = record {
    recorded = rw e h.recorded;
    once = rw e h.once;
    below = h.below;
    own = h.own;
  }

  pub update-before :
      (r : EvmTransactionRequest) (before : Tables) (w v : State) {x : Result EvmTransactionRequest}
      → db_call env.fault (update_evm_transaction_request r) w ≡ (x, v)
      → IsSafe signer (record w { db = before })
      → IsSafe signer (record v { db = before })
  update-before r before w v p =
      IsSafe-net before w v (db_call-net env.fault (update_evm_transaction_request r) w v p)

  pub update-ne-stop :
      (r : EvmTransactionRequest) (s : Stop) (w v : State)
      → ¬ (db_call env.fault (update_evm_transaction_request r) w ≡ (stop s, v))
  unfolding update_evm_transaction_request exec
  update-ne-stop r s w v p = ground arith

  -- The end of the transaction that stores the nonce, and the broadcast.
  pub finish-IsSafe :
      (r : EvmTransactionRequest) (n : TransactionNonce) (tx : Transaction) (before : Tables)
      (w : State)
      → r.signer_address ≡ signer
      → IsPending env signer n tx w
      → IsSafe signer (record w { db = before })
      → IsSafe signer (store_request env r n tx before w).1
  unfolding store_request
  finish-IsSafe r n tx before w e pending back =
      check-cases (IsSafe signer) _ _ _ w
        (λ a v p.
          commit-IsSafe r n tx before v e
            (subst (IsPending env signer n tx)
              (sym (db_call-eq-ok env.fault (update_evm_transaction_request r) w v {a = a} p))
              (update-IsPending env signer r n tx w e pending))
            (update-before r before w v p back))
        (λ x v p.
          join_rollback-IsSafe before x _ v (mark-none-IsSafe env signer)
            (update-before r before w v p back))
        (λ s v p. absurd (update-ne-stop r s w v p))

  pub insert-ne-stop :
      (n : TransactionNonce) (s : Stop) (w v : State)
      → ¬ (db_call env.fault (insert_transaction_nonce n) w ≡ (stop s, v))
  unfolding insert_transaction_nonce exec
  insert-ne-stop n s w v p = ground arith

  pub begin-IsSafe :
      (before : Tables) (w v : State)
      → begin_tx env.fault w ≡ (ok before, v)
      → IsSafe signer w
      → IsSafe signer v × IsSafe signer (record v { db = before })
  unfolding exec
  begin-IsSafe before w v p h = ground arith

  pub begin_err-IsSafe :
      (x : Error) (w v : State)
      → begin_tx env.fault w ≡ (err x, v)
      → IsSafe signer w
      → IsSafe signer v
  unfolding exec
  begin_err-IsSafe x w v p h = ground arith

  pub begin-ne-stop : (s : Stop) (w v : State) → ¬ (begin_tx env.fault w ≡ (stop s, v))
  unfolding exec
  begin-ne-stop s w v p = ground arith

  -- Storing the nonce and broadcasting keeps the invariant.
  pub store_nonce-IsSafe :
      (r : EvmTransactionRequest) (tx : Transaction)
      → r.signer_address ≡ signer
      → tx.from ≡ signer
      → KeepsSafe env signer (store_nonce env r tx)
  unfolding store_nonce
  store_nonce-IsSafe r tx e f = record {
    at = λ w h.
        check-cases (IsSafe signer) _ _ _ w
          (λ before v p.
            let hv = begin-IsSafe before w v p h in
            check-cases (IsSafe signer) _ _ _ v
              (λ n u q.
                finish-IsSafe r n tx before u e (insert-IsPending env signer r tx n v u e f hv.0 q)
                  (IsSafe-net before v u
                    (db_call-net env.fault (insert_transaction_nonce (nonce_of env r tx)) v u q)
                    hv.1))
              (λ x u q.
                join_rollback-IsSafe before x _ u (λ y. mark-IsSafe env signer r y e)
                  (IsSafe-net before v u
                    (db_call-net env.fault (insert_transaction_nonce (nonce_of env r tx)) v u q)
                    hv.1))
              (λ s u q. absurd (insert-ne-stop (nonce_of env r tx) s v u q)))
          (λ x v p. (mark-IsSafe env signer r x e).at v (begin_err-IsSafe x w v p h))
          (λ s v p. absurd (begin-ne-stop s w v p));
  }
