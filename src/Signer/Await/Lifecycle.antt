-- ===== src/Signer/Await/Lifecycle.antt =====
-- What `AwaitTransaction` does with a request in each status, errors included.
-- (signer-backend/pkg/logic/await_transaction.go)
use likecoin_op.Base.{
  ℕ, suc, ◌≡◌, ◌≢◌, true, false, Option, none, some, List, [], ◌∷◌, ◌==◌, find, any, replace, arith,
  ap, if◌then◌else◌,
}
use likecoin_op.Exec.{
  exec, Result, Error, ok, err, stop, in_progress_skipping, tx_failed, nil_dereference, bump,
  db_call, check, raise, pure,
}
use likecoin_op.Exec.Steps.{bind-eq-ok, check-result}
use likecoin_op.Signer.Model.{
  in_progress, mined, is_init_or_failed, EvmTransactionRequest, Transaction, Receipt, Tables, State,
  Env,
}
use likecoin_op.Signer.Db.{query_evm_transaction_request, update_evm_transaction_request}
use likecoin_op.Signer.Evm.{await_tx}
use likecoin_op.Signer.Evm.Nonces.{IsSame}
use likecoin_op.Signer.Await.{
  Outcome, mark, mark_failed, mark_mined, await_receipt, init_transaction, read_mined, dispatch,
  await_transaction,
}

find-replace :
    (r : EvmTransactionRequest) (rs : List EvmTransactionRequest)
    → any (λ (q : EvmTransactionRequest). q.id == r.id) rs ≡ true
    → find
        (λ (q : EvmTransactionRequest). r.id == q.id)
        (replace (λ (q : EvmTransactionRequest). q.id == r.id) (λ _. r) rs)
      ≡ some r
find-replace r [] h = cc
find-replace r (q ∷ qs) h = ground (arith, find-replace r qs)

-- The row that a query by id finds.
abbrev pub row : ℕ → Tables → Option EvmTransactionRequest
row id t = find (λ (q : EvmTransactionRequest). id == q.id) t.requests

-- How `failed` may end, from a state and for a request and a reason.
abbrev pub Settled : EvmTransactionRequest → Error → State → Result Outcome × State → Type 0
Settled r reason w (ok none, v) = row r.id v.db ≡ some (mark_failed r reason)
Settled r reason w (ok (some _), v) = ⊥
Settled r reason w (err e, v) = v.db ≡ w.db
Settled r reason w (stop s, v) = ⊥

module _ (env : Env) where
  read_mined-IsSame : (r : EvmTransactionRequest) (w : State) → IsSame w (read_mined env r w).1
  unfolding read_mined exec
  read_mined-IsSame r w = record { db = ground arith; net = ground arith }

  -- Waiting for a request that is mined changes no table and sends nothing, whatever it returns.
  pub mined_unchanged :
      (id : ℕ) (w : State) {r : EvmTransactionRequest}
      → row id w.db ≡ some r
      → r.status ≡ mined
      → IsSame w (await_transaction env id w).1
  unfolding await_transaction query_evm_transaction_request dispatch exec
  mined_unchanged id w {r} e s =
      let same = read_mined-IsSame r (bump w) in
      record { db = ground (arith, same.db); net = ground (arith, same.net) }

  -- A request in progress is left alone and reported: nothing but another writer takes it out of that
  -- status, also where the process that set it has ended.
  pub in_progress_skipped :
      (id : ℕ) (w : State) {r : EvmTransactionRequest}
      → row id w.db ≡ some r
      → r.status ≡ in_progress
      → env.fault w.tick ≡ false
      → await_transaction env id w ≡ (err in_progress_skipping, bump w)
  unfolding await_transaction query_evm_transaction_request dispatch exec
  in_progress_skipped id w {r} e s f = ground arith

  -- Where the first update of a request fails and the database then answers again, the failure is
  -- stored through the nil pointer that the update returned: the call panics.
  pub init_update_panics :
      (r : EvmTransactionRequest) (w : State)
      → is_init_or_failed r.status ≡ true
      → env.fault w.tick ≡ true
      → env.fault (suc w.tick) ≡ false
      → ((init_transaction env r w).0 ≡ stop nil_dereference)
        × ((init_transaction env r w).1.db ≡ w.db)
  unfolding init_transaction mark exec
  init_update_panics r w i f g = (ground arith, ground arith)

  -- How storing a failure ends: without an error just when the request is stored as failed with the
  -- reason, which leaves the caller with neither a transaction nor an error; every other end is an
  -- error and leaves the tables as they were.
  pub mark_outcome :
      (r : EvmTransactionRequest) (reason : Error) (w : State)
      → Settled r reason w (mark env (some r) reason w)
  unfolding mark update_evm_transaction_request exec
  mark_outcome r reason w = ground (arith, find-replace (mark_failed r reason) w.db.requests)

  check_status :
      (receipt : Receipt) (w : State) {got : Receipt}
      → ((if receipt.status == 0 then raise tx_failed else pure receipt) w).0 ≡ ok got
      → got.status ≢ 0
  unfolding exec
  check_status receipt w h = ground arith

  await_tx-status :
      (w : State) {receipt : Receipt} → (await_tx env w).0 ≡ ok receipt → receipt.status ≢ 0
  unfolding await_tx
  await_tx-status w h =
      let (receipt, _, h1) = bind-eq-ok _ _ w h in
      let (_, _, h2) = bind-eq-ok _ _ _ h1 in check_status receipt _ h2

  store_mined :
      (r : EvmTransactionRequest) (tx : Transaction) (receipt : Receipt) (w v : State)
      {got : Transaction × Receipt}
      → check
          (db_call env.fault (update_evm_transaction_request (mark_mined env r receipt)))
          raise
          (λ _. pure (some (tx, receipt)))
          w
        ≡ (ok (some got), v)
      → (got.0 ≡ tx) × (got.1 ≡ receipt) × (row r.id v.db ≡ some (mark_mined env r receipt))
  unfolding update_evm_transaction_request exec
  store_mined r tx receipt w v h =
      ground (arith, find-replace (mark_mined env r receipt) w.db.requests)

  mark-ne-some :
      (r : EvmTransactionRequest) (reason : Error) (w v : State) {got : Transaction × Receipt}
      → ¬ (mark env (some r) reason w ≡ (ok (some got), v))
  mark-ne-some r reason w v h = rw h at (mark_outcome r reason w)

  -- Whatever waiting returns with a transaction, its receipt has a status other than 0, and the
  -- request is stored as mined with that receipt: a transaction that was mined and failed never is.
  pub await_receipt-mined :
      (r : EvmTransactionRequest) (tx : Transaction) (w v : State) {got : Transaction × Receipt}
      → await_receipt env r tx w ≡ (ok (some got), v)
      → (got.0 ≡ tx) × (got.1.status ≢ 0) × (row r.id v.db ≡ some (mark_mined env r got.1))
  unfolding await_receipt
  await_receipt-mined r tx w v {got} h =
      check-result
        (λ x.
          x ≡ (ok (some got), v)
          → (got.0 ≡ tx) × (got.1.status ≢ 0) × (row r.id v.db ≡ some (mark_mined env r got.1)))
        (await_tx env) (mark env (some r))
        (λ receipt.
          check (db_call env.fault (update_evm_transaction_request (mark_mined env r receipt)))
            raise (λ _. pure (some (tx, receipt))))
        w
        (λ receipt u p q.
          let (is_tx, is_receipt, stored) = store_mined r tx receipt u v {got = got} q in
          (
            is_tx,
            rw is_receipt (await_tx-status w (ap (λ (s : Result Receipt × State). s.0) p)),
            rw is_receipt stored,
          ))
        (λ e u p q. absurd (mark-ne-some r e u v {got = got} q)) (λ s u p q. cc) h
