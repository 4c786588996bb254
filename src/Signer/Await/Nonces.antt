-- ===== src/Signer/Await/Nonces.antt =====
-- No nonce is broadcast twice: what `AwaitTransaction` keeps of the nonce table and of the network.
-- (signer-backend/pkg/logic/await_transaction.go)
use likecoin_op.Base.{
  ℕ, ◌≡◌, Bool, Option, none, some, List, [], ◌∷◌, ◌==◌, ap, find, All, arith, Text,
}
use mathlib.Core.Path.{subst}
use likecoin_op.Exec.{Result, exec, ok, err, stop, db_call, halt, raise, nil_dereference}
use likecoin_op.Exec.Frame.{
  Keeps-db_call, Keeps-check, Keeps-raise, Keeps-pure, Keeps-if, Keeps-halt, Keeps-outside,
}
use likecoin_op.Exec.Steps.{check-cases}
use likecoin_op.Signer.Model.{
  EvmTransactionRequest, Transaction, Action, State, Env, Status, init, in_progress, submitted,
  mined, failed, other, is_init_or_failed, is_submitted, is_mined,
}
use likecoin_op.Signer.Db.{query_evm_transaction_request}
use likecoin_op.Signer.Evm.{sign}
use likecoin_op.Signer.Evm.Nonces.{sign-IsSame, sign-IsAbove}
use likecoin_op.Signer.Await.{
  Outcome, init_transaction, mark_submitted, await_submitted, read_mined, dispatch,
  await_transaction,
}
use likecoin_op.Signer.Await.Safe.{
  IsSafe, KeepsSafe, IsSafe-frame, update-IsSafe, mark-IsSafe, mark-none-IsSafe, IsSafe-same,
  await_receipt-IsSafe,
}
use likecoin_op.Signer.Await.Broadcast.{store_nonce-IsSafe}

find-own :
    (signer : Text) (p : EvmTransactionRequest → Bool) (rs : List EvmTransactionRequest)
    {r : EvmTransactionRequest}
    → All (λ (q : EvmTransactionRequest). q.signer_address ≡ signer) rs
    → find p rs ≡ some r
    → r.signer_address ≡ signer
find-own signer p [] h e = cc
find-own signer p (q ∷ qs) {r} h e = ground (arith, find-own signer p qs {r = r} h.1)

-- The service holds a key, and its requests are those of the key's address.
module _ (env : Env) (key : Text) (has_key : env.private_key ≡ some key) where
  abbrev key_signer : Text
  key_signer = env.address_of key

  init_transaction-IsSafe :
      (r : EvmTransactionRequest)
      → r.signer_address ≡ key_signer
      → KeepsSafe env key_signer (init_transaction env r)
  unfolding init_transaction
  init_transaction-IsSafe r e =
      let F = IsSafe-frame env key_signer in
      let r' = record r { status = in_progress } in
      Keeps-if F (is_init_or_failed r.status) _ _
        (Keeps-check F _ _ _ (Keeps-db_call F env.fault _ (update-IsSafe env key_signer r' e))
          (mark-none-IsSafe env key_signer)
          (λ _.
            Keeps-check F _ _ _ (Keeps-outside F _ _) (λ x. mark-IsSafe env key_signer r' x e)
              (λ input. record {
                at = λ w h.
                    check-cases (IsSafe key_signer) _ _ _ w
                      (λ tx v p.
                        (store_nonce-IsSafe env key_signer (mark_submitted env r' tx v) tx e
                            (sign-IsAbove env r'.to_address input key r'.amount w has_key
                              (ap (λ (s : Result Transaction × State). s.0) p)).0).at
                          v (sign_moves input r' w v p h))
                      (λ x v p.
                        (mark-IsSafe env key_signer r' x e).at v (sign_moves input r' w v p h))
                      (λ s v p. sign_moves input r' w v p h);
              })))
        (Keeps-raise F _)
    where
      sign_moves :
          (input : Text) (q : EvmTransactionRequest) (w v : State) {x : Result Transaction}
          → sign env q.to_address input q.amount w ≡ (x, v)
          → IsSafe key_signer w
          → IsSafe key_signer v
      sign_moves input q w v p h =
          subst (IsSafe key_signer) (ap (λ (s : Result Transaction × State). s.1) p)
            (IsSafe-same env key_signer ((sign-IsSame env q.to_address input q.amount).at w) h)

  with_hash-IsSafe :
      (o : Option Text) (m : Action Outcome)
      → KeepsSafe env key_signer m
      → KeepsSafe env key_signer
          (let n : Action Outcome = elim o [ none ↦ halt nil_dereference | some _ ↦ m ] in n)
  with_hash-IsSafe none m k = Keeps-halt (IsSafe-frame env key_signer) _
  with_hash-IsSafe (some _) m k = k

  dispatch-IsSafe :
      (s : Status) (r : EvmTransactionRequest)
      → r.signer_address ≡ key_signer
      → KeepsSafe env key_signer (dispatch env s r)
  unfolding dispatch await_submitted read_mined
  dispatch-IsSafe init r e = init_transaction-IsSafe r e
  dispatch-IsSafe in_progress r e = Keeps-raise (IsSafe-frame env key_signer) _
  dispatch-IsSafe submitted r e =
      let F = IsSafe-frame env key_signer in
      Keeps-if F (is_submitted r.status) _ _
        (with_hash-IsSafe r.signed_tx_hash _ (
          Keeps-check F _ _ _ (Keeps-outside F _ _) (Keeps-raise F)
            (λ tx. await_receipt-IsSafe env key_signer r tx e)))
        (Keeps-raise F _)
  dispatch-IsSafe mined r e =
      let F = IsSafe-frame env key_signer in
      Keeps-if F (is_mined r.status) _ _
        (with_hash-IsSafe r.signed_tx_hash _ (
          Keeps-check F _ _ _ (Keeps-outside F _ _) (Keeps-raise F) (λ tx.
            Keeps-check F _ _ _ (Keeps-outside F _ _) (Keeps-raise F) (λ _. Keeps-pure F _))))
        (Keeps-raise F _)
  dispatch-IsSafe failed r e = init_transaction-IsSafe r e
  dispatch-IsSafe other r e = Keeps-raise (IsSafe-frame env key_signer) _

  query_own :
      (id : ℕ) (r : EvmTransactionRequest) (w v : State)
      → db_call env.fault (query_evm_transaction_request (some id)) w ≡ (ok r, v)
      → IsSafe key_signer w
      → (r.signer_address ≡ key_signer) × IsSafe key_signer v
  unfolding query_evm_transaction_request exec
  query_own id r w v p h =
      let own =
        find-own key_signer (λ (q : EvmTransactionRequest). id == q.id) w.db.requests {r = r}
          h.own in
      (ground (arith, own), ground arith)

  query_rest :
      (id : ℕ) (x : Result EvmTransactionRequest) (w v : State)
      → db_call env.fault (query_evm_transaction_request (some id)) w ≡ (x, v)
      → IsSafe key_signer w
      → IsSafe key_signer v
  unfolding query_evm_transaction_request exec
  query_rest id x w v p h = ground arith

  -- `AwaitTransaction` keeps the invariant, whatever the database and the node answer.
  pub await_transaction-IsSafe : (id : ℕ) → KeepsSafe env key_signer (await_transaction env id)
  unfolding await_transaction raise
  await_transaction-IsSafe id = record {
    at = λ w h.
        check-cases (IsSafe key_signer)
          (db_call env.fault (query_evm_transaction_request (some id))) raise
          (λ (r : EvmTransactionRequest). dispatch env r.status r) w
          (λ r v p.
            let own = query_own id r w v p h in (dispatch-IsSafe r.status r own.0).at v own.1)
          (λ x v p. query_rest id (err x) w v p h) (λ s v p. query_rest id (stop s) w v p h);
  }
