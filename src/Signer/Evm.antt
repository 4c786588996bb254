-- ===== src/Signer/Evm.antt =====
-- The client of the Ethereum node: choosing a nonce, signing, and waiting for a receipt. The polling
-- loops end when their context is done, after `patience` polls. (signer-backend/pkg/evm)
pub mod Nonces
use likecoin_op.Base.{
  ℕ, zero, suc, Bool, true, false, Option, none, some, List, ◌∷◌, ◌==◌, ltb, if◌then◌else◌, Text,
}
use likecoin_op.Exec.{
  World, Error, Result, ok, err, rpc_error, context_done, bad_key, signing_failed, no_code,
  tx_failed, blocked, Exec, pure, raise, halt, ◌>>=◌, ◌>>◌, check, outside, db_call, error_of,
}
use likecoin_op.Signer.Model.{
  Tables, refused, lost, accepted, Transaction, Receipt, Network, Action, State, Env,
}
use likecoin_op.Signer.Db.{query_latest_nonce}

pub data NonceAvailability : Type 0 where
  available using : NonceAvailability

module _ (env : Env) where
  -- A call of the node by its answers.
  abbrev pub rpc : {A : Type 0} → (ℕ → Option A) → Action A
  rpc answer = outside answer rpc_error

  -- `Client.SignerAddress`
  abbrev pub signer_address : Action Text
  signer_address = elim env.private_key [
    | none ↦ raise bad_key
    | some key ↦ pure (env.address_of key)
  ]

  -- `Client.GetPendingNonce`
  abbrev pub get_pending_nonce : Action ℕ
  get_pending_nonce = signer_address >> rpc env.pending_nonce

  abbrev pub compare_nonces : ℕ → Option ℕ → NonceAvailability
  compare_nonces remote none = available
  compare_nonces remote (some latest) = if ltb latest remote then available else using

  -- `getNonceAvailability`
  unfoldable pub get_nonce_availability : Text → ℕ → Action NonceAvailability
  get_nonce_availability eth_address remote_nonce =
      db_call env.fault (query_latest_nonce eth_address) >>= λ latest.
      pure (compare_nonces remote_nonce latest)

  abbrev pub on_availability : NonceAvailability → ℕ → Action ℕ → Action ℕ
  on_availability available remote again = pure remote
  on_availability using remote again = again

  -- The loop of `Client.awaitAvailableNonce`, by the polls that are left.
  unfoldable pub poll_nonce : ℕ → Text → Action ℕ
  poll_nonce zero from = raise context_done
  poll_nonce (suc polls) from =
      let again = poll_nonce polls from in
      get_pending_nonce >>= λ remote.
      get_nonce_availability from remote >>= λ a. on_availability a remote again

  -- `Client.awaitAvailableNonce`
  unfoldable pub await_available_nonce : Action ℕ
  await_available_nonce = signer_address >>= λ from. poll_nonce env.patience from

  -- `Client.estimateGasLimit`: there must be code at the contract.
  abbrev pub estimate_gas_limit : Action ℕ
  estimate_gas_limit = do
    size ← rpc env.pending_code_size
    if size == 0 then raise no_code else rpc env.estimate_gas

  abbrev pub with_signature : Text → Transaction → Action Transaction
  with_signature key tx = elim (env.sign key tx) [
    | none ↦ raise signing_failed
    | some hash ↦ pure (record tx { hash = hash })
  ]

  abbrev pub with_key : (Text → Action Transaction) → Action Transaction
  with_key k = elim env.private_key [ none ↦ raise bad_key | some key ↦ k key ]

  -- `Client.Sign`
  unfoldable pub sign : Text → Text → ℕ → Action Transaction
  sign to input value = do
    rpc env.chain_id
    with_key λ key. do
      nonce ← await_available_nonce
      gas_price ← rpc env.suggest_gas_price
      gas_limit ← estimate_gas_limit
      with_signature key (record {
        from = env.address_of key;
        nonce = nonce;
        to = to;
        value = value;
        gas = gas_limit;
        gas_price = gas_price;
        data_bytes = input;
        hash = 0;
      })

  -- `Client.Transact`: an error does not say whether the node has taken the transaction.
  unfoldable pub transact : Transaction → Action (Unit {0})
  transact tx w = elim (env.send w.tick) [
    | refused ↦ (err rpc_error, record w { tick = suc w.tick })
    | lost ↦ (
      err rpc_error,
      record w { tick = suc w.tick; net = record { transaction = tx; confirmed = false } ∷ w.net },
    )
    | accepted ↦ (
      ok tt,
      record w { tick = suc w.tick; net = record { transaction = tx; confirmed = true } ∷ w.net },
    )
  ]

  -- The loop of `AwaitNonce`.
  unfoldable pub poll_sent_nonce : ℕ → ℕ → Action (Unit {0})
  poll_sent_nonce zero nonce = raise context_done
  poll_sent_nonce (suc polls) nonce =
      let again = poll_sent_nonce polls nonce in
      rpc env.nonce_at >>= λ remote. if ltb nonce remote then pure tt else again

  -- `AwaitNonce`
  unfoldable pub await_nonce : Action (Unit {0})
  await_nonce = do
    rpc env.chain_id
    tx ← rpc env.transaction_by_hash
    elim (env.sender tx) [ none ↦ raise rpc_error | some _ ↦ poll_sent_nonce env.patience tx.nonce ]

  -- The loop of `AwaitTx`, which goes on after an error. Once the context is done its goroutine
  -- sends to a channel that `AwaitTx` does not read, and `AwaitTx` reads one to which nobody sends.
  unfoldable pub poll_receipt : ℕ → Action Receipt
  poll_receipt zero = halt blocked
  poll_receipt (suc polls) =
      let again = poll_receipt polls in check (rpc env.receipt) (λ _. again) pure

  -- `AwaitTx`: the error of `AwaitNonce` is dropped, and a receipt of status 0 is an error.
  unfoldable pub await_tx : Action Receipt
  await_tx = do
    receipt ← poll_receipt env.patience
    error_of await_nonce
    if receipt.status == 0 then raise tx_failed else pure receipt
