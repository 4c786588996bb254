-- ===== src/Ethereum.antt =====
-- Signatures, and transactions through the signing service, as both migrations use them.
-- (migration-backend/pkg/ethereum, migration-backend/pkg/likecoin/evm, migration-backend/pkg/likenft/evm)
pub mod Quiet
use likecoin_op.Base.{
  ℕ, suc, zero, ◌-◌, Bool, ◌||◌, Option, none, some, List, [], ◌∷◌, ◌==◌, if◌then◌else◌, Text,
}
use likecoin_op.Exec.{
  Error, Result, ok, err, stop, panicked, rpc_error, bad_key, context_done, nil_dereference,
  crashed, Exec, pure, raise, halt, check, outside,
}

-- The byte at the index, from 0.
abbrev pub byte_at : List ℕ → ℕ → Option ℕ
byte_at [] i = none
byte_at (b ∷ bytes) zero = some b
byte_at (b ∷ bytes) (suc i) = byte_at bytes i

abbrev pub set_byte : List ℕ → ℕ → ℕ → List ℕ
set_byte [] i v = []
set_byte (b ∷ bytes) zero v = v ∷ bytes
set_byte (b ∷ bytes) (suc i) v = b ∷ set_byte bytes i v

-- What `RecoverAddress` takes from the libraries.
pub record Crypto : Type 0 where
  -- `hexutil.Decode`, whose error is a panic of `MustDecode`.
  pub decode : Text → Option (List ℕ)
  pub text_hash : Text → Text
  pub sig_to_pub : Text → List ℕ → Option Text
  pub pubkey_to_address : Text → Text

-- `crypto.RecoveryIDOffset`
abbrev pub recovery_id_offset : ℕ
recovery_id_offset = 64

-- `Transform yellow paper V from 27/28 to 0/1`
abbrev pub transform_v : List ℕ → ℕ → List ℕ
transform_v sig v = if (v == 27) || (v == 28) then set_byte sig recovery_id_offset (v - 27) else sig

abbrev pub recovered_address : Crypto → Option Text → Result Text
recovered_address crypto none = err bad_key
recovered_address crypto (some recovered) = ok (crypto.pubkey_to_address recovered)

-- The index of a signature that is too short is a panic.
abbrev pub recover_from : Crypto → Text → List ℕ → Option ℕ → Result Text
recover_from crypto msg sig none = stop panicked
recover_from crypto msg sig (some v) =
    recovered_address crypto (crypto.sig_to_pub (crypto.text_hash msg) (transform_v sig v))

abbrev pub recover_decoded : Crypto → Text → Option (List ℕ) → Result Text
recover_decoded crypto msg none = stop panicked
recover_decoded crypto msg (some sig) = recover_from crypto msg sig (byte_at sig recovery_id_offset)

-- `RecoverAddress`
unfoldable pub recover_address : Crypto → Text → Text → Result Text
recover_address crypto sig_hex msg = recover_decoded crypto msg (crypto.decode sig_hex)

-- `EvmTransactionRequestStatus`, of the signing service
pub data TxStatus : Type 0 where
  init in_progress submitted mined failed other : TxStatus

-- `GetTransactionHashResponseBody`
pub record TxState : Type 0 where
  pub tx_hash : Option Text
  pub status : Option TxStatus
  pub failed_reason : Option Error

pub record Receipt : Type 0 where
  pub tx_hash : Text
  pub logs : List ℕ

-- How the signing service answers a request: it was not reached, its answer was lost, or it has
-- answered, with an id unless it refuses.
pub data Answer : Type 0 where
  unreached lost : Answer
  answered : Option ℕ → Answer

-- The signing service and the node of the new chain, by the number of the call, and the rounds that the
-- context of a call leaves.
pub record Chain (Request : Type 0) : Type 0 where
  pub patience : ℕ
  pub create_request : Request → ℕ → Answer
  pub get_transaction_hash : ℕ → ℕ → Option TxState
  pub transaction_receipt : Text → ℕ → Option Receipt
  pub transaction_by_hash : Text → ℕ → Option Text

abbrev pub given : {A B T C : Type 0} → Option A → Exec T C B → (A → Exec T C B) → Exec T C B
given o no_value k = elim o [ none ↦ no_value | some a ↦ k a ]

module _ {T Request : Type 0} (chain : Chain Request) where
  -- `SignerClient.CreateEvmTransactionRequest`: a request whose answer is lost may have been taken.
  unfoldable pub create_evm_transaction_request : Request → Exec T (List Request) (Option ℕ)
  create_evm_transaction_request r w = elim (chain.create_request r w.tick) [
    | unreached ↦ (err rpc_error, record w { tick = suc w.tick })
    | lost ↦ (err rpc_error, record w { tick = suc w.tick; net = r ∷ w.net })
    | answered id ↦ (ok id, record w { tick = suc w.tick; net = r ∷ w.net })
  ]

  -- The switch of `AwaitTx`: `again` is the next round. It runs in a goroutine, where a nil pointer ends
  -- the process.
  abbrev pub poll_status :
      Exec T (List Request) Text → TxState → Option TxStatus → Exec T (List Request) Text
  poll_status again s none = halt crashed
  poll_status again s (some TxStatus.init) = again
  poll_status again s (some TxStatus.in_progress) = again
  poll_status again s (some TxStatus.submitted) = again
  poll_status again s (some TxStatus.mined) = given s.tx_hash (halt crashed) pure
  poll_status again s (some TxStatus.failed) = halt crashed
  poll_status again s (some TxStatus.other) = again

  -- The goroutine of `AwaitTx`, for the rounds that its context leaves.
  unfoldable pub poll_tx : ℕ → ℕ → Exec T (List Request) Text
  poll_tx zero id = raise context_done
  poll_tx (suc rounds) id =
      let again = poll_tx rounds id in
      check (outside (chain.get_transaction_hash id) rpc_error) raise
        λ s. given s.failed_reason (poll_status again s s.status) raise

  -- `AwaitTx`
  unfoldable pub await_tx : ℕ → Exec T (List Request) Receipt
  await_tx id =
      check (poll_tx chain.patience id) raise
        λ hash. outside (chain.transaction_receipt hash) rpc_error

  -- The common body of `NewBookNFT`, `TransferClass`, `MintNFTs`, `TransferNFT` and `TransferTo`: the
  -- hash of the transaction, and its receipt. To pack the arguments does not fail.
  unfoldable pub send : Request → Exec T (List Request) (Text × Receipt)
  send r = check (create_evm_transaction_request r) raise λ answer.
      given answer (halt nil_dereference) λ id. check (await_tx id) raise λ receipt.
        check (outside (chain.transaction_by_hash receipt.tx_hash) rpc_error) raise
          λ hash. pure (hash, receipt)
