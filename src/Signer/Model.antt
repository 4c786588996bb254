-- ===== src/Signer/Model.antt =====
-- The rows of the signing service and its world. (signer-backend/pkg/model,
-- signer-backend/migrations)
use likecoin_op.Base.{ℕ, Bool, true, false, Option, List, Text}
use likecoin_op.Exec.{Error, Exec, World}

-- `EvmTransactionRequestStatus`; the column is a free text, so there are other values.
pub data Status : Type 0 where
  init in_progress submitted mined failed other : Status

pub record EvmTransactionRequest : Type 0 where
  pub id : ℕ
  pub status : Status
  pub signer_address : Text
  pub to_address : Text
  pub amount : ℕ
  pub method : Option Text
  pub params_hex : Option Text
  pub call_data_hex : Text
  pub gas_limit : Option ℕ
  pub gas_price : Option ℕ
  pub nonce : Option ℕ
  pub signed_tx_hash : Option Text
  pub submitted_at : Option ℕ
  pub block_hash : Option Text
  pub receipt_status : Option ℕ
  pub failed_reason : Option Error

pub record TransactionNonce : Type 0 where
  pub id : ℕ
  pub eth_address : Text
  pub nonce : ℕ
  pub evm_transaction_request_id : ℕ

pub record ContractCall : Type 0 where
  pub id : ℕ
  pub contract_address : Text
  pub method : Text
  pub params_hex : Text
  pub evm_transaction_request_id : ℕ

-- The three tables, the newest row first, each with the next value of its SERIAL column.
pub record Tables : Type 0 where
  pub requests : List EvmTransactionRequest
  pub nonces : List TransactionNonce
  pub calls : List ContractCall
  pub next_request : ℕ
  pub next_nonce : ℕ
  pub next_call : ℕ

-- A signed Ethereum transaction (go-ethereum `types.Transaction`).
pub record Transaction : Type 0 where
  pub from : Text
  pub nonce : ℕ
  pub to : Text
  pub value : ℕ
  pub gas : ℕ
  pub gas_price : ℕ
  pub data_bytes : Text
  pub hash : Text

pub record Receipt : Type 0 where
  pub status : ℕ
  pub block_hash : Text

-- How a broadcast ends: the node has not taken the transaction, it has taken it and the answer was lost, or
-- it has answered that it has taken it.
pub data Delivery : Type 0 where
  refused lost accepted : Delivery

-- A transaction that the network has taken, and whether the service was told.
pub record Broadcast : Type 0 where
  pub transaction : Transaction
  pub confirmed : Bool

-- The transactions that the network has taken, the newest first.
abbrev pub Network : Type 0
Network = List Broadcast

abbrev pub Action : Type 0 → Type 0
Action A = Exec Tables Network A

abbrev pub State : Type 0
State = World Tables Network

-- What the environment answers to the call with a given number: whether the database fails, and the
-- answer of each RPC method, `none` for an error.
pub record Env : Type 0 where
  pub fault : ℕ → Bool
  pub decode_hex : Text → Option Text
  pub encode_hex : Text → Text
  pub checksum : Text → Text
  pub parse_uint : Text → Option ℕ
  pub private_key : Option Text
  pub address_of : Text → Text
  pub chain_id : ℕ → Option ℕ
  pub pending_nonce : ℕ → Option ℕ
  pub suggest_gas_price : ℕ → Option ℕ
  pub pending_code_size : ℕ → Option ℕ
  pub estimate_gas : ℕ → Option ℕ
  pub sign : Text → Transaction → Option Text
  pub send : ℕ → Delivery
  pub transaction_by_hash : ℕ → Option Transaction
  pub sender : Transaction → Option Text
  pub receipt : ℕ → Option Receipt
  pub nonce_at : ℕ → Option ℕ
  pub now : ℕ → ℕ
  -- The number of polls of a waiting loop before its context is done.
  pub patience : ℕ

abbrev pub is_init_or_failed : Status → Bool
is_init_or_failed init = true
is_init_or_failed failed = true
is_init_or_failed _ = false

abbrev pub is_submitted : Status → Bool
is_submitted submitted = true
is_submitted _ = false

abbrev pub is_mined : Status → Bool
is_mined mined = true
is_mined _ = false
