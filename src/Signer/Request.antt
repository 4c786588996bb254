-- ===== src/Signer/Request.antt =====
-- Asking for a transaction: the same contract, method and parameters get the same request.
-- (signer-backend/pkg/logic/get_or_create_transaction_request.go,
-- signer-backend/pkg/handler/evmtransactionrequest)
pub mod Idempotent
pub mod Handler
use likecoin_op.Base.{ℕ, Bool, true, false, Option, none, some, List, [], ◌∷◌, if◌then◌else◌, Text}
use likecoin_op.Exec.{
  Error, no_rows, Exec, pure, raise, check, db_call, begin_tx, commit, rollback, error_of, ◌>>=◌,
  ◌>>◌,
}
use likecoin_op.Signer.Model.{init, EvmTransactionRequest, ContractCall, Tables, Action, State, Env}
use likecoin_op.Signer.Db.{
  query_contract_call, insert_evm_transaction_request, insert_contract_call,
}

-- What a caller asks for: the arguments of `GetOrCreateTransactionRequest`, the addresses in their
-- checksummed form and the data in hexadecimal.
pub record Call : Type 0 where
  pub contract_address : Text
  pub method : Text
  pub params_hex : Text
  pub call_data_hex : Text

-- `errors.Is(err, sql.ErrNoRows)`
abbrev pub is_no_rows : Error → Bool
is_no_rows no_rows = true
is_no_rows _ = false

module _ (env : Env) where
  -- The row that `createTransaction` inserts; it leaves `Method` and `ParamsHex` empty.
  abbrev pub new_request : Text → Call → EvmTransactionRequest
  new_request signer c = record {
    id = 0;
    status = init;
    signer_address = signer;
    to_address = c.contract_address;
    amount = 0;
    method = none;
    params_hex = none;
    call_data_hex = c.call_data_hex;
    gas_limit = none;
    gas_price = none;
    nonce = none;
    signed_tx_hash = none;
    submitted_at = none;
    block_hash = none;
    receipt_status = none;
    failed_reason = none;
  }

  abbrev pub new_call : Call → ℕ → ContractCall
  new_call c id = record {
    id = 0;
    contract_address = c.contract_address;
    method = c.method;
    params_hex = c.params_hex;
    evm_transaction_request_id = id;
  }

  -- A return under the deferred `tx.Rollback()`.
  abbrev pub fail_tx : Tables → Error → Action ℕ
  fail_tx before e = error_of (rollback env.fault before) >> raise e

  -- `createTransaction`
  unfoldable pub create_transaction : Text → Call → Action ℕ
  create_transaction signer c = check (begin_tx env.fault) raise λ before.
      check (db_call env.fault (insert_evm_transaction_request (new_request signer c)))
        (fail_tx before)
        λ r.
          check (db_call env.fault (insert_contract_call (new_call c r.id))) (fail_tx before)
            λ _. check (commit env.fault before) (fail_tx before) λ _. pure r.id

  -- `GetOrCreateTransactionRequest`
  unfoldable pub get_or_create_transaction_request : Text → Call → Action ℕ
  get_or_create_transaction_request signer c =
      check
        (db_call env.fault (
          query_contract_call (record {
            id = none;
            contract_address = some c.contract_address;
            method = some c.method;
            params_hex = some c.params_hex;
            evm_transaction_request_id = none;
          })))
        (λ e. if is_no_rows e then create_transaction signer c else raise e)
        λ found. pure found.evm_transaction_request_id
