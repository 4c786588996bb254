-- ===== src/Signer/Request/Handler.antt =====
-- The two HTTP handlers of the signing service; a body that is no JSON is `none`.
-- (signer-backend/pkg/handler/evmtransactionrequest)
use likecoin_op.Base.{
  ℕ, ◌≡◌, ◌≢◌, Bool, true, false, Option, none, some, List, [], ◌∷◌, arith, if◌then◌else◌, Text,
}
use likecoin_op.Exec.{
  exec, Error, Result, ok, err, stop, bad_hex, bad_number, pure, check, db_call, halt, panicked,
}
use likecoin_op.Signer.Model.{Status, failed, EvmTransactionRequest, Action, State, Env}
use likecoin_op.Signer.Db.{query_evm_transaction_request}
use likecoin_op.Signer.Evm.{signer_address}
use likecoin_op.Signer.Request.{get_or_create_transaction_request}
use likecoin_op.Signer.Request.Idempotent.{get_or_create-db_of_err}

pub record CreateRequestBody : Type 0 where
  pub contract_address : Text
  pub method : Text
  pub params_hex : Text
  pub data_hex : Text

-- The response, and the request that is awaited in the background afterwards.
pub record CreateResponse : Type 0 where
  pub status_code : ℕ
  pub transaction_id : Option ℕ
  pub error_description : Option Error
  pub awaited : Option ℕ

abbrev pub create_error : ℕ → Error → CreateResponse
create_error code e = record {
  status_code = code;
  transaction_id = none;
  error_description = some e;
  awaited = none;
}

abbrev pub created : ℕ → CreateResponse
created id = record {
  status_code = 200;
  transaction_id = some id;
  error_description = none;
  awaited = some id;
}

module _ (env : Env) where
  abbrev pub with_data : Text → (Text → Action CreateResponse) → Action CreateResponse
  with_data hex k = elim (env.decode_hex hex) [
    | none ↦ pure (create_error 400 bad_hex)
    | some bytes ↦ k bytes
  ]

  -- `CreateHandler.ServeHTTP`
  unfoldable pub create_handler : Result CreateRequestBody → Action CreateResponse
  create_handler (err e) = pure (create_error 400 e)
  create_handler (stop s) = halt s
  create_handler (ok body) = with_data body.data_hex λ bytes.
      check (signer_address env) (λ e. pure (create_error 500 e))
        λ from.
          check
            (get_or_create_transaction_request env from (record {
              contract_address = env.checksum body.contract_address;
              method = body.method;
              params_hex = body.params_hex;
              call_data_hex = env.encode_hex bytes;
            }))
            (λ e. pure (create_error 500 e)) λ id. pure (created id)

  -- The request that a response names is the one that is awaited in the background. A response that
  -- names none has an error and a status other than 200, and no table was changed; one that names a
  -- request has status 200 and no error.
  pub create_handler_response :
      (body : Result CreateRequestBody) (w v : State) {response : CreateResponse}
      → create_handler body w ≡ (ok response, v)
      → (response.awaited ≡ response.transaction_id)
        × (response.transaction_id ≡ none
            → (response.error_description ≢ none) × (response.status_code ≢ 200) × (v.db ≡ w.db))
        × (response.transaction_id ≢ none
            → (response.error_description ≡ none) × (response.status_code ≡ 200))
  unfolding create_handler exec
  create_handler_response (err e) w v h = (ground arith, λ n. ground arith, λ n. ground arith)
  create_handler_response (stop s) w v h = cc
  create_handler_response (ok body) w v h =
      (ground arith, λ n. grind (arith, get_or_create-db_of_err env), λ n. ground arith)

-- The response body of `GetTxHashHandler`.
pub record GetTxHashResponse : Type 0 where
  pub status_code : ℕ
  pub tx_hash : Option Text
  pub status : Option Status
  pub failed_reason : Option Error
  pub error_description : Option Error

abbrev pub last_but_one : List Text → Option Text
last_but_one [] = none
last_but_one (p ∷ []) = none
last_but_one (p ∷ q ∷ []) = some p
last_but_one (p ∷ q ∷ r ∷ ps) = last_but_one (q ∷ r ∷ ps)

abbrev pub is_failed : Status → Bool
is_failed failed = true
is_failed _ = false

abbrev pub hash_error : ℕ → Error → GetTxHashResponse
hash_error code e = record {
  status_code = code;
  tx_hash = none;
  status = none;
  failed_reason = none;
  error_description = some e;
}

abbrev pub hash_found : EvmTransactionRequest → Option Error → GetTxHashResponse
hash_found r reason = record {
  status_code = 200;
  tx_hash = r.signed_tx_hash;
  status = some r.status;
  failed_reason = reason;
  error_description = none;
}

module _ (env : Env) where
  -- The two last branches of `GetTxHashHandler.ServeHTTP` send the same.
  abbrev pub hash_response : EvmTransactionRequest → GetTxHashResponse
  hash_response r = if is_failed r.status then hash_found r r.failed_reason else hash_found r none

  -- `GetTxHashHandler.ServeHTTP`, by the parts of the path between its slashes
  unfoldable pub get_tx_hash_handler : List Text → Action GetTxHashResponse
  get_tx_hash_handler path = elim (last_but_one path) [
    | none ↦ halt panicked
    | some part ↦ elim (env.parse_uint part) [
      | none ↦ pure (hash_error 400 bad_number)
      | some id ↦
          check (db_call env.fault (query_evm_transaction_request (some id)))
            (λ e. pure (hash_error 500 e)) (λ r. pure (hash_response r))
    ]
  ]

  -- A response shows a reason just for a request that has failed: the reason that a retried request
  -- keeps from an earlier failure is not shown. Reading changes nothing.
  pub get_tx_hash_reason :
      (path : List Text) (w v : State) {response : GetTxHashResponse}
      → get_tx_hash_handler path w ≡ (ok response, v)
      → response.failed_reason ≢ none
      → (response.status ≡ some failed) × (response.status_code ≡ 200) × (v.db ≡ w.db)
  unfolding get_tx_hash_handler query_evm_transaction_request exec
  get_tx_hash_reason path w v h f = ground arith
