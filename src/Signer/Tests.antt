-- ===== src/Signer/Tests.antt =====
-- The signing service run on a small world: one key, a node that answers, and two calls.
-- (signer-backend)
use likecoin_op.Base.{
  ℕ, ◌≡◌, refl, true, false, Option, none, some, List, [], ◌∷◌, ◌==◌, map, any, suc, Text, ◌≢◌,
}
use likecoin_op.Exec.{exec, ok, rpc_error, bump, tx_failed, db_error}
use likecoin_op.Signer.Model.{
  EvmTransactionRequest, Broadcast, accepted, lost, Transaction, Receipt, State, Env,
}
use likecoin_op.Signer.Db.Laws.{CallsUnique}
use likecoin_op.Signer.Evm.Nonces.{sign-IsAbove, IsAbove}
use likecoin_op.Signer.Evm.{
  get_nonce_availability, poll_nonce, await_available_nonce, sign, transact, poll_sent_nonce,
  await_nonce, poll_receipt, await_tx,
}
use likecoin_op.Signer.Await.{
  mark, mark_and_remove_nonce, mark_mined, mark_failed, await_receipt, broadcast, commit_request,
  store_request, store_nonce, init_transaction, await_submitted, read_mined, dispatch,
  await_transaction,
}
use likecoin_op.Signer.Await.Safe.{SentOnce, is_confirmed}
use likecoin_op.Signer.Db.{
  query_evm_transaction_request, insert_evm_transaction_request, update_evm_transaction_request,
  query_latest_nonce, insert_transaction_nonce, delete_transaction_nonce, query_contract_call,
  insert_contract_call, is_nonce_of,
}
use likecoin_op.Signer.Await.Lifecycle.{row, mark_outcome, await_receipt-mined, Settled}
use likecoin_op.Signer.Request.{
  Call, create_transaction, get_or_create_transaction_request, new_request,
}
use likecoin_op.Signer.Request.Idempotent.{
  get_or_create_again, get_or_create_atomic, get_or_create-CallsUnique,
}
use likecoin_op.Signer.Request.Handler.{
  CreateRequestBody, CreateResponse, GetTxHashResponse, create_handler, create_handler_response,
  created, get_tx_hash_handler, hash_found,
}
use likecoin_op.Signer.Service.{Op, ask, wait, start, step, serve, serve_nonces}

abbrev receipt : Receipt
receipt = record { status = 1; block_hash = 55 }

abbrev known : Transaction
known = record {
  from = 8;
  nonce = 0;
  to = 20;
  value = 0;
  gas = 21;
  gas_price = 3;
  data_bytes = 40;
  hash = 99;
}

-- The pending nonce is the number of the call: it grows, and no nonce comes twice.
abbrev env : Env
env = record {
  fault = λ _. false;
  decode_hex = λ t. some t;
  encode_hex = λ t. t;
  checksum = λ t. t;
  parse_uint = λ t. some t;
  private_key = some 7;
  address_of = λ k. suc k;
  chain_id = λ _. some 10;
  pending_nonce = λ t. some t;
  suggest_gas_price = λ _. some 3;
  pending_code_size = λ _. some 1;
  estimate_gas = λ _. some 21;
  sign = λ _ tx. some 99;
  send = λ _. accepted;
  transaction_by_hash = λ _. some known;
  sender = λ _. some 8;
  receipt = λ _. some receipt;
  nonce_at = λ t. some t;
  now = λ t. t;
  patience = 3;
}

-- The first statement fails.
abbrev failing : Env
failing = record env { fault = λ t. t == 0 }

abbrev call_a : Call
call_a = record { contract_address = 20; method = 1; params_hex = 30; call_data_hex = 40 }

abbrev call_b : Call
call_b = record { contract_address = 20; method = 2; params_hex = 31; call_data_hex = 41 }

abbrev ops : List Op
ops = ask call_a ∷ ask call_b ∷ wait 1 ∷ wait 2 ∷ wait 1 ∷ []

-- Named on an `unfolding` line, it opens the whole service.
unfoldable running : Unit {0}
unfolding exec step serve get_or_create_transaction_request create_transaction create_handler
    get_tx_hash_handler await_transaction dispatch read_mined await_submitted init_transaction
    store_nonce store_request commit_request broadcast await_receipt mark mark_and_remove_nonce
    await_tx poll_receipt await_nonce poll_sent_nonce transact sign await_available_nonce poll_nonce
    get_nonce_availability query_evm_transaction_request insert_evm_transaction_request
    update_evm_transaction_request query_latest_nonce insert_transaction_nonce
    delete_transaction_nonce query_contract_call insert_contract_call
running = tt

two_sent : map (λ (b : Broadcast). b.transaction.nonce) (serve env 7 ops start).net ≡ 33 ∷ 14 ∷ []
unfolding running
two_sent = refl

-- The answers are lost: the nonce is removed each time, and the next attempt takes it again.
abbrev cut_off : Env
cut_off = record env { send = λ _. lost; pending_nonce = λ _. some 5 }

reused :
    map
      (λ (b : Broadcast). b.transaction.nonce)
      (serve cut_off 7 (ask call_a ∷ wait 1 ∷ wait 1 ∷ []) start).net
    ≡ 5 ∷ 5 ∷ []
unfolding running
reused = refl

serve_nonces_example :
    SentOnce (serve env 7 ops start).net
    × ((from : Text) (nonce : ℕ)
        → is_confirmed from nonce (serve env 7 ops start).net ≡ true
        → any (is_nonce_of from nonce) (serve env 7 ops start).db.nonces ≡ true)
serve_nonces_example = serve_nonces env 7 refl ops

abbrev asked : State
asked = serve env 7 (ask call_a ∷ []) start

abbrev awaited : State
awaited = serve env 7 (wait 1 ∷ []) asked

get_or_create_again_example :
    get_or_create_transaction_request env 9 call_a awaited ≡ (ok 1, bump awaited)
unfolding running
get_or_create_again_example =
    get_or_create_again env 8 9 call_a call_a start asked awaited {id = 1}
      (record { contract_address = refl; method = refl; params_hex = refl }) refl refl refl

get_or_create_atomic_example : ((bump start).db ≡ start.db) × ((bump start).net ≡ start.net)
unfolding running
get_or_create_atomic_example =
    get_or_create_atomic failing 8 call_a start (bump start) {x = db_error} refl

get_or_create-CallsUnique_example :
    CallsUnique (get_or_create_transaction_request env 8 call_a start).1.db.calls
get_or_create-CallsUnique_example = get_or_create-CallsUnique env 8 call_a start tt

abbrev request_1 : EvmTransactionRequest
request_1 = record (new_request env 8 call_a) { id = 1 }

abbrev receipt_end : State
receipt_end = (await_receipt env request_1 known asked).1

await_receipt-mined_example :
    (known ≡ known)
    × (receipt.status ≢ 0)
    × (row 1 receipt_end.db ≡ some (mark_mined env request_1 receipt))
unfolding running
await_receipt-mined_example =
    await_receipt-mined env request_1 known asked receipt_end {got = (known, receipt)} refl

mark_outcome_example : Settled request_1 rpc_error asked (mark env (some request_1) rpc_error asked)
mark_outcome_example = mark_outcome env request_1 rpc_error asked

abbrev row_or : Option EvmTransactionRequest → EvmTransactionRequest
row_or (some r) = r
row_or none = request_1

abbrev signed : Transaction
signed = record known { nonce = 10; data_bytes = 40 }

abbrev in_hand : State
in_hand = record asked { tick = 9 }

sign-IsAbove_example : (signed.from ≡ env.address_of 7) × IsAbove 8 signed.nonce in_hand
unfolding running
sign-IsAbove_example = sign-IsAbove env 20 40 7 0 in_hand {tx = signed} refl refl

abbrev body : CreateRequestBody
body = record { contract_address = 20; method = 1; params_hex = 30; data_hex = 40 }

abbrev response : CreateResponse
response = created 1

create_handler_response_example :
    (response.awaited ≡ response.transaction_id)
    × (response.transaction_id ≡ none
        → (response.error_description ≢ none)
          × (response.status_code ≢ 200)
          × (asked.db ≡ start.db))
    × (response.transaction_id ≢ none
        → (response.error_description ≡ none) × (response.status_code ≡ 200))
unfolding running
create_handler_response_example =
    create_handler_response env (ok body) start asked {response = response} refl

abbrev failed_1 : EvmTransactionRequest
failed_1 = mark_failed request_1 tx_failed

abbrev given_up : State
given_up = record asked { db = record asked.db { requests = failed_1 ∷ [] } }

abbrev shown : GetTxHashResponse
shown = hash_found failed_1 (some tx_failed)
