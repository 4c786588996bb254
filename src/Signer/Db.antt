-- ===== src/Signer/Db.antt =====
-- The statements that the signing service sends to its database, as functions on the tables.
-- (signer-backend/pkg/db; the constraints are those of signer-backend/migrations)
pub mod Laws
use likecoin_op.Base.{
  ℕ, suc, Bool, true, false, not, ◌&&◌, Option, none, some, List, [], ◌∷◌, ◌==◌, leb, if◌then◌else◌,
  find, any, keep, replace, Text,
}
use likecoin_op.Exec.{
  Result, ok, err, no_rows, unique_violation, check_violation, request_not_found,
}
use likecoin_op.Signer.Model.{EvmTransactionRequest, TransactionNonce, ContractCall, Tables}

abbrev pub or_no_rows : {A : Type 0} → Option A → Result A
or_no_rows none = err no_rows
or_no_rows (some a) = ok a

-- An absent filter field matches every row.
abbrev pub eq_opt : Option ℕ → ℕ → Bool
eq_opt none x = true
eq_opt (some a) x = a == x

-- `CHECK (column > 0)` holds of NULL.
abbrev pub positive_opt : Option ℕ → Bool
positive_opt none = true
positive_opt (some n) = leb 1 n

-- The CHECK constraints of `evm_transaction_request`.
abbrev pub request_checks : EvmTransactionRequest → Bool
request_checks r = positive_opt r.gas_limit && positive_opt r.nonce

-- `QueryEvmTransactionRequest`
unfoldable pub query_evm_transaction_request :
    Option ℕ → Tables → Result EvmTransactionRequest × Tables
query_evm_transaction_request id t =
    (or_no_rows (find (λ (r : EvmTransactionRequest). eq_opt id r.id) t.requests), t)

-- `InsertEvmTransactionRequest`
unfoldable pub insert_evm_transaction_request :
    EvmTransactionRequest → Tables → Result EvmTransactionRequest × Tables
insert_evm_transaction_request r t =
    let row = record r { id = t.next_request } in
    if request_checks r
    then (ok row, record t { requests = row ∷ t.requests; next_request = suc t.next_request })
    else (err check_violation, t)

-- `UpdateEvmTransactionRequest`
unfoldable pub update_evm_transaction_request :
    EvmTransactionRequest → Tables → Result EvmTransactionRequest × Tables
update_evm_transaction_request r t =
    let same = λ (q : EvmTransactionRequest). q.id == r.id in
    if any same t.requests
    then (if request_checks r
        then (ok r, record t { requests = replace same (λ _. r) t.requests })
        else (err check_violation, t))
    else (err request_not_found, t)

-- `QueryLatestNonce`: the newest row of the address; `none` where there is no row.
unfoldable pub query_latest_nonce : Text → Tables → Result (Option ℕ) × Tables
query_latest_nonce eth_address t = (
  elim (find (λ (n : TransactionNonce). n.eth_address == eth_address) t.nonces) [
    | none ↦ ok none
    | some n ↦ ok (some n.nonce)
  ],
  t,
)

abbrev pub is_nonce_of : Text → ℕ → TransactionNonce → Bool
is_nonce_of eth_address nonce n = (n.eth_address == eth_address) && (n.nonce == nonce)

-- `InsertTransactionNonce`, under `UNIQUE (eth_address, nonce)` and `CHECK (nonce > 0)`
unfoldable pub insert_transaction_nonce :
    TransactionNonce → Tables → Result TransactionNonce × Tables
insert_transaction_nonce n t =
    let row = record n { id = t.next_nonce } in
    if leb 1 n.nonce
    then (if any (is_nonce_of n.eth_address n.nonce) t.nonces
        then (err unique_violation, t)
        else (ok row, record t { nonces = row ∷ t.nonces; next_nonce = suc t.next_nonce }))
    else (err check_violation, t)

-- `DeleteTransactionNonce`
unfoldable pub delete_transaction_nonce : TransactionNonce → Tables → Result (Unit {0}) × Tables
delete_transaction_nonce n t =
    (ok tt, record t { nonces = keep (λ (m : TransactionNonce). not (m.id == n.id)) t.nonces })

pub record QueryContractCallFilter : Type 0 where
  pub id : Option ℕ
  pub contract_address : Option Text
  pub method : Option Text
  pub params_hex : Option Text
  pub evm_transaction_request_id : Option ℕ

-- `makeQueryContractCallWhereClauseFromFilter`: the conditions are joined by AND.
abbrev pub matches_filter : QueryContractCallFilter → ContractCall → Bool
matches_filter f c =
    eq_opt f.id c.id
    && (eq_opt f.contract_address c.contract_address
        && (eq_opt f.method c.method
            && (eq_opt f.params_hex c.params_hex
                && eq_opt f.evm_transaction_request_id c.evm_transaction_request_id)))

-- `QueryContractCall`
unfoldable pub query_contract_call : QueryContractCallFilter → Tables → Result ContractCall × Tables
query_contract_call f t = (or_no_rows (find (matches_filter f) t.calls), t)

abbrev pub is_call_of : Text → Text → Text → ContractCall → Bool
is_call_of contract_address method params_hex c =
    (c.contract_address == contract_address)
    && ((c.method == method) && (c.params_hex == params_hex))

-- `InsertContractCall`, under `UNIQUE (contract_address, method, params_hex)`
unfoldable pub insert_contract_call : ContractCall → Tables → Result ContractCall × Tables
insert_contract_call c t =
    let row = record c { id = t.next_call } in
    if any (is_call_of c.contract_address c.method c.params_hex) t.calls
    then (err unique_violation, t)
    else (ok row, record t { calls = row ∷ t.calls; next_call = suc t.next_call })

-- `DeleteContractCall`
unfoldable pub delete_contract_call : ContractCall → Tables → Result (Unit {0}) × Tables
delete_contract_call c t =
    (ok tt, record t { calls = keep (λ (d : ContractCall). not (d.id == c.id)) t.calls })
