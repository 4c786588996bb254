-- ===== src/Signer/Request/Idempotent.antt =====
-- One request for one call: idempotence and atomicity of `GetOrCreateTransactionRequest`.
-- (signer-backend/pkg/logic/get_or_create_transaction_request.go)
use likecoin_op.Base.{
  ℕ, ◌≡◌, inl, inr, refl, false, Option, some, ◌∷◌, find, arith, Text, Option-cases,
}
use likecoin_op.Exec.{exec, Error, ok, err, bump}
use likecoin_op.Signer.Model.{ContractCall, Tables, State, Env}
use likecoin_op.Signer.Db.{
  matches_filter, query_contract_call, insert_evm_transaction_request, insert_contract_call,
}
use likecoin_op.Signer.Db.Laws.{by_call, CallsUnique, find-none-any}
use likecoin_op.Signer.Request.{
  Call, new_request, new_call, create_transaction, get_or_create_transaction_request,
}

-- The row of the call.
abbrev pub stored : Call → Tables → Option ContractCall
stored c t = find (matches_filter (by_call c.contract_address c.method c.params_hex)) t.calls

-- The two ask for the same method of the same contract with the same parameters.
pub record SameCall (c d : Call) : Type 0 where
  pub contract_address : d.contract_address ≡ c.contract_address
  pub method : d.method ≡ c.method
  pub params_hex : d.params_hex ≡ c.params_hex

module _ (env : Env) (signer : Text) where
  -- What `createTransaction` has done when it returns: one request and one call were added.
  pub create_adds :
      (c : Call) (w v : State) {id : ℕ}
      → create_transaction env signer c w ≡ (ok id, v)
      → (id ≡ w.db.next_request)
        × (v.db.requests ≡ record (new_request env signer c) { id = id } ∷ w.db.requests)
        × (v.db.calls ≡ record (new_call env c id) { id = w.db.next_call } ∷ w.db.calls)
        × (v.net ≡ w.net)
  unfolding create_transaction insert_evm_transaction_request insert_contract_call exec
  create_adds c w v h = ground arith

  -- A call that fails leaves the tables as they were.
  pub create_atomic :
      (c : Call) (w v : State) {e : Error}
      → create_transaction env signer c w ≡ (err e, v)
      → (v.db ≡ w.db) × (v.net ≡ w.net)
  unfolding create_transaction insert_evm_transaction_request insert_contract_call exec
  create_atomic c w v h = ground arith

  stored_after :
      (c : Call) (w v : State) {id : ℕ}
      → get_or_create_transaction_request env signer c w ≡ (ok id, v)
      → (row : ContractCall) × (stored c v.db ≡ some row) × (row.evm_transaction_request_id ≡ id)
  unfolding get_or_create_transaction_request query_contract_call exec
  stored_after c w v {id} h = elim (Option-cases (stored c w.db)) [
    | inl fresh ↦ (
      record (new_call env c id) { id = w.db.next_call },
      ground (arith, create_adds c (bump w) v {id = id}),
      refl,
    )
    | inr (row, e) ↦ (row, ground arith, ground arith)
  ]

  -- Once a call has returned a request, the same method with the same parameters returns that
  -- request, from whatever address and with whatever data, and writes nothing: at every later state
  -- that has the same calls, if the one query goes through.
  pub get_or_create_again :
      (other : Text) (c d : Call) (w v u : State) {id : ℕ}
      → SameCall c d
      → get_or_create_transaction_request env signer c w ≡ (ok id, v)
      → u.db.calls ≡ v.db.calls
      → env.fault u.tick ≡ false
      → get_or_create_transaction_request env other d u ≡ (ok id, bump u)
  unfolding get_or_create_transaction_request query_contract_call exec
  get_or_create_again other c d w v u {id} same h calls ok_call =
      let (row, e, is_id) = stored_after c w v {id = id} h in
      let found : stored d u.db ≡ some row =
        rw (same.contract_address, same.method, same.params_hex, calls) e in
      ground (arith, found)

  -- A request that is answered by an error has changed no table and sent nothing.
  pub get_or_create_atomic :
      (c : Call) (w v : State) {x : Error}
      → get_or_create_transaction_request env signer c w ≡ (err x, v)
      → (v.db ≡ w.db) × (v.net ≡ w.net)
  unfolding get_or_create_transaction_request query_contract_call exec
  get_or_create_atomic c w v {x} h = ground (arith, create_atomic c (bump w) v {e = x})

  pub get_or_create-db_of_err :
      (c : Call) (w : State) {x : Error}
      → (get_or_create_transaction_request env signer c w).0 ≡ err x
      → (get_or_create_transaction_request env signer c w).1.db ≡ w.db
  get_or_create-db_of_err c w {x} e =
      (get_or_create_atomic c w _ {x = x}
        (λ i. (e i, (get_or_create_transaction_request env signer c w).1))).0

  -- The table of calls never holds two rows for one call.
  pub get_or_create-CallsUnique :
      (c : Call) (w : State)
      → CallsUnique w.db.calls
      → CallsUnique (get_or_create_transaction_request env signer c w).1.db.calls
  unfolding get_or_create_transaction_request query_contract_call create_transaction
      insert_evm_transaction_request insert_contract_call exec
  get_or_create-CallsUnique c w h =
      ground (arith, find-none-any c.contract_address c.method c.params_hex w.db.calls)
