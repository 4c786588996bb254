-- ===== src/Signer/Service.antt =====
-- The whole signing service: any sequence of requests and of waits for them, whatever the database and
-- the node answer. (signer-backend/pkg/handler/evmtransactionrequest, signer-backend/pkg/logic)
use likecoin_op.Base.{ℕ, ◌≡◌, true, some, List, [], ◌∷◌, any, arith, Text}
use likecoin_op.Exec.{exec}
use likecoin_op.Signer.Model.{Tables, State, Env}
use likecoin_op.Signer.Db.{
  is_nonce_of, query_contract_call, insert_evm_transaction_request, insert_contract_call,
}
use likecoin_op.Signer.Await.{await_transaction}
use likecoin_op.Signer.Await.Safe.{IsSafe, SentOnce, is_confirmed}
use likecoin_op.Signer.Await.Nonces.{await_transaction-IsSafe}
use likecoin_op.Signer.Request.{Call, create_transaction, get_or_create_transaction_request}

-- What a client makes the service do: ask for a call, or wait for a request.
pub data Op : Type 0 where
  ask : Call → Op
  wait : ℕ → Op

abbrev pub no_tables : Tables
no_tables = record {
  requests = [];
  nonces = [];
  calls = [];
  next_request = 1;
  next_nonce = 1;
  next_call = 1;
}

abbrev pub start : State
start = record { tick = 0; db = no_tables; net = [] }

module _ (env : Env) (key : Text) where
  unfoldable pub step : Op → State → State
  step (ask c) w = (get_or_create_transaction_request env (env.address_of key) c w).1
  step (wait id) w = (await_transaction env id w).1

  unfoldable pub serve : List Op → State → State
  serve [] w = w
  serve (op ∷ ops) w = serve ops (step op w)

  ask-IsSafe :
      (c : Call) (w : State)
      → IsSafe (env.address_of key) w
      → IsSafe
          (env.address_of key)
          (get_or_create_transaction_request env (env.address_of key) c w).1
  unfolding get_or_create_transaction_request query_contract_call create_transaction
      insert_evm_transaction_request insert_contract_call exec
  ask-IsSafe c w h = ground arith

  module _ (has_key : env.private_key ≡ some key) where
    step-IsSafe :
        (op : Op) (w : State)
        → IsSafe (env.address_of key) w
        → IsSafe (env.address_of key) (step op w)
    unfolding step
    step-IsSafe (ask c) w h = ask-IsSafe c w h
    step-IsSafe (wait id) w h = (await_transaction-IsSafe env key has_key id).at w h

    serve-IsSafe :
        (ops : List Op) (w : State)
        → IsSafe (env.address_of key) w
        → IsSafe (env.address_of key) (serve ops w)
    unfolding serve
    serve-IsSafe [] w h = h
    serve-IsSafe (op ∷ ops) w h = serve-IsSafe ops (step op w) (step-IsSafe op w h)

    start-IsSafe : IsSafe (env.address_of key) start
    start-IsSafe = record { recorded = λ from nonce s. cc; once = tt; below = tt; own = tt }

    -- From empty tables, whatever clients ask and wait for one after the other, and whatever the
    -- database and the node answer: a transaction that the network takes never has the sender and the
    -- nonce of an earlier one whose broadcast was answered without an error, and the nonces of those are
    -- all stored. Nothing is said of reusing the nonce of one that was taken while its answer was lost.
    pub serve_nonces :
        (ops : List Op)
        → SentOnce (serve ops start).net
          × ((from : Text) (nonce : ℕ)
              → is_confirmed from nonce (serve ops start).net ≡ true
              → any (is_nonce_of from nonce) (serve ops start).db.nonces ≡ true)
    serve_nonces ops = let h = serve-IsSafe ops start start-IsSafe in (h.once, h.recorded)
