-- ===== src/Ethereum/Quiet.antt =====
-- A call of the new chain leaves the tables alone. (migration-backend/pkg/ethereum)
use likecoin_op.Base.{
  ℕ, suc, zero, ◌≡◌, refl, ap, sym, ◌∙◌, ◌⊎◌, inl, inr, Option, none, some, List, ◌∷◌, arith, Text,
}
use likecoin_op.Exec.{
  exec, Error, Exec, World, Result, ok, rpc_error, context_done, nil_dereference, crashed, check,
  raise, pure, outside, halt,
}
use likecoin_op.Exec.Frame.{
  Frame, Keeps, Keeps-pure, Keeps-raise, Keeps-halt, Keeps-outside, Keeps-check,
}
use mathlib.Core.Path.{subst}
use likecoin_op.Exec.Steps.{check-eq-ok, check-cases}
use likecoin_op.Ethereum.{
  Chain, Answer, unreached, lost, answered, TxStatus, TxState, Receipt, given,
  create_evm_transaction_request, poll_status, poll_tx, await_tx, send,
}

-- The tables stay as they are.
abbrev pub SameDb : {T C : Type 0} → World T C → World T C → Type 0
SameDb w v = v.db ≡ w.db

pub same_db : {T C : Type 0} → Frame {T = T} {C = C} SameDb
same_db = record { same = λ w. refl; trans = λ u v w p q. q ∙ p; tick = λ w. refl }

pub Keeps-given :
    {A B T C : Type 0} {R : World T C → World T C → Type 0} (F : Frame R) (o : Option A)
    (n : Exec T C B) (k : A → Exec T C B)
    → Keeps R n
    → ((a : A) → Keeps R (k a))
    → Keeps R (given o n k)
Keeps-given F none n k kn kk = kn
Keeps-given F (some a) n k kn kk = kk a

-- Where neither the request nor the answer is looked at, more than the tables stays.
module _ {T Request : Type 0} (chain : Chain Request)
    {R : World T (List Request) → World T (List Request) → Type 0} (F : Frame R) where
  poll_status-Keeps :
      (again : Exec T (List Request) Text) (s : TxState) (status : Option TxStatus)
      → Keeps R again
      → Keeps R (poll_status chain again s status)
  poll_status-Keeps again s none k = Keeps-halt F crashed
  poll_status-Keeps again s (some TxStatus.init) k = k
  poll_status-Keeps again s (some TxStatus.in_progress) k = k
  poll_status-Keeps again s (some TxStatus.submitted) k = k
  poll_status-Keeps again s (some TxStatus.mined) k =
      Keeps-given F s.tx_hash (halt crashed) pure (Keeps-halt F crashed) (Keeps-pure F)
  poll_status-Keeps again s (some TxStatus.failed) k = Keeps-halt F crashed
  poll_status-Keeps again s (some TxStatus.other) k = k

  poll_tx-Keeps : (rounds id : ℕ) → Keeps R (poll_tx chain rounds id)
  unfolding poll_tx
  poll_tx-Keeps zero id = Keeps-raise F context_done
  poll_tx-Keeps (suc rounds) id =
      Keeps-check F (outside (chain.get_transaction_hash id) rpc_error) raise _
        (Keeps-outside F (chain.get_transaction_hash id) rpc_error) (Keeps-raise F)
        λ s.
          Keeps-given F s.failed_reason (poll_status chain (poll_tx chain rounds id) s s.status)
            raise (poll_status-Keeps (poll_tx chain rounds id) s s.status (poll_tx-Keeps rounds id))
            (Keeps-raise F)

  pub await_tx-Keeps : (id : ℕ) → Keeps R (await_tx chain id)
  unfolding await_tx
  await_tx-Keeps id =
      Keeps-check F (poll_tx chain chain.patience id) raise _ (poll_tx-Keeps chain.patience id)
        (Keeps-raise F) λ hash. Keeps-outside F (chain.transaction_receipt hash) rpc_error

  -- Sending keeps what asking for the transaction keeps.
  pub send-Keeps :
      (r : Request) → Keeps R (create_evm_transaction_request chain r) → Keeps R (send chain r)
  unfolding send
  send-Keeps r asked =
      Keeps-check F (create_evm_transaction_request chain r) raise _ asked (Keeps-raise F) λ answer.
        Keeps-given F answer (halt nil_dereference) _ (Keeps-halt F nil_dereference) λ id.
          Keeps-check F (await_tx chain id) raise _ (await_tx-Keeps id) (Keeps-raise F) λ receipt.
            Keeps-check F (outside (chain.transaction_by_hash receipt.tx_hash) rpc_error) raise _
              (Keeps-outside F (chain.transaction_by_hash receipt.tx_hash) rpc_error)
              (Keeps-raise F) (λ hash. Keeps-pure F (hash, receipt))

-- Nothing is sent.
abbrev pub SameNet : {T C : Type 0} → World T C → World T C → Type 0
SameNet w v = v.net ≡ w.net

pub same_net : {T C : Type 0} → Frame {T = T} {C = C} SameNet
same_net = record { same = λ w. refl; trans = λ u v w p q. q ∙ p; tick = λ w. refl }

module _ {T Request : Type 0} (chain : Chain Request) where
  pub create-SameDb : (r : Request) → Keeps {T = T} SameDb (create_evm_transaction_request chain r)
  unfolding create_evm_transaction_request
  create-SameDb r = record { at = λ w. ground arith }

  pub send-SameDb : (r : Request) → Keeps {T = T} SameDb (send chain r)
  send-SameDb r = send-Keeps chain same_db r (create-SameDb r)

  create-net :
      (r : Request) (w v : World T (List Request)) {answer : Option ℕ}
      → create_evm_transaction_request chain r w ≡ (ok answer, v)
      → v.net ≡ r ∷ w.net
  unfolding create_evm_transaction_request
  create-net r w v h = ground arith

  create-net-cases :
      (r : Request) (w v : World T (List Request)) {x : Result (Option ℕ)}
      → create_evm_transaction_request chain r w ≡ (x, v)
      → (v.net ≡ w.net) ⊎ (v.net ≡ r ∷ w.net)
  unfolding create_evm_transaction_request
  create-net-cases r w v h = go (chain.create_request r w.tick) refl
    where
      go : (o : Answer) → chain.create_request r w.tick ≡ o → (v.net ≡ w.net) ⊎ (v.net ≡ r ∷ w.net)
      go unreached e = inl (ground (arith, e))
      go lost e = inr (ground (arith, e))
      go (answered id) e = inr (ground (arith, e))

  answer-net :
      (answer : Option ℕ)
      → Keeps {T = T} {A = Text × Receipt} SameNet (
          given answer (halt nil_dereference) λ id. check (await_tx chain id) raise λ receipt.
            check
              (outside (chain.transaction_by_hash receipt.tx_hash) rpc_error)
              raise
              λ hash. pure (hash, receipt))
  answer-net answer =
      Keeps-given same_net answer (halt nil_dereference) _ (Keeps-halt same_net nil_dereference)
        λ id.
          Keeps-check same_net (await_tx chain id) raise _ (await_tx-Keeps chain same_net id)
            (Keeps-raise same_net)
            λ receipt.
              Keeps-check same_net (outside (chain.transaction_by_hash receipt.tx_hash) rpc_error)
                raise _
                (Keeps-outside same_net (chain.transaction_by_hash receipt.tx_hash) rpc_error)
                (Keeps-raise same_net) (λ hash. Keeps-pure same_net (hash, receipt))

  -- A call that returns has asked for just its transaction.
  pub send-net :
      (r : Request) (w v : World T (List Request)) {x : Text × Receipt}
      → send chain r w ≡ (ok x, v)
      → v.net ≡ r ∷ w.net
  unfolding send
  send-net r w v {x} h =
      let (answer, u, p, q) =
        check-eq-ok (create_evm_transaction_request chain r) _ w v {b = x} h in
      ap (λ (s : Result (Text × Receipt) × World T (List Request)). s.1.net) (sym q)
      ∙ (answer-net answer).at u
      ∙ create-net r w u {answer = answer} p

  raised : (e : Error) (u : World T (List Request)) → u ≡ (raise {A = Text × Receipt} e u).1
  unfolding exec
  raised e u = refl

  -- However a call ends, it has asked for its transaction or for nothing.
  pub send-net-cases :
      (r : Request) (w : World T (List Request))
      → ((send chain r w).1.net ≡ w.net) ⊎ ((send chain r w).1.net ≡ r ∷ w.net)
  unfolding send
  send-net-cases r w =
      check-cases (λ v. (v.net ≡ w.net) ⊎ (v.net ≡ r ∷ w.net))
        (create_evm_transaction_request chain r) raise _ w
        (λ answer u p. inr ((answer-net answer).at u ∙ create-net r w u {answer = answer} p))
        (λ e u p.
          subst (λ (v : World T (List Request)). (v.net ≡ w.net) ⊎ (v.net ≡ r ∷ w.net)) (raised e u)
            (create-net-cases r w u p))
        (λ s u p. create-net-cases r w u p)
