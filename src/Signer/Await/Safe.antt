-- ===== src/Signer/Await/Safe.antt =====
-- The invariant of the nonce table and the network, and the parts of `AwaitTransaction` that store no
-- nonce. (signer-backend/pkg/logic/await_transaction.go)
use likecoin_op.Base.{
  ℕ, suc, ◌<◌, ◌≡◌, refl, Bool, true, false, not, ◌&&◌, none, some, List, [], ◌∷◌, ◌==◌, any, keep,
  replace, All, arith, Text,
}
use likecoin_op.Exec.{Error, exec}
use likecoin_op.Exec.Frame.{Frame, Keeps, Keeps-db_call, Keeps-check, Keeps-raise, Keeps-pure}
use likecoin_op.Signer.Model.{
  EvmTransactionRequest, TransactionNonce, Transaction, Broadcast, Network, Action, State, Env,
}
use likecoin_op.Signer.Db.{is_nonce_of, update_evm_transaction_request}
use likecoin_op.Signer.Evm.{await_tx}
use likecoin_op.Signer.Evm.Nonces.{IsSame, await_tx-IsSame}
use likecoin_op.Signer.Await.{mark, mark_failed, mark_mined, await_receipt}

-- A broadcast of the address under the nonce was answered without an error.
abbrev pub is_confirmed : Text → ℕ → Network → Bool
is_confirmed from nonce = any (λ (b : Broadcast).
    b.confirmed && ((b.transaction.from == from) && (b.transaction.nonce == nonce)))

-- Whatever the network has taken, told or not, was under a nonce that no earlier confirmed transaction of
-- its sender has.
abbrev pub SentOnce : Network → Type 0
SentOnce [] = Unit
SentOnce (b ∷ bs) = (is_confirmed b.transaction.from b.transaction.nonce bs ≡ false) × SentOnce bs

-- Every nonce of a confirmed broadcast is stored.
abbrev pub IsRecorded : List TransactionNonce → Network → Type 0
IsRecorded nonces net =
    (from : Text) (nonce : ℕ)
    → is_confirmed from nonce net ≡ true
    → any (is_nonce_of from nonce) nonces ≡ true

abbrev pub IsBelow : ℕ → List TransactionNonce → Type 0
IsBelow next = All (λ (n : TransactionNonce). n.id < next)

-- The invariant of the signing service for the address that it signs for.
pub record IsSafe (signer : Text) (w : State) : Type 0 where
  pub recorded : IsRecorded w.db.nonces w.net
  pub once : SentOnce w.net
  pub below : IsBelow w.db.next_nonce w.db.nonces
  pub own : All (λ (r : EvmTransactionRequest). r.signer_address ≡ signer) w.db.requests

pub keep-below :
    (k : ℕ) (ns : List TransactionNonce)
    → IsBelow k ns
    → keep (λ (m : TransactionNonce). not (m.id == k)) ns ≡ ns
keep-below k [] h = refl
keep-below k (n ∷ ns) h = ground (arith, keep-below k ns h.1)

pub IsBelow-suc : (k : ℕ) (ns : List TransactionNonce) → IsBelow k ns → IsBelow (suc k) ns
IsBelow-suc k [] h = tt
IsBelow-suc k (n ∷ ns) h = (omega (arith, h.0), IsBelow-suc k ns h.1)

-- A request of the signer replaces others.
pub All-replace :
    (signer : Text) (p : EvmTransactionRequest → Bool) (r : EvmTransactionRequest)
    (rs : List EvmTransactionRequest)
    → r.signer_address ≡ signer
    → All (λ (q : EvmTransactionRequest). q.signer_address ≡ signer) rs
    → All (λ (q : EvmTransactionRequest). q.signer_address ≡ signer) (replace p (λ _. r) rs)
All-replace signer p r [] e h = tt
All-replace signer p r (q ∷ qs) e h = ground (arith, All-replace signer p r qs e h.1)

module _ (env : Env) (signer : Text) where
  abbrev pub KeepsSafe : {A : Type 0} → Action A → Type 0
  KeepsSafe = Keeps (λ u v. IsSafe signer u → IsSafe signer v)

  pub IsSafe-frame : Frame (λ (u v : State). IsSafe signer u → IsSafe signer v)
  IsSafe-frame = record {
    same = λ w h. h;
    trans = λ u v w p q h. q (p h);
    tick = λ w h. record { recorded = h.recorded; once = h.once; below = h.below; own = h.own };
  }

  pub update-IsSafe :
      (r : EvmTransactionRequest)
      → r.signer_address ≡ signer
      → (w : State) → IsSafe signer w
      → IsSafe signer
          (record w { tick = suc w.tick; db = (update_evm_transaction_request r w.db).1 })
  unfolding update_evm_transaction_request
  update-IsSafe r e w h =
      let all =
        All-replace signer (λ (q : EvmTransactionRequest). q.id == r.id) r w.db.requests e h.own in
      ground (arith, all)

  -- Storing a failure keeps the invariant, whatever fails in it.
  pub mark-IsSafe :
      (r : EvmTransactionRequest) (reason : Error)
      → r.signer_address ≡ signer
      → KeepsSafe (mark env (some r) reason)
  unfolding mark exec
  mark-IsSafe r reason e = record {
    at = λ w h. ground (
      arith,
      update-IsSafe (mark_failed r reason) e (record w { tick = suc w.tick })
          (IsSafe-frame.tick w h),
    );
  }

  pub mark-none-IsSafe : (reason : Error) → KeepsSafe (mark env none reason)
  unfolding mark exec
  mark-none-IsSafe reason = record { at = λ w h. ground arith }

  pub IsSafe-same : {w v : State} → IsSame w v → IsSafe signer w → IsSafe signer v
  IsSafe-same same h = record {
    recorded = rw (same.db, same.net) h.recorded;
    once = rw same.net h.once;
    below = rw same.db h.below;
    own = rw same.db h.own;
  }

  pub await_tx-IsSafe : KeepsSafe (await_tx env)
  await_tx-IsSafe = record { at = λ w h. IsSafe-same ((await_tx-IsSame env).at w) h }

  pub await_receipt-IsSafe :
      (r : EvmTransactionRequest) (tx : Transaction)
      → r.signer_address ≡ signer
      → KeepsSafe (await_receipt env r tx)
  unfolding await_receipt
  await_receipt-IsSafe r tx e =
      Keeps-check IsSafe-frame _ _ _ await_tx-IsSafe (λ x. mark-IsSafe r x e)
        λ receipt.
          Keeps-check IsSafe-frame _ _ _
            (Keeps-db_call IsSafe-frame env.fault _
              (λ w h. update-IsSafe (mark_mined env r receipt) e w h))
            (λ x. Keeps-raise IsSafe-frame x) (λ _. Keeps-pure IsSafe-frame _)
