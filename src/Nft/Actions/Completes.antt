-- ===== src/Nft/Actions/Completes.antt =====
-- With services that work, a class is migrated. (migration-backend/pkg/logic/likenft/migrate_class.go)
pub mod Deploys
pub mod Transfers
pub mod Migrated
use likecoin_op.Base.{
  ℕ, suc, zero, ◌+◌, ◌<◌, ◌≡◌, refl, sym, ap, ◌∙◌, Bool, true, false, Option, none, some, List, [],
  ◌∷◌, ◌==◌, find, any, arith, Text, find-any,
}
use mathlib.Core.Path.{subst}
use likecoin_op.Exec.{
  exec, Error, Result, ok, err, stop, World, check, raise, pure, halt, db_call, outside, rpc_error,
  nil_dereference, bump, ◌>>=◌,
}
use likecoin_op.Exec.Frame.{Keeps}
use likecoin_op.Exec.Steps.{check-ok, db_call-up}
use likecoin_op.Nft.Actions.Model.{
  ActionStatus, LikeNftMigrationActionNewClass, LikeNftMigrationActionTransferClass, Tables,
  Request, new_book_nft, transfer_ownership, Action, State, affected, query_new_class,
  insert_new_class, update_new_class, query_transfer_class, insert_transfer_class,
  update_transfer_class,
}
use likecoin_op.Ethereum.{
  TxStatus, TxState, Receipt, Answer, answered, create_evm_transaction_request, poll_status,
  poll_tx, await_tx, send, given,
}
use likecoin_op.Nft.Actions.Calls.{Env, Class, ClassData, first_class, get_class_id}
use likecoin_op.Nft.Actions.NewClass.{max_supply}
use likecoin_op.Ethereum.Quiet.{SameDb, send-SameDb}

abbrev is_pending_status : Option TxStatus → Bool
is_pending_status none = false
is_pending_status (some TxStatus.init) = true
is_pending_status (some TxStatus.in_progress) = true
is_pending_status (some TxStatus.submitted) = true
is_pending_status (some TxStatus.mined) = false
is_pending_status (some TxStatus.failed) = false
is_pending_status (some TxStatus.other) = true

module _ (env : Env) where
  -- The signing service says of a request that it is mined, after the given number of other answers.
  abbrev pub MinesAfter : ℕ → ℕ → ℕ → Text → Type 0
  MinesAfter zero id tick hash =
      env.chain.get_transaction_hash id tick
      ≡ some (record { tx_hash = some hash; status = some TxStatus.mined; failed_reason = none })
  MinesAfter (suc k) id tick hash =
      ((s : TxState) × (env.chain.get_transaction_hash id tick ≡ some s)
        × (s.failed_reason ≡ none)
        × (is_pending_status s.status ≡ true))
      × MinesAfter k id (suc tick) hash

  poll_status-again :
      (again : Action Text) (s : TxState) (status : Option TxStatus)
      → is_pending_status status ≡ true
      → poll_status env.chain again s status ≡ again
  poll_status-again again s none h = cc
  poll_status-again again s (some TxStatus.init) h = refl
  poll_status-again again s (some TxStatus.in_progress) h = refl
  poll_status-again again s (some TxStatus.submitted) h = refl
  poll_status-again again s (some TxStatus.mined) h = cc
  poll_status-again again s (some TxStatus.failed) h = cc
  poll_status-again again s (some TxStatus.other) h = refl

  -- The polling of a transaction ends with its hash where the transaction is mined in time: after as
  -- many rounds as it takes to be mined, and one more.
  pub poll_tx-mined :
      (rounds id k : ℕ) (hash : Text) (w : State)
      → k < rounds
      → MinesAfter k id w.tick hash
      → poll_tx env.chain rounds id w ≡ (ok hash, record w { tick = suc (w.tick + k) })
  unfolding poll_tx exec
  poll_tx-mined zero id k hash w less mines = absurd (omega arith)
  poll_tx-mined (suc rounds) id zero hash w less mines = ground (arith, mines)
  poll_tx-mined (suc rounds) id (suc k) hash w less ((s, e, fine, pending), later) =
      let ih = poll_tx-mined rounds id k hash (bump w) (omega (arith, less)) later in
      let again = poll_status-again (poll_tx env.chain rounds id) s s.status pending in
      let rest = poll_tx env.chain rounds id in
      let next =
        λ (s : TxState). given s.failed_reason (poll_status env.chain rest s s.status) raise in
      let answer : outside (env.chain.get_transaction_hash id) rpc_error w ≡ (ok s, bump w) =
        ground (arith, e) in
      check-ok (outside (env.chain.get_transaction_hash id) rpc_error) raise next w (bump w) s
        answer
      ∙ ap (λ o. given o (poll_status env.chain rest s s.status) raise (bump w)) fine
      ∙ ap (λ (m : Action Text). m (bump w)) again
      ∙ ih
      ∙ ap (λ n. (ok hash, record w { tick = n })) (omega arith)

  -- Services that answer: the database does not fail, the signing service takes each request, a
  -- transaction is mined within the rounds that the context leaves, its receipt shows a new class, and
  -- the node of Cosmos knows what a class is made of.
  pub record Works : Type 0 where
    pub up : (tick : ℕ) → env.fault tick ≡ false
    pub asked :
        (r : Request) (tick : ℕ) → (id : ℕ) × (env.chain.create_request r tick ≡ answered (some id))
    pub mines :
        (id tick : ℕ)
        → (k : ℕ) × (hash : Text) × (k < env.chain.patience) × MinesAfter k id tick hash
    pub receipts :
        (hash : Text) (tick : ℕ)
        → (receipt : Receipt) × (env.chain.transaction_receipt hash tick ≡ some receipt)
          × ((e : Text) × (first_class env receipt.logs ≡ some e))
    pub hashes :
        (hash : Text) (tick : ℕ)
        → (found : Text) × (env.chain.transaction_by_hash hash tick ≡ some found)
    pub classes :
        (id : Text) (tick : ℕ)
        → (class : Class) × (content : ClassData) × (env.query_class id tick ≡ some class)
          × (class.content ≡ some content)
          × ((supply : ℕ) × (max_supply env content.max_supply ≡ ok supply))
    pub iscns :
        (prefix version : Text) (tick : ℕ)
        → (iscn : Text) × (env.query_iscn prefix version tick ≡ some iscn)
    pub royalties :
        (id : Text) (tick : ℕ) → (royalty : Text) × (env.query_royalty id tick ≡ some royalty)
    pub metadata :
        (class : Class) (iscn royalty : Text)
        → (text : Text) × (env.class_metadata class iscn royalty ≡ some text)

pub returned : {A : Type 0} (a : A) (v : State) → pure a v ≡ (ok a, v)
unfolding pure
returned a v = refl

-- The step returns, leaves the tables alone, and has sent what the list says.
abbrev pub Answers : {A : Type 0} → Action A → State → List Request → (A → Type 0) → Type 0
Answers {A} m w net P =
    (a : A) × (v : State) × (m w ≡ (ok a, v)) × (v.db ≡ w.db) × (v.net ≡ net) × P a

module _ (env : Env) (works : Works env) where
  pub outside-Answers :
      {A : Type 0} (answer : ℕ → Option A) (w : State) (a : A)
      → answer w.tick ≡ some a
      → outside answer rpc_error w ≡ (ok a, bump w)
  unfolding exec
  outside-Answers answer w a e = ground (arith, e)

  await_tx-Answers :
      (id : ℕ) (w : State)
      → Answers
          (await_tx env.chain id)
          w
          w.net
          (λ receipt. (e : Text) × (first_class env receipt.logs ≡ some e))
  unfolding await_tx
  await_tx-Answers id w =
      let (k, hash, soon, mines) = works.mines id w.tick in
      let u : State = record w { tick = suc (w.tick + k) } in
      let (receipt, e, shows) = works.receipts hash u.tick in
      (
        receipt,
        bump u,
        check-ok (poll_tx env.chain env.chain.patience id) raise
              (λ hash. outside (env.chain.transaction_receipt hash) rpc_error) w u hash
              (poll_tx-mined env env.chain.patience id k hash w soon mines)
            ∙ outside-Answers (env.chain.transaction_receipt hash) u receipt e,
        refl,
        refl,
        shows,
      )

  taken :
      (r : Request) (w : State) (id : ℕ)
      → env.chain.create_request r w.tick ≡ answered (some id)
      → create_evm_transaction_request env.chain r w
        ≡ (ok (some id), record w { tick = suc w.tick; net = r ∷ w.net })
  unfolding create_evm_transaction_request
  taken r w id asked = ground (arith, asked)

  pub send-Answers :
      (r : Request) (w : State)
      → Answers
          (send env.chain r)
          w
          (r ∷ w.net)
          (λ x. (e : Text) × (first_class env x.1.logs ≡ some e))
  unfolding send
  send-Answers r w =
      let (id, asked) = works.asked r w.tick in
      let u : State = record w { tick = suc w.tick; net = r ∷ w.net } in
      let (receipt, v, e, same, sent, shows) = await_tx-Answers id u in
      let (hash, found) = works.hashes receipt.tx_hash v.tick in
      let last = λ (receipt : Receipt).
        check (outside (env.chain.transaction_by_hash receipt.tx_hash) rpc_error) raise
          λ hash. pure (hash, receipt) in
      let with_id = λ (answer : Option ℕ).
        given answer (halt nil_dereference) λ id. check (await_tx env.chain id) raise last in
      (
        (hash, receipt),
        bump v,
        check-ok (create_evm_transaction_request env.chain r) raise with_id w u (some id)
              (taken r w id asked)
            ∙ check-ok (await_tx env.chain id) raise last u v receipt e
            ∙ check-ok (outside (env.chain.transaction_by_hash receipt.tx_hash) rpc_error) raise
                (λ hash. pure (hash, receipt)) v (bump v) hash
                (outside-Answers (env.chain.transaction_by_hash receipt.tx_hash) v hash found)
            ∙ returned (hash, receipt) (bump v),
        same,
        sent,
        shows,
      )
