-- ===== src/Signer/Evm/Nonces.antt =====
-- What signing reads and leaves alone: the node is only asked, and the nonce that is chosen lies above
-- the newest one that the table holds. (signer-backend/pkg/evm)
use likecoin_op.Base.{
  ℕ, zero, suc, ◌<◌, ◌≡◌, refl, ◌∙◌, Option, none, some, ◌==◌, find, arith, Text,
}
use mathlib.Core.Path.{subst}
use likecoin_op.Exec.{exec, ok, raise, rpc_error, bad_key}
use likecoin_op.Exec.Frame.{Frame, Keeps, Keeps-bind, Keeps-outside, keeps_rules}
use likecoin_op.Exec.Steps.{bind-eq-ok}
use likecoin_op.Signer.Model.{TransactionNonce, Transaction, Action, State, Env}
use likecoin_op.Signer.Db.{query_latest_nonce}
use likecoin_op.Signer.Evm.{
  NonceAvailability, available, using, get_nonce_availability, poll_nonce, await_available_nonce,
  sign, poll_sent_nonce, await_nonce, poll_receipt, await_tx, on_availability, signer_address,
  estimate_gas_limit, with_signature, rpc,
}

-- The newest nonce of the address, if there is one, lies below.
abbrev pub IsAbove : Text → ℕ → State → Type 0
IsAbove from nonce w =
    (n : TransactionNonce)
    → find (λ (m : TransactionNonce). m.eth_address == from) w.db.nonces ≡ some n
    → n.nonce < nonce

-- The tables and the network are as they were.
pub record IsSame (w w' : State) : Type 0 where
  pub db : w'.db ≡ w.db
  pub net : w'.net ≡ w.net

pub IsSame-frame : Frame IsSame
IsSame-frame = record {
  same = λ w. record { db = refl; net = refl };
  trans = λ u v w p q. record { db = q.db ∙ p.db; net = q.net ∙ p.net };
  tick = λ w. record { db = refl; net = refl };
}

module _ (env : Env) where
  signer_address-IsSame : Keeps IsSame (signer_address env)
  unfolding exec
  signer_address-IsSame = record { at = λ w. ground arith }

  get_nonce_availability-IsSame :
      (from : Text) (remote : ℕ) → Keeps IsSame (get_nonce_availability env from remote)
  unfolding get_nonce_availability query_latest_nonce exec
  get_nonce_availability-IsSame from remote = record { at = λ w. ground arith }

  on_availability-IsSame :
      (a : NonceAvailability) (remote : ℕ) (again : Action ℕ)
      → Keeps IsSame again
      → Keeps IsSame (on_availability env a remote again)
  on_availability-IsSame available remote again k = search (keeps_rules, IsSame-frame)
  on_availability-IsSame using remote again k = k

  ruleset same_rules = (
    keeps_rules, IsSame-frame, signer_address-IsSame, get_nonce_availability-IsSame,
    on_availability-IsSame,
  )

  poll_nonce-IsSame : (polls : ℕ) (from : Text) → Keeps IsSame (poll_nonce env polls from)
  unfolding poll_nonce
  poll_nonce-IsSame zero from = search same_rules
  poll_nonce-IsSame (suc polls) from = let rest = poll_nonce-IsSame polls from in search same_rules

  poll_sent_nonce-IsSame : (polls nonce : ℕ) → Keeps IsSame (poll_sent_nonce env polls nonce)
  unfolding poll_sent_nonce
  poll_sent_nonce-IsSame zero nonce = search same_rules
  poll_sent_nonce-IsSame (suc polls) nonce =
      let rest = poll_sent_nonce-IsSame polls nonce in search same_rules

  poll_receipt-IsSame : (polls : ℕ) → Keeps IsSame (poll_receipt env polls)
  unfolding poll_receipt
  poll_receipt-IsSame zero = search same_rules
  poll_receipt-IsSame (suc polls) = let rest = poll_receipt-IsSame polls in search same_rules

  await_nonce-IsSame : Keeps IsSame (await_nonce env)
  unfolding await_nonce
  await_nonce-IsSame =
      Keeps-bind IsSame-frame _ _ (search same_rules)
        λ _. Keeps-bind IsSame-frame _ _ (search same_rules) λ tx. from_sender tx (env.sender tx)
    where
      from_sender :
          (tx : Transaction) (o : Option Text)
          → Keeps IsSame (
              let m : Action (Unit {0}) = elim o [
                | none ↦ raise rpc_error
                | some _ ↦ poll_sent_nonce env env.patience tx.nonce
              ] in
              m)
      from_sender tx none = search same_rules
      from_sender tx (some a) = poll_sent_nonce-IsSame env.patience tx.nonce

  pub await_tx-IsSame : Keeps IsSame (await_tx env)
  unfolding await_tx
  await_tx-IsSame = search (same_rules, poll_receipt-IsSame, await_nonce-IsSame)

  pub await_available_nonce-IsSame : Keeps IsSame (await_available_nonce env)
  unfolding await_available_nonce
  await_available_nonce-IsSame = search (same_rules, poll_nonce-IsSame)

  estimate_gas_limit-IsSame : Keeps IsSame (estimate_gas_limit env)
  estimate_gas_limit-IsSame = search same_rules

  with_signature-IsSame : (key : Text) (tx : Transaction) → Keeps IsSame (with_signature env key tx)
  unfolding exec
  with_signature-IsSame key tx = record { at = λ w. ground arith }

  with_key-IsSame :
      (k : Text → Action Transaction)
      → ((key : Text) → Keeps IsSame (k key))
      → (o : Option Text)
      → Keeps IsSame
          (let m : Action Transaction = elim o [ none ↦ raise bad_key | some key ↦ k key ] in m)
  with_key-IsSame k h none = search same_rules
  with_key-IsSame k h (some key) = h key

  -- Signing only asks: it changes no table and sends nothing.
  pub sign-IsSame : (to input : Text) (value : ℕ) → Keeps IsSame (sign env to input value)
  unfolding sign
  sign-IsSame to input value = Keeps-bind IsSame-frame _ _ (search same_rules) λ _.
      with_key-IsSame _
        (λ key. search (
          same_rules, await_available_nonce-IsSame, estimate_gas_limit-IsSame,
          with_signature-IsSame,
        ))
        env.private_key

  poll_nonce-lt :
      (polls : ℕ) (from : Text) (w : State) (n : TransactionNonce) {nonce : ℕ}
      → find (λ (m : TransactionNonce). m.eth_address == from) w.db.nonces ≡ some n
      → (poll_nonce env polls from w).0 ≡ ok nonce
      → n.nonce < nonce
  unfolding poll_nonce get_nonce_availability query_latest_nonce exec
  poll_nonce-lt zero from w n e h = cc
  poll_nonce-lt (suc polls) from w n {nonce} e h =
      ground
        (arith, poll_nonce-lt polls from (record w { tick = suc (suc w.tick) }) n {nonce = nonce})

  await_available_nonce-lt :
      (key : Text) (w : State) (n : TransactionNonce) {nonce : ℕ}
      → env.private_key ≡ some key
      → find (λ (m : TransactionNonce). m.eth_address == env.address_of key) w.db.nonces ≡ some n
      → (await_available_nonce env w).0 ≡ ok nonce
      → n.nonce < nonce
  unfolding await_available_nonce exec
  await_available_nonce-lt key w n {nonce} k e h =
      ground (arith, poll_nonce-lt env.patience (env.address_of key) w n {nonce = nonce})

  with_signature-eq :
      (key : Text) (unsigned : Transaction) (w : State) {tx : Transaction}
      → (with_signature env key unsigned w).0 ≡ ok tx
      → (tx.from ≡ unsigned.from) × (tx.nonce ≡ unsigned.nonce)
  unfolding exec
  with_signature-eq key unsigned w h = ground arith

  with_key-eq-ok :
      (k : Text → Action Transaction) (key : Text) (o : Option Text) (w : State) {tx : Transaction}
      → o ≡ some key
      → (let m : Action Transaction = elim o [ none ↦ raise bad_key | some j ↦ k j ] in m w).0
        ≡ ok tx
      → (k key w).0 ≡ ok tx
  with_key-eq-ok k key none w e h = cc
  with_key-eq-ok k key (some j) w {tx} e h =
      let p : j ≡ key = cc in subst (λ i. (k i w).0 ≡ ok tx) p h

  -- What signing promises of the transaction: it comes from the key's address, and its nonce lies
  -- above the newest one that is stored for that address.
  pub sign-IsAbove :
      (to input key : Text) (value : ℕ) (w : State) {tx : Transaction}
      → env.private_key ≡ some key
      → (sign env to input value w).0 ≡ ok tx
      → (tx.from ≡ env.address_of key) × IsAbove (env.address_of key) tx.nonce w
  unfolding sign
  sign-IsAbove to input key value w k h =
      let (_, _, h1) = bind-eq-ok _ _ w h in
      let w1 = (rpc env env.chain_id w).1 in
      let same : IsSame w w1 = (Keeps-outside IsSame-frame env.chain_id rpc_error).at w in
      let (nonce, e2, h2) = bind-eq-ok _ _ w1 (with_key-eq-ok _ key env.private_key w1 k h1) in
      let (_, _, h3) = bind-eq-ok _ _ _ h2 in
      let (_, _, h4) = bind-eq-ok _ _ _ h3 in
      let (from, is_nonce) = with_signature-eq key _ _ h4 in
      (from, λ n e. rw is_nonce (await_available_nonce-lt key w1 n k (rw same.db e) e2))
