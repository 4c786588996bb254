-- ===== src/Coin/Mint/Once.antt =====
-- A deposit is paid once. (migration-backend/pkg/logic/likecoin/do_mint_likecoin.go)
use likecoin_op.Base.{
  ℕ, ◌≡◌, ◌≢◌, refl, sym, ap, ◌∙◌, inl, inr, Bool, true, false, Option, none, some, List, [], ◌∷◌,
  ◌==◌, if◌then◌else◌, find, arith, Text, Bool-cases,
}
use mathlib.Core.Path.{subst}
use likecoin_op.Exec.{
  exec, Error, Result, ok, err, stop, lift, halt, nil_dereference, rpc_error, bad_coin,
  amount_not_match, address_not_match, minting_key_not_match, bump, check, raise, pure, outside,
}
use likecoin_op.Exec.Steps.{check-cases}
use likecoin_op.Ethereum.{given, recover_address}
use likecoin_op.Coin.Model.{
  Status, pending_cosmos_tx_hash, verifying_cosmos_tx, evm_minting, evm_verifying, completed,
  failed, other, LikeCoinMigration, MemoData, Action, State, Env,
}
use likecoin_op.Coin.Mint.{
  do_mint_failed, coins_refused, check_coin, pay, check_addresses, do_mint_likecoin, mint_latest,
  do_mint_by_cosmos_address,
}
use likecoin_op.Coin.Mint.Sends.{failed-net, outside-net}
use likecoin_op.Coin.Mint.Payment.{
  latest, minting_checked, address_checked, by_address-eq, by_address-down, given_reason-net,
  mint_pays_once,
}
use likecoin_op.Coin.Mint.Closed.{is_waiting, Closed, Closes, pay-Closes}

latest-own :
    (address : Text) (ms : List LikeCoinMigration) {a : LikeCoinMigration}
    → find (λ (m : LikeCoinMigration). m.user_cosmos_address == address) ms ≡ some a
    → a.user_cosmos_address ≡ address
latest-own address [] h = cc
latest-own address (m ∷ ms) {a} h = ground (arith, latest-own address ms {a = a})

-- One call for the latest migration of an address.
module _ (env : Env) (address : Text) (a : LikeCoinMigration)
    (own : a.user_cosmos_address ≡ address) where
  abbrev Starts : Action LikeCoinMigration → Type 0
  Starts m = (u : State) → latest address u.db ≡ some a → Closes env address a.id u (m u).1

  failed-Starts : (x : Error) → Starts (do_mint_failed env a x)
  failed-Starts x u h = inl (failed-net env a x u)

  Starts-given :
      {A : Type 0} (o : Option A) (n : Action LikeCoinMigration) (k : A → Action LikeCoinMigration)
      → Starts n
      → ((x : A) → Starts (k x))
      → Starts (given o n k)
  Starts-given none n k sn sk = sn
  Starts-given (some x) n k sn sk = sk x

  Starts-if :
      (b : Bool) (m n : Action LikeCoinMigration)
      → Starts m
      → Starts n
      → Starts (if b then m else n)
  Starts-if true m n sm sn = sm
  Starts-if false m n sm sn = sn

  outside-db :
      {A : Type 0} (answer : ℕ → Option A) (w : State) → (outside answer rpc_error w).1.db ≡ w.db
  unfolding exec
  outside-db answer w = ground arith

  Starts-outside :
      {A : Type 0} (answer : ℕ → Option A) (k : A → Action LikeCoinMigration)
      → ((x : A) → Starts (k x))
      → Starts (check (outside answer rpc_error) (do_mint_failed env a) k)
  Starts-outside {A} answer k sk w h =
      check-cases (Closes env address a.id w) (outside answer rpc_error) (do_mint_failed env a) k w
        (λ x u p. elim (sk x u (ap (latest address) (same u p) ∙ h)) [
          | inl quiet ↦ inl (quiet ∙ sent u p)
          | inr closed ↦ inr closed
        ])
        (λ e u p. inl (failed-net env a e u ∙ sent u p)) (λ s u p. inl (sent u p))
    where
      sent : (u : State) {r : Result A} → outside answer rpc_error w ≡ (r, u) → u.net ≡ w.net
      sent u {r} p = ap (λ (s : Result A × State). s.1.net) (sym p) ∙ outside-net env answer w

      same : (u : State) {r : Result A} → outside answer rpc_error w ≡ (r, u) → u.db ≡ w.db
      same u {r} p = ap (λ (s : Result A × State). s.1.db) (sym p) ∙ outside-db answer w

  Starts-lift :
      {A : Type 0} (r : Result A) (k : A → Action LikeCoinMigration)
      → ((x : A) → Starts (k x))
      → Starts (check (lift r) (do_mint_failed env a) k)
  unfolding check
  Starts-lift (ok x) k sk w h = sk x w h
  Starts-lift (err e) k sk w h = failed-Starts e w h
  Starts-lift (stop s) k sk w h = inl refl

  check_coin-Starts :
      (memo : MemoData) (recovered : Text) → Starts (check_coin env a memo recovered)
  check_coin-Starts memo recovered =
      Starts-given (env.parse_coin a.amount) (do_mint_failed env a bad_coin)
        (λ coin.
          if coins_refused env memo.amount coin
          then do_mint_failed env a amount_not_match
          else pay env a recovered coin)
        (failed-Starts bad_coin)
        (λ coin.
          Starts-if (coins_refused env memo.amount coin) (do_mint_failed env a amount_not_match)
            (pay env a recovered coin) (failed-Starts amount_not_match)
            (λ u h. pay-Closes env address a.id a recovered coin u {a = a} h refl own refl))

  check_addresses-Starts : (memo : MemoData) → Starts (check_addresses env a memo)
  unfolding check_addresses
  check_addresses-Starts memo =
      Starts-lift (recover_address env.crypto memo.signature (env.signing_message memo.amount))
        (λ recovered.
          if env.fold recovered == env.fold a.user_eth_address
          then address_checked env a memo recovered
          else do_mint_failed env a address_not_match)
        (λ recovered.
          Starts-if (env.fold recovered == env.fold a.user_eth_address)
            (address_checked env a memo recovered) (do_mint_failed env a address_not_match)
            (Starts-outside env.signer_address (minting_checked env a memo recovered) (λ minting.
              Starts-if (env.fold minting == env.fold a.minting_eth_address)
                (check_coin env a memo recovered) (do_mint_failed env a minting_key_not_match)
                (check_coin-Starts memo recovered) (failed-Starts minting_key_not_match)))
            (failed-Starts address_not_match))

  halt-Starts : Starts (halt nil_dereference)
  unfolding halt
  halt-Starts u h = inl refl

  do_mint-Starts : Starts (do_mint_likecoin env a)
  unfolding do_mint_likecoin
  do_mint-Starts =
      Starts-given a.cosmos_tx_hash (halt nil_dereference)
        (λ hash.
          check (outside (env.query_transaction hash) rpc_error) (do_mint_failed env a)
            (λ memo_string.
              given (env.parse_memo memo_string) (do_mint_failed env a bad_coin)
                (check_addresses env a)))
        halt-Starts
        (λ hash.
          Starts-outside (env.query_transaction hash)
            (λ memo_string.
              given (env.parse_memo memo_string) (do_mint_failed env a bad_coin)
                (check_addresses env a))
            (λ memo_string.
              Starts-given (env.parse_memo memo_string) (do_mint_failed env a bad_coin)
                (check_addresses env a) (failed-Starts bad_coin) check_addresses-Starts))

  mint_latest-Starts : (s : Status) → Starts (mint_latest env s a)
  unfolding mint_latest pure raise
  mint_latest-Starts pending_cosmos_tx_hash u h = inl refl
  mint_latest-Starts verifying_cosmos_tx u h = do_mint-Starts u h
  mint_latest-Starts evm_minting u h = inl refl
  mint_latest-Starts evm_verifying u h = inl refl
  mint_latest-Starts completed u h = inl refl
  mint_latest-Starts failed u h = inl (given_reason-net env a.failed_reason u)
  mint_latest-Starts other u h = inl refl

-- A call for an address that has asked for a payment closes the migration of the payment: the latest
-- migration of the address is the paid one, and does not wait for a payment.
pub mint_closes :
    (env : Env) (address : Text) (w : State) {a : LikeCoinMigration}
    → latest address w.db ≡ some a
    → (do_mint_by_cosmos_address env address w).1.net ≢ w.net
    → Closed address a.id (do_mint_by_cosmos_address env address w).1.db
mint_closes env address w {a} h sent = elim (Bool-cases (env.fault w.tick)) [
  | inl down ↦ absurd (sent (by_address-down env address w down))
  | inr up ↦
      let own = latest-own address w.db.migrations {a = a} h in
      let closes : Closes env address a.id w (do_mint_by_cosmos_address env address w).1 =
        subst (λ (s : Result LikeCoinMigration × State). Closes env address a.id w s.1)
          (sym (by_address-eq env address w a h up))
          (mint_latest-Starts env address a own a.status (bump w) h) in
      elim closes [ inl quiet ↦ absurd (sent quiet) | inr closed ↦ closed ]
]

Closed-quiet :
    (env : Env) (address : Text) (id : ℕ) (w : State)
    → Closed address id w.db
    → (do_mint_by_cosmos_address env address w).1.net ≡ w.net
Closed-quiet env address id w (r, found, _, ended) = elim (mint_pays_once env address w r found) [
  | inl quiet ↦ quiet
  | inr (waits, _) ↦
      let busy : is_waiting r.status ≡ true = ap is_waiting waits in
      absurd (ground (arith, busy, ended))
]

-- Once a call for an address has asked the signing service for a payment, the next call for the address
-- asks for nothing: however the first call ended, also where the answer was lost, the transaction was
-- not found or the end could not be stored, and whatever the services answer then.
pub mint_never_again :
    (env later : Env) (address : Text) (w : State) {a : LikeCoinMigration}
    → latest address w.db ≡ some a
    → (do_mint_by_cosmos_address env address w).1.net ≢ w.net
    → (do_mint_by_cosmos_address later address (do_mint_by_cosmos_address env address w).1).1.net
      ≡ (do_mint_by_cosmos_address env address w).1.net
mint_never_again env later address w {a} h sent =
    Closed-quiet later address a.id (do_mint_by_cosmos_address env address w).1
      (mint_closes env address w {a = a} h sent)
