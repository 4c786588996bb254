-- ===== src/Coin/Mint/Payment.antt =====
-- When a deposit is paid, to whom and how much.
-- (migration-backend/pkg/logic/likecoin/do_mint_likecoin.go)
use likecoin_op.Base.{
  ℕ, ◌≡◌, refl, sym, ap, ◌∙◌, ◌⊎◌, inl, inr, true, false, Option, none, some, ◌==◌, if◌then◌else◌,
  find, arith, Text, Bool-cases, eq_of_test,
}
use mathlib.Core.Path.{subst}
use likecoin_op.Exec.{
  exec, Error, bump, Result, ok, halt, nil_dereference, bad_coin, address_not_match,
  minting_key_not_match, amount_not_match, check, raise, outside, rpc_error,
}
use likecoin_op.Ethereum.{given, recover_address}
use likecoin_op.Coin.Model.{
  Status, pending_cosmos_tx_hash, verifying_cosmos_tx, evm_minting, evm_verifying, completed,
  failed, other, LikeCoinMigration, Tables, Transfer, Coin, MemoData, Action, State, Env,
  query_latest,
}
use likecoin_op.Coin.Mint.{
  do_mint_failed, coins_refused, check_coin, pay, check_addresses, do_mint_likecoin, mint_latest,
  do_mint_by_cosmos_address,
}
use likecoin_op.Coin.Mint.Sends.{
  Sends, Sends-given, Sends-if, Sends-unless, Sends-check, lift-Sends, outside-net, outside-answer,
  Converted, pay-Sends,
}

-- The newest migration of the address.
abbrev pub latest : Text → Tables → Option LikeCoinMigration
latest address t = find (λ (m : LikeCoinMigration). m.user_cosmos_address == address) t.migrations

module _ (env : Env) where
  -- What a payment of a migration looks like: the deposit is the transaction whose hash the migration
  -- has, and its memo carries the signature of the receiver.
  pub record Paid (a : LikeCoinMigration) (t : Transfer) : Type 0 where
    pub hash : Text
    pub deposited : a.cosmos_tx_hash ≡ some hash
    pub memo_string : Text
    pub memo_tick : ℕ
    pub memo_known : env.query_transaction hash memo_tick ≡ some memo_string
    pub memo : MemoData
    pub memo_parsed : env.parse_memo memo_string ≡ some memo
    pub recovers :
        recover_address env.crypto memo.signature (env.signing_message memo.amount) ≡ ok t.to
    pub own_address : env.fold t.to ≡ env.fold a.user_eth_address
    pub coin : Coin
    pub parsed : env.parse_coin a.amount ≡ some coin
    pub converted : Converted env coin.amount t.value

  abbrev pub PaidOnce : LikeCoinMigration → State → State → Type 0
  PaidOnce a w v = Sends env (Paid a) w v

  -- The memo of the deposit of the migration.
  abbrev Deposited : LikeCoinMigration → MemoData → Type 0
  Deposited a memo =
      (hash : Text) × (memo_string : Text) × (tick : ℕ) × (a.cosmos_tx_hash ≡ some hash)
      × (env.query_transaction hash tick ≡ some memo_string)
      × (env.parse_memo memo_string ≡ some memo)

  paid-by :
      (a : LikeCoinMigration) (memo : MemoData) (recovered : Text) (coin : Coin) (w v : State)
      → Deposited a memo
      → recover_address env.crypto memo.signature (env.signing_message memo.amount) ≡ ok recovered
      → env.fold recovered ≡ env.fold a.user_eth_address
      → env.parse_coin a.amount ≡ some coin
      → Sends env (λ t. (t.to ≡ recovered) × Converted env coin.amount t.value) w v
      → PaidOnce a w v
  paid-by a memo recovered coin w v d r f c (inl same) = inl same
  paid-by a memo recovered coin w v (hash, memo_string, tick, has, known, read) r f c
        (inr (t, sent, (to, converted))) =
      inr (
        t,
        sent,
        record {
          hash = hash;
          deposited = has;
          memo_string = memo_string;
          memo_tick = tick;
          memo_known = known;
          memo = memo;
          memo_parsed = read;
          recovers = r ∙ ap ok (sym to);
          own_address = ap env.fold to ∙ f;
          coin = coin;
          parsed = c;
          converted = converted;
        },
      )

  check_coin-PaidOnce :
      (a : LikeCoinMigration) (memo : MemoData) (recovered : Text)
      → Deposited a memo
      → recover_address env.crypto memo.signature (env.signing_message memo.amount) ≡ ok recovered
      → env.fold recovered ≡ env.fold a.user_eth_address
      → (w : State) → PaidOnce a w (check_coin env a memo recovered w).1
  check_coin-PaidOnce a memo recovered d r f =
      Sends-given env (Paid a) a bad_coin (env.parse_coin a.amount)
        (λ coin.
          if coins_refused env memo.amount coin
          then do_mint_failed env a amount_not_match
          else pay env a recovered coin)
        (λ coin c.
          Sends-unless env (Paid a) a amount_not_match (coins_refused env memo.amount coin)
            (pay env a recovered coin)
            (λ u.
              paid-by a memo recovered coin u (pay env a recovered coin u).1 d r f c
                (pay-Sends env a recovered coin u)))

  abbrev pub minting_checked : LikeCoinMigration → MemoData → Text → Text → Action LikeCoinMigration
  minting_checked a memo recovered minting =
      if env.fold minting == env.fold a.minting_eth_address
      then check_coin env a memo recovered
      else do_mint_failed env a minting_key_not_match

  abbrev pub address_checked : LikeCoinMigration → MemoData → Text → Action LikeCoinMigration
  address_checked a memo recovered =
      check (outside env.signer_address rpc_error) (do_mint_failed env a)
        (minting_checked a memo recovered)

  check_addresses-PaidOnce :
      (a : LikeCoinMigration) (memo : MemoData)
      → Deposited a memo
      → (w : State) → PaidOnce a w (check_addresses env a memo w).1
  unfolding check_addresses
  check_addresses-PaidOnce a memo d =
      lift-Sends env (Paid a) a
        (recover_address env.crypto memo.signature (env.signing_message memo.amount))
        (λ recovered.
          if env.fold recovered == env.fold a.user_eth_address
          then address_checked a memo recovered
          else do_mint_failed env a address_not_match)
        (λ recovered r.
          Sends-if env (Paid a) a address_not_match
            (env.fold recovered == env.fold a.user_eth_address) (address_checked a memo recovered)
            (λ folded.
              let same = eq_of_test (env.fold recovered) (env.fold a.user_eth_address) folded in
              Sends-check env (Paid a) a (outside env.signer_address rpc_error)
                (minting_checked a memo recovered) (outside-net env env.signer_address)
                (λ minting _ v _.
                  Sends-if env (Paid a) a minting_key_not_match
                    (env.fold minting == env.fold a.minting_eth_address)
                    (check_coin env a memo recovered)
                    (λ _. check_coin-PaidOnce a memo recovered d r same) v)))

  do_mint-PaidOnce : (a : LikeCoinMigration) (w : State) → PaidOnce a w (do_mint_likecoin env a w).1
  unfolding do_mint_likecoin halt
  do_mint-PaidOnce a w = go a.cosmos_tx_hash refl
    where
      go :
          (o : Option Text)
          → a.cosmos_tx_hash ≡ o
          → PaidOnce a w
              (given o
                (halt nil_dereference)
                (λ hash.
                  check
                    (outside (env.query_transaction hash) rpc_error)
                    (do_mint_failed env a)
                    (λ memo_string.
                      given
                        (env.parse_memo memo_string)
                        (do_mint_failed env a bad_coin)
                        (check_addresses env a)))
                w).1
      go none has = inl refl
      go (some hash) has =
          Sends-check env _ a _ _ (outside-net env (env.query_transaction hash))
            (λ memo_string u v p.
              let known = outside-answer env (env.query_transaction hash) {x = memo_string} u v p in
              Sends-given env _ a bad_coin _ _
                (λ memo read.
                  check_addresses-PaidOnce a memo (hash, memo_string, u.tick, has, known, read))
                v)
            w

  pub given_reason-net :
      (o : Option Error) (w : State)
      → (given {B = LikeCoinMigration} o (halt nil_dereference) raise w).1.net ≡ w.net
  unfolding exec
  given_reason-net none w = refl
  given_reason-net (some e) w = refl

  mint_latest-cases :
      (s : Status) (a : LikeCoinMigration) (w : State)
      → ((mint_latest env s a w).1.net ≡ w.net)
        ⊎ ((s ≡ verifying_cosmos_tx) × PaidOnce a w (mint_latest env s a w).1)
  unfolding mint_latest exec
  mint_latest-cases pending_cosmos_tx_hash a w = inl refl
  mint_latest-cases verifying_cosmos_tx a w = inr (refl, do_mint-PaidOnce a w)
  mint_latest-cases evm_minting a w = inl refl
  mint_latest-cases evm_verifying a w = inl refl
  mint_latest-cases completed a w = inl refl
  mint_latest-cases failed a w = inl (given_reason-net a.failed_reason w)
  mint_latest-cases other a w = inl refl

  pub by_address-eq :
      (address : Text) (w : State) (a : LikeCoinMigration)
      → latest address w.db ≡ some a
      → env.fault w.tick ≡ false
      → do_mint_by_cosmos_address env address w ≡ mint_latest env a.status a (bump w)
  unfolding do_mint_by_cosmos_address query_latest exec
  by_address-eq address w a h up = ground (arith, h, up)

  pub by_address-down :
      (address : Text) (w : State)
      → env.fault w.tick ≡ true
      → (do_mint_by_cosmos_address env address w).1.net ≡ w.net
  unfolding do_mint_by_cosmos_address query_latest exec
  by_address-down address w down = ground (arith, down)

  -- A request to pay the latest migration of an address sends nothing unless that migration waits for
  -- its payment, and then at most one transfer. The receiver is the address that has signed the amount in
  -- the memo of the deposit, which the node of Cosmos has shown for the hash of the migration, and is the
  -- migration's own address; the value is the migration's own amount, converted from the decimals that
  -- the old chain has answered to those that the new one has answered.
  pub mint_pays_once :
      (address : Text) (w : State) (a : LikeCoinMigration)
      → latest address w.db ≡ some a
      → ((do_mint_by_cosmos_address env address w).1.net ≡ w.net)
        ⊎ ((a.status ≡ verifying_cosmos_tx)
            × PaidOnce a w (do_mint_by_cosmos_address env address w).1)
  mint_pays_once address w a h = elim (Bool-cases (env.fault w.tick)) [
    | inl down ↦ inl (by_address-down address w down)
    | inr up ↦
        subst
          (λ (s : Result LikeCoinMigration × State).
            (s.1.net ≡ w.net) ⊎ ((a.status ≡ verifying_cosmos_tx) × PaidOnce a w s.1))
          (sym (by_address-eq address w a h up)) (mint_latest-cases a.status a (bump w))
  ]
