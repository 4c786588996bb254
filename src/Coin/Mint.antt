-- ===== src/Coin/Mint.antt =====
-- Paying a deposit out. (migration-backend/pkg/logic/likecoin/do_mint_likecoin.go)
pub mod Sends
pub mod Payment
pub mod Closed
pub mod Once
use likecoin_op.Base.{
  ℕ, suc, Bool, true, false, not, Option, none, some, List, [], ◌∷◌, ◌==◌, if◌then◌else◌, Text,
}
use likecoin_op.Exec.{
  Error, join_opt, lift, nil_dereference, rpc_error, bad_coin, already_in_progress,
  address_not_match, minting_key_not_match, amount_not_match, pure, raise, halt, check, db_call,
  outside, error_of, ◌>>=◌,
}
use likecoin_op.Ethereum.{Receipt, given, send, recover_address}
use likecoin_op.Coin.Convert.{convert_amount_by_decimals}
use likecoin_op.Coin.Model.{
  Status, verifying_cosmos_tx, evm_minting, completed, failed, LikeCoinMigration, Tables, Transfer,
  Coin, MemoData, Action, State, Env, query_latest, update_migration,
}

module _ (env : Env) where
  -- `doMintLikeCoinFailed`
  unfoldable pub do_mint_failed : LikeCoinMigration → Error → Action LikeCoinMigration
  do_mint_failed a e =
      error_of (
        db_call env.fault (update_migration (record a { status = failed; failed_reason = some e })))
      >>= λ failure. raise (join_opt e failure)

  -- `LikeCoin.TransferTo`
  unfoldable pub transfer_to : Text → ℕ → Action (Text × Receipt)
  transfer_to to value = send env.chain (record { to = to; value = value })

  -- The end of `DoMintLikeCoin`, from the update to `evm_minting` on.
  unfoldable pub pay : LikeCoinMigration → Text → Coin → Action LikeCoinMigration
  pay m recovered coin =
      let a = record m { status = evm_minting } in
      check (db_call env.fault (update_migration a)) (do_mint_failed a) λ _.
        check (outside env.old_decimals rpc_error) (do_mint_failed a) λ old_decimals.
          check (outside env.new_decimals rpc_error) (do_mint_failed a) λ new_decimals.
            check (lift (convert_amount_by_decimals coin.amount old_decimals new_decimals))
              (do_mint_failed a)
              λ evm_amount. check (transfer_to recovered evm_amount) (do_mint_failed a) λ (hash, _).
                let b = record a { evm_tx_hash = some hash; status = completed } in
                check (db_call env.fault (update_migration b)) (do_mint_failed b) λ _. pure b

  -- The comparison of the amounts in `DoMintLikeCoin`: two values of `cosmosmath.Int` that were parsed
  -- apart hold different pointers, so `!=` holds of them and the denominations decide.
  abbrev pub coins_refused : Coin → Coin → Bool
  coins_refused memo stored = not (memo.denom == stored.denom)

  abbrev pub check_coin : LikeCoinMigration → MemoData → Text → Action LikeCoinMigration
  check_coin a memo recovered = given (env.parse_coin a.amount) (do_mint_failed a bad_coin) λ coin.
      if coins_refused memo.amount coin
      then do_mint_failed a amount_not_match
      else pay a recovered coin

  -- The checks of `DoMintLikeCoin` on the addresses.
  unfoldable pub check_addresses : LikeCoinMigration → MemoData → Action LikeCoinMigration
  check_addresses a memo =
      check (lift (recover_address env.crypto memo.signature (env.signing_message memo.amount)))
        (do_mint_failed a)
        λ recovered.
          if env.fold recovered == env.fold a.user_eth_address
          then (check (outside env.signer_address rpc_error) (do_mint_failed a) λ minting.
              if env.fold minting == env.fold a.minting_eth_address
              then check_coin a memo recovered
              else do_mint_failed a minting_key_not_match)
          else do_mint_failed a address_not_match

  -- `DoMintLikeCoin`
  unfoldable pub do_mint_likecoin : LikeCoinMigration → Action LikeCoinMigration
  do_mint_likecoin a = given a.cosmos_tx_hash (halt nil_dereference) λ hash.
      check (outside (env.query_transaction hash) rpc_error) (do_mint_failed a) λ memo_string.
        given (env.parse_memo memo_string) (do_mint_failed a bad_coin)
          λ memo. check_addresses a memo

  -- The tests of `DoMintLikeCoinByCosmosAddress`; a failed migration shows its reason.
  unfoldable pub mint_latest : Status → LikeCoinMigration → Action LikeCoinMigration
  mint_latest completed a = pure a
  mint_latest failed a = given a.failed_reason (halt nil_dereference) raise
  mint_latest verifying_cosmos_tx a = do_mint_likecoin a
  mint_latest _ a = raise already_in_progress

  -- `DoMintLikeCoinByCosmosAddress`
  unfoldable pub do_mint_by_cosmos_address : Text → Action LikeCoinMigration
  do_mint_by_cosmos_address cosmos_address =
      check (db_call env.fault (query_latest cosmos_address)) raise λ a. mint_latest a.status a
