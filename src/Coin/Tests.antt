-- ===== src/Coin/Tests.antt =====
-- A deposit of LikeCoin from its opening to its payment. (migration-backend/pkg/logic/likecoin)
use likecoin_op.Base.{
  ◌-◌, ◌*◌, ◌^◌, ◌≤◌, ◌≡◌, ◌⊎◌, refl, false, none, some, List, [], ◌∷◌, ◌++◌, ◌==◌, if◌then◌else◌,
  ℕ, zero, suc, arith, Text,
}
use likecoin_op.Exec.{exec, ok}
use likecoin_op.Ethereum.{
  TxStatus, answered, lost, recover_address, create_evm_transaction_request, poll_tx, await_tx,
  send,
}
use likecoin_op.Coin.Convert.{convert_amount_by_decimals, Judged, convert_refuses}
use likecoin_op.Coin.Model.{
  verifying_cosmos_tx, LikeCoinMigration, Coin, MemoData, State, Env, query_non_ended, query_latest,
  insert_migration, update_migration,
}
use likecoin_op.Coin.Create.{
  Deposit, new_migration, create_verified, create_if_all_ended, update_cosmos_tx_hash, open_count,
  create_one_open, create_accepted,
}
use likecoin_op.Coin.Mint.{
  do_mint_failed, transfer_to, pay, check_addresses, do_mint_likecoin, mint_latest,
  do_mint_by_cosmos_address,
}
use likecoin_op.Coin.Mint.Payment.{PaidOnce, mint_pays_once}
use likecoin_op.Coin.Mint.Once.{mint_never_again}

-- Named on an `unfolding` line, it opens the whole service.
unfoldable running : Unit {0}
unfolding exec recover_address create_evm_transaction_request poll_tx await_tx send
    convert_amount_by_decimals query_non_ended query_latest insert_migration update_migration
    create_verified create_if_all_ended update_cosmos_tx_hash do_mint_failed transfer_to pay
    check_addresses do_mint_likecoin mint_latest do_mint_by_cosmos_address
running = tt

convert_refuses_example : Judged 999 9 6 (convert_amount_by_decimals 999 9 6)
convert_refuses_example = convert_refuses 999 9 6 (omega arith) (omega arith) (omega arith)

-- From 19 dropped decimals on, an amount that is worth nothing is not refused.
lost_amount : convert_amount_by_decimals 5 19 0 ≡ ok 0
unfolding running
lost_amount = refl

-- Decimals from 2 ^ 63 on are a negative word, and the amount is multiplied.
wrapped_decimals : convert_amount_by_decimals 5 (2 ^ 64 - 1) 1 ≡ ok 500
unfolding running
wrapped_decimals = refl

abbrev coin : Coin
coin = record { amount = 25; denom = 1 }

abbrev memo : MemoData
memo = record { signature = 60; eth_address = 8; amount = record { amount = 99; denom = 1 } }

abbrev replicate : ℕ → ℕ → List ℕ
replicate zero b = []
replicate (suc n) b = b ∷ replicate n b

abbrev last_byte : List ℕ → ℕ
last_byte [] = 0
last_byte (b ∷ []) = b
last_byte (b ∷ c ∷ bytes) = last_byte (c ∷ bytes)

abbrev env : Env
env = record {
  fault = λ _. false;
  fold = λ t. t;
  crypto = record {
    decode = λ _. some (replicate 64 1 ++ (28 ∷ []));
    text_hash = λ t. t;
    sig_to_pub = λ _ sig. if last_byte sig == 1 then some 9 else none;
    pubkey_to_address = λ _. 8;
  };
  parse_coin = λ _. some coin;
  parse_memo = λ _. some memo;
  signing_message = λ _. 61;
  query_transaction = λ _ _. some 62;
  signer_address = λ _. some 7;
  old_decimals = λ _. some 9;
  new_decimals = λ _. some 18;
  chain = record {
    patience = 3;
    create_request = λ _ _. answered (some 1);
    get_transaction_hash = λ _ _.
        some (record { tx_hash = some 63; status = some TxStatus.mined; failed_reason = none });
    transaction_receipt = λ hash _. some (record { tx_hash = hash; logs = [] });
    transaction_by_hash = λ hash _. some hash;
  };
}

abbrev start : State
start = record { tick = 0; db = record { migrations = []; next_id = 1 }; net = [] }

abbrev deposit : Deposit
deposit = record {
  minting_eth_address = 7;
  user_eth_address = 8;
  evm_signature = 60;
  evm_signature_message = 61;
  user_cosmos_address = 5;
  burning_cosmos_address = 6;
  amount = 64;
}

create_one_open_example : open_count 5 (create_if_all_ended env deposit start).1.db ≤ 1
create_one_open_example = create_one_open env deposit start 5 (omega arith)

abbrev opened : State
opened = (create_if_all_ended env deposit start).1

abbrev migration_1 : LikeCoinMigration
migration_1 = record (new_migration deposit) { id = 1 }

create_accepted_example :
    ((recovered : Text) × (recover_address env.crypto deposit.evm_signature
          deposit.evm_signature_message
        ≡ ok recovered)
      × (env.fold recovered ≡ env.fold deposit.user_eth_address))
    × (migration_1 ≡ record (new_migration deposit) { id = start.db.next_id })
    × (opened.db.migrations ≡ migration_1 ∷ start.db.migrations)
    × (opened.net ≡ start.net)
unfolding running
create_accepted_example = create_accepted env deposit start opened {m = migration_1} refl

abbrev waiting : State
waiting = (update_cosmos_tx_hash env 5 70 opened).1

abbrev waiting_1 : LikeCoinMigration
waiting_1 = record migration_1 { cosmos_tx_hash = some 70; status = verifying_cosmos_tx }

-- The amount of the memo is another one, and the migration's own is paid.
paid_net :
    (do_mint_by_cosmos_address env 5 waiting).1.net ≡ record { to = 8; value = 25 * 10 ^ 9 } ∷ []
unfolding running
paid_net = refl

mint_pays_once_example :
    ((do_mint_by_cosmos_address env 5 waiting).1.net ≡ waiting.net)
    ⊎ ((waiting_1.status ≡ verifying_cosmos_tx)
        × PaidOnce env waiting_1 waiting (do_mint_by_cosmos_address env 5 waiting).1)
unfolding running
mint_pays_once_example = mint_pays_once env 5 waiting waiting_1 refl

-- The answer of the signing service is lost: the migration fails, and the payment was asked for.
abbrev cut_off : Env
cut_off = record env { chain = record env.chain { create_request = λ _ _. lost } }

lost_net :
    (do_mint_by_cosmos_address cut_off 5 waiting).1.net
    ≡ record { to = 8; value = 25 * 10 ^ 9 } ∷ []
unfolding running
lost_net = refl

mint_never_again_example :
    (do_mint_by_cosmos_address env 5 (do_mint_by_cosmos_address cut_off 5 waiting).1).1.net
    ≡ (do_mint_by_cosmos_address cut_off 5 waiting).1.net
unfolding running
mint_never_again_example =
    mint_never_again cut_off env 5 waiting {a = waiting_1} refl
      (λ (e : (do_mint_by_cosmos_address cut_off 5 waiting).1.net ≡ waiting.net). cc)
