-- ===== src/Coin/Create.antt =====
-- Opening a migration, and giving it the hash of its deposit.
-- (migration-backend/pkg/logic/likecoin/create.go, update_cosmos_tx_hash.go)
use likecoin_op.Base.{
  ℕ, ◌≤◌, ◌≡◌, refl, inl, inr, Bool, true, false, none, some, List, [], ◌∷◌, ◌==◌, if◌then◌else◌,
  find, keep, length, arith, Text, Bool-cases, Option-cases,
}
use mathlib.Core.Path.{subst}
use likecoin_op.Exec.{
  exec, Error, ok, no_rows, migration_in_progress, signature_not_verified,
  not_pending_cosmos_tx_hash, Result, err, stop, lift, pure, raise, check, db_call,
}
use likecoin_op.Ethereum.{recover_address}
use likecoin_op.Coin.Model.{
  Status, pending_cosmos_tx_hash, verifying_cosmos_tx, LikeCoinMigration, Tables, Action, State,
  Env, is_open_of, query_non_ended, query_latest, insert_migration, update_migration,
}

-- The arguments of `CreateIfAllEnded`.
pub record Deposit : Type 0 where
  pub minting_eth_address : Text
  pub user_eth_address : Text
  pub evm_signature : Text
  pub evm_signature_message : Text
  pub user_cosmos_address : Text
  pub burning_cosmos_address : Text
  pub amount : Text

abbrev pub is_no_rows : Error → Bool
is_no_rows no_rows = true
is_no_rows _ = false

abbrev pub is_pending : Status → Bool
is_pending pending_cosmos_tx_hash = true
is_pending _ = false

abbrev pub new_migration : Deposit → LikeCoinMigration
new_migration d = record {
  id = 0;
  user_cosmos_address = d.user_cosmos_address;
  burning_cosmos_address = d.burning_cosmos_address;
  minting_eth_address = d.minting_eth_address;
  user_eth_address = d.user_eth_address;
  evm_signature = d.evm_signature;
  evm_signature_message = d.evm_signature_message;
  amount = d.amount;
  status = pending_cosmos_tx_hash;
  cosmos_tx_hash = none;
  evm_tx_hash = none;
  failed_reason = none;
}

module _ (env : Env) where
  -- The signature of `CreateIfAllEnded`, and the insertion.
  unfoldable pub create_verified : Deposit → Action LikeCoinMigration
  create_verified d =
      check (lift (recover_address env.crypto d.evm_signature d.evm_signature_message)) raise
        λ recovered.
          if env.fold recovered == env.fold d.user_eth_address
          then db_call env.fault (insert_migration (new_migration d))
          else raise signature_not_verified

  -- `CreateIfAllEnded`
  unfoldable pub create_if_all_ended : Deposit → Action LikeCoinMigration
  create_if_all_ended d =
      check (db_call env.fault (query_non_ended d.user_cosmos_address))
        (λ e. if is_no_rows e then create_verified d else raise e)
        (λ _. raise migration_in_progress)

  abbrev pub with_hash : LikeCoinMigration → Text → LikeCoinMigration
  with_hash m hash = record m { cosmos_tx_hash = some hash; status = verifying_cosmos_tx }

  -- `UpdateCosmosTxHash`
  unfoldable pub update_cosmos_tx_hash : Text → Text → Action LikeCoinMigration
  update_cosmos_tx_hash cosmos_address cosmos_tx_hash =
      check (db_call env.fault (query_latest cosmos_address)) raise λ m.
        if is_pending m.status
        then (check (db_call env.fault (update_migration (with_hash m cosmos_tx_hash))) raise
            λ _. pure (with_hash m cosmos_tx_hash))
        else raise not_pending_cosmos_tx_hash

-- The migrations of the address that have not ended.
abbrev pub open_count : Text → Tables → ℕ
open_count cosmos_address t = length (keep (is_open_of cosmos_address) t.migrations)

find-none-keep :
    (p : LikeCoinMigration → Bool) (ms : List LikeCoinMigration)
    → find p ms ≡ none
    → length (keep p ms) ≡ 0
find-none-keep p [] h = refl
find-none-keep p (m ∷ ms) h = ground (arith, find-none-keep p ms)

module _ (env : Env) where
  -- At most one migration of each address is open: opening one keeps this, for the address of the
  -- deposit and for every other.
  pub create_one_open :
      (d : Deposit) (w : State) (address : Text)
      → open_count address w.db ≤ 1
      → open_count address (create_if_all_ended env d w).1.db ≤ 1
  unfolding create_if_all_ended create_verified query_non_ended insert_migration exec
  create_one_open d w address h =
      let opened = is_open_of d.user_cosmos_address in
      elim (Option-cases (find opened w.db.migrations)) [
        | inl free ↦ elim (Bool-cases (d.user_cosmos_address == address)) [
          | inl same ↦
              let eq : d.user_cosmos_address ≡ address = ground (arith, same) in
              let zero_open : open_count address w.db ≡ 0 =
                subst (λ a. length (keep (is_open_of a) w.db.migrations) ≡ 0) eq
                  (find-none-keep opened w.db.migrations free) in
              ground (arith, zero_open, h)
          | inr differs ↦ ground (arith, differs, h)
        ]
        | inr (m, taken) ↦ ground (arith, taken, h)
      ]

  -- A deposit that is accepted comes with a signature of its address on the new chain, and is stored as
  -- a migration of its own that waits for the hash of the deposit.
  pub create_accepted :
      (d : Deposit) (w v : State) {m : LikeCoinMigration}
      → create_if_all_ended env d w ≡ (ok m, v)
      → ((recovered : Text) × (recover_address env.crypto d.evm_signature d.evm_signature_message
            ≡ ok recovered)
          × (env.fold recovered ≡ env.fold d.user_eth_address))
        × (m ≡ record (new_migration d) { id = w.db.next_id })
        × (v.db.migrations ≡ m ∷ w.db.migrations)
        × (v.net ≡ w.net)
  unfolding create_if_all_ended create_verified query_non_ended insert_migration exec
  create_accepted d w v {m} h =
      go (recover_address env.crypto d.evm_signature d.evm_signature_message) refl
    where
      go :
          (r : Result Text)
          → recover_address env.crypto d.evm_signature d.evm_signature_message ≡ r
          → ((recovered : Text) × (recover_address env.crypto d.evm_signature
                  d.evm_signature_message
                ≡ ok recovered)
              × (env.fold recovered ≡ env.fold d.user_eth_address))
            × (m ≡ record (new_migration d) { id = w.db.next_id })
            × (v.db.migrations ≡ m ∷ w.db.migrations)
            × (v.net ≡ w.net)
      go (ok recovered) e = (
        (recovered, e, ground (arith, e)),
        ground (arith, e),
        ground (arith, e),
        ground (arith, e),
      )
      go (err x) e = absurd (ground (arith, e))
      go (stop x) e = absurd (ground (arith, e))
