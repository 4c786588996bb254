-- ===== src/Coin/Model.antt =====
-- The migrations of LikeCoin and the world of their service.
-- (migration-backend/pkg/model/likecoin_migration.go, migration-backend/pkg/db/likecoin_migration.go)
use likecoin_op.Base.{
  ℕ, suc, Bool, true, false, not, ◌&&◌, Option, none, some, List, ◌∷◌, ◌==◌, if◌then◌else◌, find,
  any, replace, Text,
}
use likecoin_op.Exec.{Error, Result, ok, err, no_rows, unique_violation, Exec, World}
use likecoin_op.Ethereum.{Crypto, Chain}

pub data Status : Type 0 where
  pending_cosmos_tx_hash verifying_cosmos_tx evm_minting evm_verifying completed failed : Status
  other : Status

pub record LikeCoinMigration : Type 0 where
  pub id : ℕ
  pub user_cosmos_address : Text
  pub burning_cosmos_address : Text
  pub minting_eth_address : Text
  pub user_eth_address : Text
  pub evm_signature : Text
  pub evm_signature_message : Text
  pub amount : Text
  pub status : Status
  pub cosmos_tx_hash : Option Text
  pub evm_tx_hash : Option Text
  pub failed_reason : Option Error

-- The table, the newest row first.
pub record Tables : Type 0 where
  pub migrations : List LikeCoinMigration
  pub next_id : ℕ

-- A payment that the signing service was asked for, whatever became of it.
pub record Transfer : Type 0 where
  pub to : Text
  pub value : ℕ

abbrev pub Action : Type 0 → Type 0
Action A = Exec Tables (List Transfer) A

abbrev pub State : Type 0
State = World Tables (List Transfer)

-- `types.Coin` of the Cosmos SDK; an amount that was parsed is not negative.
pub record Coin : Type 0 where
  pub amount : ℕ
  pub denom : Text

pub record MemoData : Type 0 where
  pub signature : Text
  pub eth_address : Text
  pub amount : Coin

-- The services outside, by the number of the call, and the pure functions of the libraries.
pub record Env : Type 0 where
  pub fault : ℕ → Bool
  -- `strings.EqualFold` compares these.
  pub fold : Text → Text
  pub crypto : Crypto
  pub parse_coin : Text → Option Coin
  pub parse_memo : Text → Option MemoData
  pub signing_message : Coin → Text
  pub query_transaction : Text → ℕ → Option Text
  pub signer_address : ℕ → Option Text
  pub old_decimals : ℕ → Option ℕ
  pub new_decimals : ℕ → Option ℕ
  pub chain : Chain Transfer

abbrev pub is_ended : Status → Bool
is_ended completed = true
is_ended failed = true
is_ended _ = false

abbrev pub or_no_rows : Option LikeCoinMigration → Result LikeCoinMigration
or_no_rows none = err no_rows
or_no_rows (some m) = ok m

abbrev pub is_open_of : Text → LikeCoinMigration → Bool
is_open_of cosmos_address m = (m.user_cosmos_address == cosmos_address) && not (is_ended m.status)

-- `QueryNonEndedLikeCoinMigration`
unfoldable pub query_non_ended : Text → Tables → Result LikeCoinMigration × Tables
query_non_ended cosmos_address t = (or_no_rows (find (is_open_of cosmos_address) t.migrations), t)

-- `QueryLatestLikeCoinMigration`
unfoldable pub query_latest : Text → Tables → Result LikeCoinMigration × Tables
query_latest cosmos_address t = (
  or_no_rows
      (find (λ (m : LikeCoinMigration). m.user_cosmos_address == cosmos_address) t.migrations),
  t,
)

-- `UNIQUE NULLS DISTINCT (cosmos_tx_hash)`
abbrev pub same_hash : LikeCoinMigration → LikeCoinMigration → Bool
same_hash m n = elim m.cosmos_tx_hash [
  | none ↦ false
  | some h ↦ elim n.cosmos_tx_hash [ none ↦ false | some k ↦ (h == k) && not (m.id == n.id) ]
]

-- `InsertLikeCoinMigration`
unfoldable pub insert_migration : LikeCoinMigration → Tables → Result LikeCoinMigration × Tables
insert_migration m t =
    let row = record m { id = t.next_id } in
    if any (same_hash row) t.migrations
    then (err unique_violation, t)
    else (ok row, record t { migrations = row ∷ t.migrations; next_id = suc t.next_id })

-- `UpdateLikeCoinMigration`
unfoldable pub update_migration : LikeCoinMigration → Tables → Result (Unit {0}) × Tables
update_migration m t =
    let same = λ (n : LikeCoinMigration). n.id == m.id in
    if any same t.migrations
    then (if any (same_hash m) t.migrations
        then (err unique_violation, t)
        else (ok tt, record t { migrations = replace same (λ _. m) t.migrations }))
    else (err no_rows, t)
