-- ===== src/Nft/Actions/Model.antt =====
-- The rows of the actions on the new chain, and their statements.
-- (migration-backend/pkg/model/likenft_migration_action_*.go, migration-backend/pkg/db/likenft_migration_action_*.go)
use likecoin_op.Base.{
  ℕ, suc, Bool, true, false, ◌&&◌, Option, none, some, List, ◌∷◌, ◌==◌, if◌then◌else◌, find, any,
  replace, Text,
}
use likecoin_op.Exec.{
  Error, Result, ok, err, no_rows, no_rows_affected, unique_violation, Exec, World,
}
use likecoin_op.Nft.Amount.{Integer}
use likecoin_op.Nft.Model
use likecoin_op.Nft.Model.{LikeNftAssetMigrationClass, LikeNftAssetMigrationNft}

-- The status of an action; the three types of the source have the same values.
pub data ActionStatus : Type 0 where
  init in_progress completed failed other : ActionStatus

pub record LikeNftMigrationActionNewClass : Type 0 where
  pub id : ℕ
  pub cosmos_class_id : Text
  pub initial_owner : Text
  pub initial_minter : Text
  pub initial_updater : Text
  pub status : ActionStatus
  pub evm_class_id : Option Text
  pub evm_tx_hash : Option Text
  pub failed_reason : Option Error

pub record LikeNftMigrationActionTransferClass : Type 0 where
  pub id : ℕ
  pub evm_class_id : Text
  pub cosmos_owner : Text
  pub evm_owner : Text
  pub status : ActionStatus
  pub evm_tx_hash : Option Text
  pub failed_reason : Option Error

pub record LikeNftMigrationActionMintNft : Type 0 where
  pub id : ℕ
  pub evm_class_id : Text
  pub cosmos_nft_id : Text
  pub initial_batch_mint_owner : Text
  pub evm_owner : Text
  pub status : ActionStatus
  pub evm_tx_hash : Option Text
  pub failed_reason : Option Error

-- The tables of the migration, and those of the actions with their serial counters.
pub record Tables : Type 0 where
  pub assets : Model.Tables
  pub new_classes : List LikeNftMigrationActionNewClass
  pub next_new_class : ℕ
  pub transfer_classes : List LikeNftMigrationActionTransferClass
  pub next_transfer_class : ℕ
  pub mint_nfts : List LikeNftMigrationActionMintNft
  pub next_mint_nft : ℕ

-- The configuration of a new class on the new chain.
pub record MsgNewBookNft : Type 0 where
  pub creator : Text
  pub updater : Text
  pub minter : Text
  pub name : Text
  pub symbol : Text
  pub metadata : Text
  pub max_supply : ℕ

-- What leaves the program: the calls that the signing service is asked for, and the start of the
-- background task that tells the LikeCoin API about a migrated class.
pub data Request : Type 0 where
  new_book_nft : MsgNewBookNft → Request
  transfer_ownership : Text → Text → Request
  safe_mint_with_token_id : Text → ℕ → List Text → List Text → List Text → Request
  transfer_from : Text → Text → Text → Integer → Request
  submit_evm_book_migrated : Text → Text → Request

abbrev pub Action : Type 0 → Type 0
Action A = Exec Tables (List Request) A

abbrev pub State : Type 0
State = World Tables (List Request)

abbrev pub or_no_rows : {A : Type 0} → Option A → Result A
or_no_rows none = err no_rows
or_no_rows (some a) = ok a

-- A condition of a WHERE clause that the filter leaves out holds.
abbrev pub filters : Option Text → Text → Bool
filters none column = true
filters (some value) column = column == value

abbrev pub filters_null : Option Text → Option Text → Bool
filters_null none column = true
filters_null (some value) none = false
filters_null (some value) (some column) = column == value

-- `QueryLikeNFTMigrationActionNewClass` by the class on Cosmos and the class on the new chain
unfoldable pub query_new_class :
    Option Text → Option Text → Tables → Result LikeNftMigrationActionNewClass × Tables
query_new_class cosmos_class_id evm_class_id t = (
  or_no_rows (
      find
        (λ (a : LikeNftMigrationActionNewClass).
          filters cosmos_class_id a.cosmos_class_id && filters_null evm_class_id a.evm_class_id)
        t.new_classes),
  t,
)

-- `InsertLikeNFTMigrationActionNewClass`
unfoldable pub insert_new_class :
    LikeNftMigrationActionNewClass → Tables → Result LikeNftMigrationActionNewClass × Tables
insert_new_class a t =
    let row = record a { id = t.next_new_class } in
    if any (λ (b : LikeNftMigrationActionNewClass). b.cosmos_class_id == a.cosmos_class_id)
      t.new_classes
    then (err unique_violation, t)
    else (
      ok row,
      record t { new_classes = row ∷ t.new_classes; next_new_class = suc t.next_new_class },
    )

-- The check of the affected rows that ends each of the three update functions.
abbrev pub affected : Bool → Result (Unit {0})
affected true = ok tt
affected false = err no_rows_affected

-- `UpdateLikeNFTMigrationActionNewClass`; no caller changes the columns of a unique constraint.
unfoldable pub update_new_class :
    LikeNftMigrationActionNewClass → Tables → Result (Unit {0}) × Tables
update_new_class a t = (
  affected (any (λ (b : LikeNftMigrationActionNewClass). b.id == a.id) t.new_classes),
  record t {
    new_classes =
        replace (λ (b : LikeNftMigrationActionNewClass). b.id == a.id) (λ _. a) t.new_classes;
  },
)

-- `QueryLikeNFTMigrationActionTransferClass` by the class and its two owners
unfoldable pub query_transfer_class :
    Option Text
    → Option Text
    → Option Text
    → Tables
    → Result LikeNftMigrationActionTransferClass × Tables
query_transfer_class evm_class_id cosmos_owner evm_owner t = (
  or_no_rows (
      find
        (λ (a : LikeNftMigrationActionTransferClass).
          filters evm_class_id a.evm_class_id
          && filters cosmos_owner a.cosmos_owner
          && filters evm_owner a.evm_owner)
        t.transfer_classes),
  t,
)

-- `InsertLikeNFTMigrationActionTransferClass`: the class and the new owner are unique together.
unfoldable pub insert_transfer_class :
    LikeNftMigrationActionTransferClass
    → Tables
    → Result LikeNftMigrationActionTransferClass × Tables
insert_transfer_class a t =
    let row = record a { id = t.next_transfer_class } in
    if any
      (λ (b : LikeNftMigrationActionTransferClass).
        (b.evm_class_id == a.evm_class_id) && (b.evm_owner == a.evm_owner))
      t.transfer_classes
    then (err unique_violation, t)
    else (
      ok row,
      record t {
        transfer_classes = row ∷ t.transfer_classes;
        next_transfer_class = suc t.next_transfer_class;
      },
    )

-- `UpdateLikeNFTMigrationActionTransferClass`
unfoldable pub update_transfer_class :
    LikeNftMigrationActionTransferClass → Tables → Result (Unit {0}) × Tables
update_transfer_class a t = (
  affected (any (λ (b : LikeNftMigrationActionTransferClass). b.id == a.id) t.transfer_classes),
  record t {
    transfer_classes =
        replace (λ (b : LikeNftMigrationActionTransferClass). b.id == a.id) (λ _. a)
          t.transfer_classes;
  },
)

-- `QueryLikeNFTMigrationActionMintNFT` by the class and the token on Cosmos
unfoldable pub query_mint_nft :
    Option Text → Option Text → Tables → Result LikeNftMigrationActionMintNft × Tables
query_mint_nft evm_class_id cosmos_nft_id t = (
  or_no_rows (
      find
        (λ (a : LikeNftMigrationActionMintNft).
          filters evm_class_id a.evm_class_id && filters cosmos_nft_id a.cosmos_nft_id)
        t.mint_nfts),
  t,
)

-- `InsertLikeNFTMigrationActionMintNFT`: the class and the token are unique together.
unfoldable pub insert_mint_nft :
    LikeNftMigrationActionMintNft → Tables → Result LikeNftMigrationActionMintNft × Tables
insert_mint_nft a t =
    let row = record a { id = t.next_mint_nft } in
    if any
      (λ (b : LikeNftMigrationActionMintNft).
        (b.evm_class_id == a.evm_class_id) && (b.cosmos_nft_id == a.cosmos_nft_id))
      t.mint_nfts
    then (err unique_violation, t)
    else (ok row, record t { mint_nfts = row ∷ t.mint_nfts; next_mint_nft = suc t.next_mint_nft })

-- `UpdateLikeNFTMigrationActionMintNFT`
unfoldable pub update_mint_nft : LikeNftMigrationActionMintNft → Tables → Result (Unit {0}) × Tables
update_mint_nft a t = (
  affected (any (λ (b : LikeNftMigrationActionMintNft). b.id == a.id) t.mint_nfts),
  record t {
    mint_nfts = replace (λ (b : LikeNftMigrationActionMintNft). b.id == a.id) (λ _. a) t.mint_nfts;
  },
)

-- A statement on the tables of the migration.
abbrev pub on_assets :
    {A : Type 0} → (Model.Tables → Result A × Model.Tables) → Tables → Result A × Tables
on_assets f t = ((f t.assets).0, record t { assets = (f t.assets).1 })
