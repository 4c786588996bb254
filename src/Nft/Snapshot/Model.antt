-- ===== src/Nft/Snapshot/Model.antt =====
-- The rows of snapshots and the statements on them.
-- (migration-backend/pkg/model/likenft_asset_snapshot*.go, pkg/db/nft_snapshot*.go)
use likecoin_op.Base.{
  ℕ, suc, Bool, false, not, ◌&&◌, Option, none, some, List, [], ◌∷◌, ◌==◌, if◌then◌else◌, find, any,
  replace, Text,
}
use likecoin_op.Exec.{Error, Result, ok, err, no_rows, unique_violation, Exec, World}

pub data SnapshotStatus : Type 0 where
  init in_progress completed failed other : SnapshotStatus

pub record LikeNftAssetSnapshot : Type 0 where
  pub id : ℕ
  pub cosmos_address : Text
  pub block_height : Option Text
  pub block_time : Option ℕ
  pub status : SnapshotStatus
  pub failed_reason : Option Error

pub record LikeNftAssetSnapshotClass : Type 0 where
  pub nft_snapshot_id : ℕ
  pub cosmos_class_id : Text
  pub name : Text
  pub image : Text

pub record LikeNftAssetSnapshotNft : Type 0 where
  pub nft_snapshot_id : ℕ
  pub cosmos_class_id : Text
  pub cosmos_nft_id : Text
  pub name : Text
  pub image : Text

-- The tables, each with its newest row first.
pub record Tables : Type 0 where
  pub snapshots : List LikeNftAssetSnapshot
  pub classes : List LikeNftAssetSnapshotClass
  pub nfts : List LikeNftAssetSnapshotNft
  pub next : ℕ

abbrev pub Action : Type 0 → Type 0
Action A = Exec Tables (List ℕ) A

abbrev pub State : Type 0
State = World Tables (List ℕ)

abbrev pub or_no_rows : Option LikeNftAssetSnapshot → Result LikeNftAssetSnapshot
or_no_rows none = err no_rows
or_no_rows (some s) = ok s

-- `QueryLikeNFTAssetSnapshotById`
unfoldable pub query_snapshot : ℕ → Tables → Result LikeNftAssetSnapshot × Tables
query_snapshot id t = (or_no_rows (find (λ (s : LikeNftAssetSnapshot). s.id == id) t.snapshots), t)

-- `QueryLatestLikeNFTAssetSnapshotByCosmosAddress`
unfoldable pub query_latest_snapshot : Text → Tables → Result LikeNftAssetSnapshot × Tables
query_latest_snapshot address t =
    (or_no_rows (find (λ (s : LikeNftAssetSnapshot). s.cosmos_address == address) t.snapshots), t)

abbrev pub same_height : Option Text → Option Text → Bool
same_height (some a) (some b) = a == b
same_height _ _ = false

-- The unique index on the address and the height; a height that is null differs from every other.
abbrev pub same_block : LikeNftAssetSnapshot → LikeNftAssetSnapshot → Bool
same_block s x =
    not (x.id == s.id)
    && ((x.cosmos_address == s.cosmos_address) && same_height x.block_height s.block_height)

-- `InsertLikeNFTAssetSnapshot`
unfoldable pub insert_snapshot :
    LikeNftAssetSnapshot → Tables → Result LikeNftAssetSnapshot × Tables
insert_snapshot s t =
    let row = record s { id = t.next } in
    if any (same_block row) t.snapshots
    then (err unique_violation, t)
    else (ok row, record t { snapshots = row ∷ t.snapshots; next = suc t.next })

-- `UpdateLikeNFTAssetSnapshot`
unfoldable pub update_snapshot : LikeNftAssetSnapshot → Tables → Result (Unit {0}) × Tables
update_snapshot s t = if any (same_block s) t.snapshots then (err unique_violation, t) else (
  ok tt,
  record t {
    snapshots = replace (λ (x : LikeNftAssetSnapshot). x.id == s.id) (λ _. s) t.snapshots;
  },
)

-- One INSERT of several rows under a unique index: all of them, or none.
unfoldable pub insert_unique : {A : Type 0} → (A → A → Bool) → List A → List A → Option (List A)
insert_unique same [] old = some old
insert_unique same (x ∷ xs) old =
    let rest = insert_unique same xs (x ∷ old) in if any (same x) old then none else rest

abbrev pub same_class : LikeNftAssetSnapshotClass → LikeNftAssetSnapshotClass → Bool
same_class c x =
    (x.nft_snapshot_id == c.nft_snapshot_id) && (x.cosmos_class_id == c.cosmos_class_id)

abbrev pub same_nft : LikeNftAssetSnapshotNft → LikeNftAssetSnapshotNft → Bool
same_nft n x =
    (x.nft_snapshot_id == n.nft_snapshot_id)
    && ((x.cosmos_class_id == n.cosmos_class_id) && (x.cosmos_nft_id == n.cosmos_nft_id))

unfoldable pub add_classes : List LikeNftAssetSnapshotClass → Tables → Result (Unit {0}) × Tables
add_classes cs t = elim (insert_unique same_class cs t.classes) [
  | none ↦ (err unique_violation, t)
  | some rows ↦ (ok tt, record t { classes = rows })
]

unfoldable pub add_nfts : List LikeNftAssetSnapshotNft → Tables → Result (Unit {0}) × Tables
add_nfts ns t = elim (insert_unique same_nft ns t.nfts) [
  | none ↦ (err unique_violation, t)
  | some rows ↦ (ok tt, record t { nfts = rows })
]
