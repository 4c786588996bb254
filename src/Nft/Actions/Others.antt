-- ===== src/Nft/Actions/Others.antt =====
-- The actions of transfers and tokens leave the rows of the new classes alone.
-- (migration-backend/pkg/logic/likenft)
use likecoin_op.Base.{ℕ, suc, zero, ◌≡◌, refl, Option, none, some, List, find, arith, Text}
use likecoin_op.Exec.{Error, Result, raise, pure, db_call, error_of, join_opt, ◌>>=◌}
use likecoin_op.Exec.Frame.{
  keeps_rules, Keeps, Keeps-pure, Keeps-raise, Keeps-halt, Keeps-outside, Keeps-check, Keeps-bind,
  Keeps-if, Keeps-db_call,
}
use likecoin_op.Nft.Amount.{Integer, pos, neg}
use likecoin_op.Nft.Actions.Model.{
  ActionStatus, LikeNftMigrationActionTransferClass, LikeNftMigrationActionMintNft, Tables,
  transfer_ownership, safe_mint_with_token_id, transfer_from, Action, query_new_class,
  query_transfer_class, insert_transfer_class, update_transfer_class, query_mint_nft,
  insert_mint_nft, update_mint_nft,
}
use likecoin_op.Ethereum.{send}
use likecoin_op.Nft.Actions.Calls.{Env, Class, CosmosNft, mint_nfts}
use likecoin_op.Ethereum.Quiet.{Keeps-given}
use likecoin_op.Nft.Actions.NewClass.Announce.{lift-Untouched}
use likecoin_op.Nft.Actions.TransferClass.{
  get_or_create_transfer_class, transfer_class_failed, begin_transfer_class, transfer_class_by,
  do_transfer_class,
}
use likecoin_op.Nft.Actions.MintNft.{
  get_or_create_mint_nft, mint_nft_failed, describe, describe_alone, mint_alone, described,
  make_batch, add, mint_batch, mint_numbered, mint_by, mint, begin_mint_nft, mint_nft_by,
  do_mint_nft,
}
use likecoin_op.Nft.Actions.Advances.{Untouched, untouched, asked-Untouched}

-- A statement that leaves the new classes alone.
abbrev pub Leaves : {A : Type 0} → (Tables → Result A × Tables) → Type 0
Leaves f =
    (t : Tables)
    → ((f t).1.new_classes ≡ t.new_classes) × ((f t).1.next_new_class ≡ t.next_new_class)

module _ (env : Env) where
  pub statement-Untouched :
      {A : Type 0} (f : Tables → Result A × Tables)
      → Leaves f
      → Keeps Untouched (db_call env.fault f)
  statement-Untouched f h =
      Keeps-db_call untouched env.fault f
        (λ w. record { rows = (h w.db).0; next = (h w.db).1; told = λ class. refl })

  error_of-Untouched :
      {A : Type 0} (m : Action A) → Keeps Untouched m → Keeps Untouched (error_of m)
  error_of-Untouched m k =
      Keeps-check untouched m (λ e. pure (some e)) (λ _. pure none) k
        (λ e. Keeps-pure untouched (some e)) (λ _. Keeps-pure untouched none)

  -- A failure that is stored by a statement that leaves the new classes alone.
  pub stored-Untouched :
      {B : Type 0} (f : Tables → Result (Unit {0}) × Tables) (e : Error)
      → Leaves f
      → Keeps Untouched
          (error_of (db_call env.fault f) >>= λ failure. raise {A = B} (join_opt e failure))
  stored-Untouched {B} f e h =
      Keeps-bind untouched (error_of (db_call env.fault f)) _
        (error_of-Untouched (db_call env.fault f) (statement-Untouched f h))
        (λ failure. Keeps-raise untouched (join_opt e failure))

  pub query_new_class-Untouched :
      (a b : Option Text) → Keeps Untouched (db_call env.fault (query_new_class a b))
  unfolding query_new_class
  query_new_class-Untouched a b = statement-Untouched (query_new_class a b) (λ t. (refl, refl))

  pub query_transfer-Untouched :
      (a b c : Option Text) → Keeps Untouched (db_call env.fault (query_transfer_class a b c))
  unfolding query_transfer_class
  query_transfer-Untouched a b c =
      statement-Untouched (query_transfer_class a b c) (λ t. (refl, refl))

  pub insert_transfer-Untouched :
      (a : LikeNftMigrationActionTransferClass)
      → Keeps Untouched (db_call env.fault (insert_transfer_class a))
  unfolding insert_transfer_class
  insert_transfer-Untouched a =
      statement-Untouched (insert_transfer_class a) (λ t. (ground arith, ground arith))

  pub update_transfer-Untouched :
      (a : LikeNftMigrationActionTransferClass)
      → Keeps Untouched (db_call env.fault (update_transfer_class a))
  unfolding update_transfer_class
  update_transfer-Untouched a = statement-Untouched (update_transfer_class a) (λ t. (refl, refl))

  pub query_mint-Untouched :
      (a b : Option Text) → Keeps Untouched (db_call env.fault (query_mint_nft a b))
  unfolding query_mint_nft
  query_mint-Untouched a b = statement-Untouched (query_mint_nft a b) (λ t. (refl, refl))

  pub insert_mint-Untouched :
      (a : LikeNftMigrationActionMintNft) → Keeps Untouched (db_call env.fault (insert_mint_nft a))
  unfolding insert_mint_nft
  insert_mint-Untouched a =
      statement-Untouched (insert_mint_nft a) (λ t. (ground arith, ground arith))

  pub update_mint-Untouched :
      (a : LikeNftMigrationActionMintNft) → Keeps Untouched (db_call env.fault (update_mint_nft a))
  unfolding update_mint_nft
  update_mint-Untouched a = statement-Untouched (update_mint_nft a) (λ t. (refl, refl))

  pub transfer_ownership-Untouched :
      (a b : Text) → Keeps Untouched (send env.chain (transfer_ownership a b))
  transfer_ownership-Untouched a b =
      asked-Untouched env (transfer_ownership a b) (λ class net. refl)

  pub mint_nfts-Untouched :
      (a : Text) (n : ℕ) (b c d : List Text) → Keeps Untouched (mint_nfts env a n b c d)
  mint_nfts-Untouched a n b c d =
      asked-Untouched env (safe_mint_with_token_id a n b c d) (λ class net. refl)

  pub transfer_from-Untouched :
      (a b c : Text) (n : Integer) → Keeps Untouched (send env.chain (transfer_from a b c n))
  transfer_from-Untouched a b c n = asked-Untouched env (transfer_from a b c n) (λ class net. refl)

pub ruleset quiet_rules = (
  keeps_rules, untouched, Keeps-given, lift-Untouched, query_new_class-Untouched,
  query_transfer-Untouched, insert_transfer-Untouched, update_transfer-Untouched,
  query_mint-Untouched, insert_mint-Untouched, update_mint-Untouched, transfer_ownership-Untouched,
  mint_nfts-Untouched, transfer_from-Untouched,
)

module _ (env : Env) where
  pub get_or_create_transfer-Untouched :
      (class cosmos_owner evm_owner : Text)
      → Keeps Untouched (get_or_create_transfer_class env class cosmos_owner evm_owner)
  unfolding get_or_create_transfer_class
  get_or_create_transfer-Untouched class cosmos_owner evm_owner = search quiet_rules

  transfer_class_failed-Untouched :
      (a : LikeNftMigrationActionTransferClass) (e : Error)
      → Keeps Untouched (transfer_class_failed env {A = LikeNftMigrationActionTransferClass} a e)
  unfolding transfer_class_failed
  transfer_class_failed-Untouched a e = search quiet_rules

  begin_transfer-Untouched :
      (a : LikeNftMigrationActionTransferClass) → Keeps Untouched (begin_transfer_class env a)
  unfolding begin_transfer_class
  begin_transfer-Untouched a = search (quiet_rules, transfer_class_failed-Untouched)

  transfer_by-Untouched :
      (s : ActionStatus) (a : LikeNftMigrationActionTransferClass)
      → Keeps Untouched (transfer_class_by env s a)
  unfolding transfer_class_by
  transfer_by-Untouched ActionStatus.completed a = search quiet_rules
  transfer_by-Untouched ActionStatus.init a = begin_transfer-Untouched a
  transfer_by-Untouched ActionStatus.failed a = begin_transfer-Untouched a
  transfer_by-Untouched ActionStatus.in_progress a = search quiet_rules
  transfer_by-Untouched ActionStatus.other a = search quiet_rules

  pub do_transfer-Untouched :
      (a : LikeNftMigrationActionTransferClass) → Keeps Untouched (do_transfer_class env a)
  unfolding do_transfer_class
  do_transfer-Untouched a = transfer_by-Untouched a.status a

  pub get_or_create_mint-Untouched :
      (class nft minter evm_owner : Text)
      → Keeps Untouched (get_or_create_mint_nft env class nft minter evm_owner)
  unfolding get_or_create_mint_nft
  get_or_create_mint-Untouched class nft minter evm_owner = search quiet_rules

  mint_nft_failed-Untouched :
      (a : LikeNftMigrationActionMintNft) (e : Error)
      → Keeps Untouched (mint_nft_failed env {A = LikeNftMigrationActionMintNft} a e)
  unfolding mint_nft_failed
  mint_nft_failed-Untouched a e = search quiet_rules

  describe-Untouched :
      (class : Class) (iscn : Text) (nft : CosmosNft)
      → Keeps Untouched (describe env class iscn nft)
  unfolding describe
  describe-Untouched class iscn nft = search quiet_rules

  describe_alone-Untouched :
      (class : Class) (iscn a b : Text) (nft : CosmosNft)
      → Keeps Untouched (describe_alone env class iscn a b nft)
  unfolding describe_alone
  describe_alone-Untouched class iscn a b nft = search quiet_rules

  mint_alone-Untouched :
      (a : LikeNftMigrationActionMintNft) (class : Class) (iscn c : Text) (total : ℕ)
      → Keeps Untouched (mint_alone env a class iscn c total)
  unfolding mint_alone
  mint_alone-Untouched a class iscn c total =
      search (quiet_rules, describe_alone-Untouched) depth 12

  described-Untouched :
      (class : Class) (iscn : Text) (nft : Option CosmosNft)
      → Keeps Untouched (described env class iscn nft)
  described-Untouched class iscn none = search quiet_rules
  described-Untouched class iscn (some nft) = describe-Untouched class iscn nft

  make_batch-Untouched :
      (class : Class) (iscn : Text) (nfts : List CosmosNft) (to : Text) (rounds n : ℕ)
      → Keeps Untouched (make_batch env class iscn nfts to rounds n)
  unfolding make_batch
  make_batch-Untouched class iscn nfts to zero n = search quiet_rules
  make_batch-Untouched class iscn nfts to (suc rounds) n =
      Keeps-check untouched
        (described env class iscn (find (λ (m : CosmosNft). env.has_number n m.id) nfts)) raise _
        (described-Untouched class iscn (find (λ (m : CosmosNft). env.has_number n m.id) nfts))
        (Keeps-raise untouched)
        λ (metadata, memo).
          Keeps-check untouched (make_batch env class iscn nfts to rounds (suc n)) raise _
            (make_batch-Untouched class iscn nfts to rounds (suc n)) (Keeps-raise untouched)
            λ batch. Keeps-pure untouched (add to memo metadata batch)

  mint_batch-Untouched :
      (a : LikeNftMigrationActionMintNft) (class : Class) (iscn c : Text) (total : ℕ) (n : Integer)
      → Keeps Untouched (mint_batch env a class iscn c total n)
  unfolding mint_batch
  mint_batch-Untouched a class iscn c total (neg n) = search quiet_rules
  mint_batch-Untouched a class iscn c total (pos zero) = search quiet_rules
  mint_batch-Untouched a class iscn c total (pos (suc n)) =
      search (quiet_rules, make_batch-Untouched)

  mint_numbered-Untouched :
      (a : LikeNftMigrationActionMintNft) (class : Class) (iscn c : Text) (total n : ℕ)
      → Keeps Untouched (mint_numbered env a class iscn c total n)
  unfolding mint_numbered
  mint_numbered-Untouched a class iscn c total n = search (quiet_rules, mint_batch-Untouched)

  mint_by-Untouched :
      (n : Option ℕ) (a : LikeNftMigrationActionMintNft) (class : Class) (iscn c : Text) (total : ℕ)
      → Keeps Untouched (mint_by env n a class iscn c total)
  mint_by-Untouched none a class iscn c total = mint_alone-Untouched a class iscn c total
  mint_by-Untouched (some n) a class iscn c total = mint_numbered-Untouched a class iscn c total n

  mint-Untouched : (a : LikeNftMigrationActionMintNft) → Keeps Untouched (mint env a)
  unfolding mint
  mint-Untouched a = search (quiet_rules, mint_by-Untouched) depth 14

  begin_mint-Untouched :
      (a : LikeNftMigrationActionMintNft) → Keeps Untouched (begin_mint_nft env a)
  unfolding begin_mint_nft
  begin_mint-Untouched a = search (quiet_rules, mint-Untouched, mint_nft_failed-Untouched)

  mint_nft_by-Untouched :
      (s : ActionStatus) (a : LikeNftMigrationActionMintNft) → Keeps Untouched (mint_nft_by env s a)
  unfolding mint_nft_by
  mint_nft_by-Untouched ActionStatus.completed a = search quiet_rules
  mint_nft_by-Untouched ActionStatus.init a = begin_mint-Untouched a
  mint_nft_by-Untouched ActionStatus.failed a = begin_mint-Untouched a
  mint_nft_by-Untouched ActionStatus.in_progress a = search quiet_rules
  mint_nft_by-Untouched ActionStatus.other a = search quiet_rules

  pub do_mint-Untouched : (a : LikeNftMigrationActionMintNft) → Keeps Untouched (do_mint_nft env a)
  unfolding do_mint_nft
  do_mint-Untouched a = mint_nft_by-Untouched a.status a
