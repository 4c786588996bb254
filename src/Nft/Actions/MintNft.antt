-- ===== src/Nft/Actions/MintNft.antt =====
-- Bringing a token to the new chain.
-- (migration-backend/pkg/logic/likenft/do_mint_nft_action.go, get_or_create_mint_nft_action.go)
pub mod Numbered
use likecoin_op.Base.{
  ℕ, suc, zero, ◌+◌, Bool, true, false, Option, none, some, List, [], ◌∷◌, if◌then◌else◌, find,
  Text,
}
use likecoin_op.Exec.{
  Error, not_init_or_failed, nil_dereference, rpc_error, join_opt, pure, raise, halt, check,
  error_of, db_call, outside, ◌>>=◌,
}
use likecoin_op.Coin.Create.{is_no_rows}
use likecoin_op.Nft.Amount.{Integer, pos, neg, int64, get_desire_batch_mint_amount}
use likecoin_op.Nft.Actions.Model.{
  ActionStatus, LikeNftMigrationActionNewClass, LikeNftMigrationActionMintNft, transfer_from,
  Action, query_new_class, query_mint_nft, insert_mint_nft, update_mint_nft,
}
use likecoin_op.Ethereum.{Receipt, send, given}
use likecoin_op.Nft.Actions.Calls.{Class, CosmosNft, Env, mint_nfts, make_metadata}
use likecoin_op.Nft.Actions.NewClass.{lift}

-- What a batch mints, a list for each column.
pub record Batch : Type 0 where
  pub tos : List Text
  pub memos : List Text
  pub metadata_list : List Text

abbrev pub add : Text → Text → Text → Batch → Batch
add to memo metadata b = record {
  tos = to ∷ b.tos;
  memos = memo ∷ b.memos;
  metadata_list = metadata ∷ b.metadata_list;
}

module _ (env : Env) where
  -- `GetOrCreateMintNFTAction`
  unfoldable pub get_or_create_mint_nft :
      Text → Text → Text → Text → Action LikeNftMigrationActionMintNft
  get_or_create_mint_nft evm_class_id cosmos_nft_id initial_batch_mint_owner evm_owner =
      check (db_call env.fault (query_mint_nft (some evm_class_id) (some cosmos_nft_id)))
        (λ e.
          if is_no_rows e
          then (db_call env.fault (
              insert_mint_nft (record {
                id = 0;
                evm_class_id = evm_class_id;
                cosmos_nft_id = cosmos_nft_id;
                initial_batch_mint_owner = initial_batch_mint_owner;
                evm_owner = evm_owner;
                status = ActionStatus.init;
                evm_tx_hash = none;
                failed_reason = none;
              })))
          else raise e)
        pure

  -- `doMintNFTActionFailed`
  unfoldable pub mint_nft_failed : {A : Type 0} → LikeNftMigrationActionMintNft → Error → Action A
  mint_nft_failed a e =
      error_of (
        db_call env.fault
          (update_mint_nft (record a { status = ActionStatus.failed; failed_reason = some e })))
      >>= λ failure. raise (join_opt e failure)

  -- The metadata and the memo of a token of Cosmos.
  unfoldable pub describe : Class → Text → CosmosNft → Action (Text × Text)
  describe class iscn nft =
      check (outside (env.query_external_metadata nft) rpc_error) raise λ metadata_override.
        check (lift (make_metadata env (env.nft_metadata nft class iscn metadata_override))) raise
          λ metadata.
            check (outside (env.query_nft_events nft.class_id nft.id) rpc_error) raise
              λ events. pure (metadata, env.make_memo events)

  -- The same with the ids of the action, for a token that is minted alone.
  unfoldable pub describe_alone : Class → Text → Text → Text → CosmosNft → Action (Text × Text)
  describe_alone class iscn cosmos_class_id cosmos_nft_id nft =
      check (outside (env.query_external_metadata nft) rpc_error) raise λ metadata_override.
        check (lift (make_metadata env (env.nft_metadata nft class iscn metadata_override))) raise
          λ metadata.
            check (outside (env.query_nft_events cosmos_class_id cosmos_nft_id) rpc_error) raise
              λ events. pure (metadata, env.make_memo events)

  -- A token whose id has no number is minted alone, to its owner.
  unfoldable pub mint_alone : LikeNftMigrationActionMintNft → Class → Text → Text → ℕ → Action Text
  mint_alone a class iscn cosmos_class_id total_supply =
      check (outside (env.query_nft cosmos_class_id a.cosmos_nft_id) rpc_error) raise λ response.
        given response (halt nil_dereference) λ nft.
          check (describe_alone class iscn cosmos_class_id a.cosmos_nft_id nft) raise
            λ (metadata, memo).
              check
                (mint_nfts env (env.hex_to_address a.evm_class_id) total_supply
                  (env.hex_to_address a.evm_owner ∷ []) (memo ∷ []) (metadata ∷ []))
                raise λ (hash, _). pure hash

  -- One round of the loop over a batch: the token of a number is described if Cosmos has it.
  abbrev pub described : Class → Text → Option CosmosNft → Action (Text × Text)
  described class iscn none = pure (env.empty_metadata, env.empty_memo)
  described class iscn (some nft) = describe class iscn nft

  -- The loop over a batch, for the rounds that are left, from a number on.
  unfoldable pub make_batch : Class → Text → List CosmosNft → Text → ℕ → ℕ → Action Batch
  make_batch class iscn nfts to zero number =
      pure (record { tos = []; memos = []; metadata_list = [] })
  make_batch class iscn nfts to (suc rounds) number =
      let others = make_batch class iscn nfts to rounds (suc number) in
      check (described class iscn (find (λ (n : CosmosNft). env.has_number number n.id) nfts)) raise
        λ (metadata, memo). check others raise λ batch. pure (add to memo metadata batch)

  -- The batch that brings the supply up to the number of the token.
  unfoldable pub mint_batch :
      LikeNftMigrationActionMintNft → Class → Text → Text → ℕ → Integer → Action (Unit {0})
  mint_batch a class iscn cosmos_class_id total_supply (neg n) = pure tt
  mint_batch a class iscn cosmos_class_id total_supply (pos zero) = pure tt
  mint_batch a class iscn cosmos_class_id total_supply (pos (suc n)) =
      check (outside (env.query_nfts_of_class cosmos_class_id) rpc_error) raise λ nfts.
        check
          (make_batch class iscn nfts (env.hex_to_address a.initial_batch_mint_owner) (suc n)
            total_supply)
          raise
          λ batch.
            check
              (mint_nfts env (env.hex_to_address a.evm_class_id) total_supply batch.tos batch.memos
                batch.metadata_list)
              raise λ _. pure tt

  -- A numbered token: the batch, and the transfer of the token to its owner.
  unfoldable pub mint_numbered :
      LikeNftMigrationActionMintNft → Class → Text → Text → ℕ → ℕ → Action Text
  mint_numbered a class iscn cosmos_class_id total_supply number =
      check
        (mint_batch a class iscn cosmos_class_id total_supply
          (get_desire_batch_mint_amount total_supply number))
        raise
        λ _.
          check
            (send env.chain (
              transfer_from (env.hex_to_address a.evm_class_id)
                (env.hex_to_address a.initial_batch_mint_owner) (env.hex_to_address a.evm_owner)
                (int64 number)))
            raise λ (hash, _). pure hash

  -- The number that ends the id of a token, where it is a word of 64 bits.
  abbrev pub number_of_nft : Text → Option ℕ
  number_of_nft id = elim (env.number_of id) [ none ↦ none | some digits ↦ env.parse_uint digits ]

  abbrev pub mint_by :
      Option ℕ → LikeNftMigrationActionMintNft → Class → Text → Text → ℕ → Action Text
  mint_by none a class iscn cosmos_class_id total_supply =
      mint_alone a class iscn cosmos_class_id total_supply
  mint_by (some number) a class iscn cosmos_class_id total_supply =
      mint_numbered a class iscn cosmos_class_id total_supply number

  -- `DoMintNFTAction` between the tests on the status and the last update: every error ends in
  -- `doMintNFTActionFailed`.
  unfoldable pub mint : LikeNftMigrationActionMintNft → Action Text
  mint a = check (db_call env.fault (query_new_class none (some a.evm_class_id))) raise λ new_class.
      check (outside (env.total_supply (env.hex_to_address a.evm_class_id)) rpc_error) raise
        λ total_supply.
          check (outside (env.query_class new_class.cosmos_class_id) rpc_error) raise λ class.
            given class.content (halt nil_dereference) λ content.
              check
                (outside (env.query_iscn content.iscn_id_prefix content.iscn_version_at_mint)
                  rpc_error)
                raise
                λ iscn.
                  mint_by (number_of_nft a.cosmos_nft_id) a class iscn new_class.cosmos_class_id
                    total_supply

  abbrev pub completed_mint_nft :
      LikeNftMigrationActionMintNft → Text → LikeNftMigrationActionMintNft
  completed_mint_nft a hash = record a { status = ActionStatus.completed; evm_tx_hash = some hash }

  unfoldable pub begin_mint_nft :
      LikeNftMigrationActionMintNft → Action LikeNftMigrationActionMintNft
  begin_mint_nft a = check (mint a) (mint_nft_failed a) λ hash.
      let b = completed_mint_nft a hash in
      check (db_call env.fault (update_mint_nft b)) (mint_nft_failed b) λ _. pure b

  unfoldable pub mint_nft_by :
      ActionStatus → LikeNftMigrationActionMintNft → Action LikeNftMigrationActionMintNft
  mint_nft_by ActionStatus.completed a = pure a
  mint_nft_by ActionStatus.init a = begin_mint_nft a
  mint_nft_by ActionStatus.failed a = begin_mint_nft a
  mint_nft_by ActionStatus.in_progress a = raise not_init_or_failed
  mint_nft_by ActionStatus.other a = raise not_init_or_failed

  -- `DoMintNFTAction`
  unfoldable pub do_mint_nft : LikeNftMigrationActionMintNft → Action LikeNftMigrationActionMintNft
  do_mint_nft a = mint_nft_by a.status a
