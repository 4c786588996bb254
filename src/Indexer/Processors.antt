-- ===== src/Indexer/Processors.antt =====
-- The five processors of events and their registry.
-- (likenft-indexer/internal/logic/evmeventprocessor)
pub mod Kept
pub mod Separated
pub mod Ledger
pub mod Moves
pub mod Steps
pub mod Served
pub mod Replay
pub mod Replayed
pub mod Created
mod Tests
use likecoin_op.Base.{ℕ, ◌==◌, Bool, Option, none, some, if◌then◌else◌, Text}
use likecoin_op.Exec.{Error, Result, rpc_error, unpack_failed, pure, raise, check, outside}
use likecoin_op.Indexer.Model.{
  EvmEvent, Account, NftClass, Erc721Metadata, Nft, TransactionMemo, Action,
}
use likecoin_op.Indexer.Logs.{Log, Abi, convert_evm_event_to_log}
use likecoin_op.Indexer.Acquire.{
  ContractEvent, contract_uri_updated, new_book_nft, ownership_transferred, transfer_with_memo,
  transfer,
}
use likecoin_op.Indexer.Repos.{
  uint64, get_or_create_account, get_or_create_nft, update_nft_owner, query_nft_class_by_address,
  update_metadata, update_class_owner, update_total_supply, insert_nft_class,
  insert_transaction_memo,
}

-- The arguments of the events, as the bindings of the contracts unpack them.
pub record BookNftTransfer : Type 0 where
  pub from : Text
  pub to : Text
  pub token_id : ℕ

pub record BookNftTransferWithMemo : Type 0 where
  pub from : Text
  pub to : Text
  pub token_id : ℕ
  pub memo : Text

pub record BookNftOwnershipTransferred : Type 0 where
  pub new_owner : Text

pub record LikeProtocolNewBookNft : Type 0 where
  pub book_nft : Text
  pub name : Text
  pub symbol : Text
  pub metadata : Text
  pub max_supply : ℕ

-- What the processors are given: the database, the clock, the contracts' ABIs and bindings, and the
-- answers of the node and of the resolver of metadata by the number of the call.
pub record EventProcessorDeps : Type 0 where
  pub fault : ℕ → Bool
  pub now : ℕ → ℕ
  pub fold : Text → Text
  pub is_empty : Text → Bool
  pub event_name : ContractEvent → Text
  pub like_protocol_abi : Abi
  pub book_nft_abi : Abi
  pub unpack_transfer : Log → Option BookNftTransfer
  pub unpack_transfer_with_memo : Log → Option BookNftTransferWithMemo
  pub unpack_ownership_transferred : Log → Option BookNftOwnershipTransferred
  pub unpack_new_book_nft : Log → Option LikeProtocolNewBookNft
  pub get_token_uri : Text → ℕ → ℕ → Option Text
  pub get_total_supply : Text → ℕ → Option ℕ
  pub get_contract_uri : Text → ℕ → Option Text
  pub get_book_nft_owner : Text → ℕ → Option Text
  pub resolve_token : Text → ℕ → Option Erc721Metadata
  pub resolve_contract : Text → ℕ → Option Text
  pub zero_address : Text

-- A result as it stands.
unfoldable pub of_result : {A : Type 0} → Result A → Action A
of_result r w = (r, w)

-- `UnpackLog`, then the rest of the processor.
abbrev pub unpacked : {A : Type 0} → Option A → (A → Action (Unit {0})) → Action (Unit {0})
unpacked none k = raise unpack_failed
unpacked (some a) k = k a

-- An account that has only an address.
abbrev pub account_of : Text → Account
account_of address = record { id = 0; cosmos_address = none; evm_address = address; likeid = none }

module _ (d : EventProcessorDeps) where
  -- `ConvertEvmEventToLog`, then the rest of the processor.
  abbrev pub with_log : Abi → EvmEvent → (Log → Action (Unit {0})) → Action (Unit {0})
  with_log abi e k = check (of_result (convert_evm_event_to_log abi e)) raise k

  -- The steps that the two transfers share; `store_memo` stands between them.
  unfoldable pub transfer_token : Log → ℕ → Text → Action (Unit {0}) → Action (Unit {0})
  transfer_token log token_id to store_memo =
      let address = d.book_nft_abi.address_hex log.address in
      check (outside (d.get_token_uri log.address token_id) rpc_error) raise λ token_uri.
        check (outside (d.resolve_token token_uri) rpc_error) raise λ metadata.
          check (outside (d.get_total_supply log.address) rpc_error) raise λ total_supply.
            check (get_or_create_account d.fault d.fold (account_of to)) raise λ owner.
              check (query_nft_class_by_address d.fault d.fold address) raise λ nft_class.
                check
                  (get_or_create_nft d.fault d.fold d.now address token_id (record {
                    id = 0;
                    contract_address = address;
                    token_id = token_id;
                    token_uri = token_uri;
                    metadata = metadata;
                    owner_address = to;
                    minted_at = 0;
                    updated_at = 0;
                    owner = owner.id;
                    nft_class = nft_class.id;
                  }))
                  raise
                  λ _. check (update_total_supply d.fault d.fold address total_supply) raise λ _.
                    check store_memo raise
                      λ _. update_nft_owner d.fault d.fold address token_id to owner

  -- `transferProcessor.Process`
  unfoldable pub process_transfer : EvmEvent → Action (Unit {0})
  process_transfer e = with_log d.book_nft_abi e λ log.
      unpacked (d.unpack_transfer log)
        λ event. transfer_token log event.token_id (d.book_nft_abi.address_hex event.to) (pure tt)

  -- `transferWithMemoProcessor.Process`
  unfoldable pub process_transfer_with_memo : EvmEvent → Action (Unit {0})
  process_transfer_with_memo e = with_log d.book_nft_abi e λ log.
      unpacked (d.unpack_transfer_with_memo log) λ event.
        transfer_token log event.token_id (d.book_nft_abi.address_hex event.to) (
          insert_transaction_memo d.fault d.fold (record {
            id = 0;
            transaction_hash = d.book_nft_abi.hash_hex log.tx_hash;
            book_nft_id = d.book_nft_abi.address_hex log.address;
            from = d.book_nft_abi.address_hex event.from;
            to = d.book_nft_abi.address_hex event.to;
            token_id = uint64 event.token_id;
            memo = event.memo;
            block_number = log.block_number;
          }))

  -- The steps of `newBookNFTProcessor.Process` after the event is unpacked.
  unfoldable pub store_new_book_nft : EvmEvent → LikeProtocolNewBookNft → Action (Unit {0})
  store_new_book_nft e event =
      check (outside (d.resolve_contract event.metadata) rpc_error) raise λ metadata.
        check (outside (d.get_book_nft_owner event.book_nft) rpc_error) raise λ owner.
          let owner_address = d.like_protocol_abi.address_hex owner in
          check (get_or_create_account d.fault d.fold (account_of owner_address)) raise λ account.
            check (outside (d.get_total_supply event.book_nft) rpc_error) raise λ total_supply w.
              insert_nft_class d.fault d.fold d.is_empty d.now
                (record {
                  id = 0;
                  address = d.like_protocol_abi.address_hex event.book_nft;
                  name = event.name;
                  symbol = event.symbol;
                  owner_address = some owner_address;
                  total_supply = total_supply;
                  max_supply = event.max_supply;
                  metadata = metadata;
                  deployer_address = d.zero_address;
                  deployed_block_number = e.block_number;
                  minted_at = d.now w.tick;
                  owner = account.id;
                  updated_at = 0;
                })
                w

  -- `newBookNFTProcessor.Process`
  unfoldable pub process_new_book_nft : EvmEvent → Action (Unit {0})
  process_new_book_nft e =
      with_log d.like_protocol_abi e
        λ log. unpacked (d.unpack_new_book_nft log) (store_new_book_nft e)

  -- `bookNFTOwnershipTransferredProcessor.Process`
  unfoldable pub process_ownership_transferred : EvmEvent → Action (Unit {0})
  process_ownership_transferred e = with_log d.like_protocol_abi e λ log.
      unpacked (d.unpack_ownership_transferred log) λ event.
        check
          (get_or_create_account d.fault d.fold
            (account_of (d.like_protocol_abi.address_hex event.new_owner)))
          raise
          λ account.
            update_class_owner d.fault d.fold (d.like_protocol_abi.address_hex log.address) account

  -- `contractURIUpdatedProcessor.Process`
  unfoldable pub process_contract_uri_updated : EvmEvent → Action (Unit {0})
  process_contract_uri_updated e = with_log d.like_protocol_abi e λ log.
      check (outside (d.get_contract_uri log.address) rpc_error) raise λ contract_uri.
        check (outside (d.resolve_contract contract_uri) rpc_error) raise λ metadata.
          update_metadata d.fault d.fold (d.like_protocol_abi.address_hex log.address) metadata

  -- `getEventProcessor`, with what each file registers
  unfoldable pub get_event_processor : Text → Option (EvmEvent → Action (Unit {0}))
  get_event_processor event =
      if event == d.event_name transfer
      then some process_transfer
      else if event == d.event_name transfer_with_memo
      then some process_transfer_with_memo
      else if event == d.event_name new_book_nft
      then some process_new_book_nft
      else if event == d.event_name ownership_transferred
      then some process_ownership_transferred
      else if event == d.event_name contract_uri_updated
      then some process_contract_uri_updated
      else none
