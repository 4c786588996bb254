-- ===== src/Indexer/Processors/Tests.antt =====
-- The five processors run on a few events. (likenft-indexer/internal/logic/evmeventprocessor)
use likecoin_op.Base.{◌+◌, ◌≡◌, refl, ◌==◌, false, none, some, List, [], ◌∷◌}
use likecoin_op.Exec.{exec, ok}
use likecoin_op.Indexer.Model.{received, EvmEvent, NftClass, Erc721Metadata, State}
use likecoin_op.Indexer.Db.{with_tx, get_event, set_status, update_evm_event_status}
use likecoin_op.Indexer.Logs.{Log, Abi, convert_evm_event_to_log}
use likecoin_op.Indexer.Acquire.{transfer, new_book_nft, event_code}
use likecoin_op.Indexer.Process.{process_event, process, handle_process_evm_event}
use likecoin_op.Indexer.Process.Outcome.{Handled, process-Handled}
use likecoin_op.Indexer.Repos.{
  insert_account, insert_class, insert_nft, with_tx_outside, query_account, get_or_create_account,
  query_nft, get_or_create_nft, set_nft_owner, update_nft_owner, query_class, set_class,
  update_class_by, insert_nft_class,
}
use likecoin_op.Indexer.Processors.{
  EventProcessorDeps, LikeProtocolNewBookNft, of_result, transfer_token, process_transfer,
  store_new_book_nft, process_new_book_nft, get_event_processor,
}
use likecoin_op.Indexer.Processors.Ledger.{Move}
use likecoin_op.Indexer.Processors.Moves.{ledger, SameLedger, Steps}
use likecoin_op.Indexer.Processors.Steps.{move_of}
use likecoin_op.Indexer.Processors.Served.{asked, handle-Steps}
use likecoin_op.Indexer.Processors.Replayed.{move_at, serve, turns, serve_refines}
use likecoin_op.Indexer.Processors.Replay.{replay, Picked}
use likecoin_op.Indexer.Processors.Separated.{get_event_processor-Separate}
use likecoin_op.Indexer.Processors.Created.{Stored, new_book_nft-Stored}

-- Named on an `unfolding` line, it opens the processors and what they call.
unfoldable running : Unit {0}
unfolding exec with_tx get_event set_status update_evm_event_status convert_evm_event_to_log
    process_event process handle_process_evm_event insert_account insert_class insert_nft
    with_tx_outside query_account get_or_create_account query_nft get_or_create_nft set_nft_owner
    update_nft_owner query_class set_class update_class_by insert_nft_class of_result transfer_token
    process_transfer store_new_book_nft process_new_book_nft get_event_processor serve
running = tt

-- Each hexadecimal form is the text itself.
abbrev abi : Abi
abi = record {
  event_by_id = λ _. none;
  unpack = λ _. none;
  describe = λ _. 7;
  hash_hex = λ t. t;
  hex_to_hash = λ t. t;
  address_hex = λ t. t;
  hex_to_address = λ t. t;
  encode = λ bs. bs;
  decode = λ bs. some bs;
}

abbrev token_metadata : Erc721Metadata
token_metadata = record {
  image = 1;
  image_data = 1;
  external_url = 1;
  description = 1;
  name = 1;
  attributes = 1;
  background_color = 1;
  animation_url = 1;
  youtube_url = 1;
}

-- A transfer hands the token 7 to the number of its block.
abbrev deps : EventProcessorDeps
deps = record {
  fault = λ _. false;
  now = λ t. 1000 + t;
  fold = λ t. t;
  is_empty = λ t. t == 0;
  event_name = event_code;
  like_protocol_abi = abi;
  book_nft_abi = abi;
  unpack_transfer = λ log. some (record { from = 3; to = log.block_number; token_id = 7 });
  unpack_transfer_with_memo = λ _. none;
  unpack_ownership_transferred = λ _. none;
  unpack_new_book_nft = λ log.
      some
        (record { book_nft = log.address; name = 11; symbol = 12; metadata = 13; max_supply = 9 });
  get_token_uri = λ _ _ _. some 40;
  get_total_supply = λ _ _. some 2;
  get_contract_uri = λ _ _. none;
  get_book_nft_owner = λ _ _. some 50;
  resolve_token = λ _ _. some token_metadata;
  resolve_contract = λ _ _. some 60;
  zero_address = 0;
}

abbrev event_1 : EvmEvent
event_1 = record {
  id = 1;
  transaction_hash = 900;
  transaction_index = 0;
  chain_id = 10;
  block_hash = 80;
  block_number = 21;
  log_index = 4;
  address = 70;
  topic0 = event_code transfer;
  topic0_hex = 33;
  topic1 = none;
  topic1_hex = none;
  topic2 = none;
  topic2_hex = none;
  topic3 = none;
  topic3_hex = none;
  data_text = none;
  data_hex = none;
  removed = false;
  status = received;
  name = 33;
  signature = 34;
  indexed_params = [];
  non_indexed_params = [];
  failed_reason = none;
}

-- An older transfer of the same token, and the creation of another class.
abbrev event_2 : EvmEvent
event_2 = record event_1 { id = 2; transaction_hash = 901; block_number = 20 }

abbrev event_3 : EvmEvent
event_3 = record event_1 { id = 3; address = 71; topic0 = event_code new_book_nft }

abbrev class_70 : NftClass
class_70 = record {
  id = 1;
  address = 70;
  name = 11;
  symbol = 12;
  owner_address = some 50;
  total_supply = 0;
  max_supply = 9;
  metadata = 60;
  deployer_address = 0;
  deployed_block_number = 5;
  minted_at = 1;
  owner = 1;
  updated_at = 1;
}

abbrev start : State
start = record {
  tick = 0;
  db = record {
    events = event_1 ∷ event_2 ∷ event_3 ∷ [];
    heights = [];
    next_event = 4;
    book = record { accounts = []; classes = class_70 ∷ []; nfts = []; memos = []; next = 2 };
  };
  net = [];
}

-- With the five processors.
process-Handled_example :
    Handled 1 start (process_event deps.fault (get_event_processor deps) event_1 start)
process-Handled_example =
    process-Handled deps.fault (get_event_processor deps) (get_event_processor-Separate deps)
      event_1 start

handle-Steps_example :
    Steps deps.fold
      (asked deps received (move_of deps event_1))
      start
      (handle_process_evm_event deps.fault (get_event_processor deps) 1 start)
handle-Steps_example = handle-Steps deps 1 start {e = event_1} refl

-- The task of the older transfer comes last, and the token goes back to its receiver.
regressed : ledger deps.fold (serve deps (1 ∷ 2 ∷ []) start) 70 7 ≡ some 20
unfolding running
regressed = refl

serve_refines_example :
    (ms : List Move) × Picked (move_at deps start.db) (turns deps (1 ∷ 2 ∷ []) start) ms
    × SameLedger deps.fold
        (replay deps.fold ms (ledger deps.fold start))
        (ledger deps.fold (serve deps (1 ∷ 2 ∷ []) start))
serve_refines_example = serve_refines deps (1 ∷ 2 ∷ []) start

abbrev created : State
created = (process_new_book_nft deps event_3 start).1

new_book_nft-Stored_example :
    (log : Log) × (event : LikeProtocolNewBookNft) × (convert_evm_event_to_log
        deps.like_protocol_abi event_3
      ≡ ok log)
    × (deps.unpack_new_book_nft log ≡ some event)
    × Stored deps (deps.like_protocol_abi.address_hex event.book_nft) start created
unfolding running
new_book_nft-Stored_example = new_book_nft-Stored deps event_3 start created {a = tt} refl
