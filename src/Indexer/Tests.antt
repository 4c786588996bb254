-- ===== src/Indexer/Tests.antt =====
-- The indexer run on a few events. (likenft-indexer)
use likecoin_op.Base.{
  ℕ, ◌≡◌, refl, ◌⊎◌, ◌==◌, ◌+◌, Bool, true, false, Option, none, some, List, [], ◌∷◌, map, any,
  keep, contains, length, All,
}
use likecoin_op.Exec.{exec, Result, ok, err, stop, db_error}
use likecoin_op.Indexer.Model.{received, enqueued, EvmEvent, Book, State, Action}
use likecoin_op.Indexer.Logs.{
  Log, AbiEvent, Abi, HexLaws, collect, convert_log_to_evm_event, convert_evm_event_to_log,
}
use likecoin_op.Indexer.Logs.Roundtrip.{convert-back}
use likecoin_op.Indexer.Db.{
  with_tx, has_hash, hash_of, same_log, query_by_hashes, insert_rows, create_bulk,
  insert_evm_events_if_needed, get_event, set_status, update_evm_event_status, batch_update_status,
  query_by_status, query_height, get_processed_block_height, update_processed_block_height,
}
use likecoin_op.Indexer.Db.Laws.{with_tx_atomic, insert_adds, numbered, fresh}
use likecoin_op.Indexer.Db.Events.{insert_stores, insert_skips}
use likecoin_op.Indexer.Acquire.{transfer, book_nft, Env, convert_logs, acquire, acquire_event}
use likecoin_op.Indexer.Acquire.Advance.{Advanced, acquire_advances, acquire_retries}
use likecoin_op.Indexer.Process.{process_event, enqueue, enqueue_all, check_received_evm_events}
use likecoin_op.Indexer.Process.Outcome.{row, Separate}
use likecoin_op.Indexer.Process.Enqueued.{enqueued_has_task}

-- Named on an `unfolding` line, it opens the whole indexer.
unfoldable running : Unit {0}
unfolding exec with_tx query_by_hashes insert_rows create_bulk insert_evm_events_if_needed get_event
    set_status update_evm_event_status batch_update_status query_by_status query_height
    get_processed_block_height update_processed_block_height collect convert_log_to_evm_event
    convert_evm_event_to_log convert_logs acquire acquire_event process_event enqueue enqueue_all
    check_received_evm_events Separate
running = tt

abbrev log_a : Log
log_a = record {
  address = 70;
  topics = 1 ∷ 2 ∷ 3 ∷ [];
  data_bytes = 5 ∷ [];
  block_number = 12;
  tx_hash = 900;
  tx_index = 0;
  block_hash = 80;
  index = 4;
  removed = false;
}

abbrev transfer_abi : AbiEvent
transfer_abi = record {
  raw_name = 33;
  sig = 34;
  inputs =
      record { name = 50; indexed = true }
      ∷ record { name = 51; indexed = true }
      ∷ record { name = 52; indexed = false }
      ∷ [];
}

-- Each hexadecimal form is the text itself.
abbrev abi : Abi
abi = record {
  event_by_id = λ _. some transfer_abi;
  unpack = λ _. some (λ name. name + 100);
  describe = λ _. 7;
  hash_hex = λ t. t;
  hex_to_hash = λ t. t;
  address_hex = λ t. t;
  hex_to_address = λ t. t;
  encode = λ bs. bs;
  decode = λ bs. some bs;
}

abi-HexLaws : HexLaws abi
abi-HexLaws = record { hash_back = λ t. refl; address_back = λ t. refl; data_back = λ bs. refl }

abbrev event_or : Result EvmEvent → EvmEvent → EvmEvent
event_or (ok e) d = e
event_or (err x) d = d
event_or (stop s) d = d

abbrev blank : EvmEvent
blank = record {
  id = 0;
  transaction_hash = 0;
  transaction_index = 0;
  chain_id = 0;
  block_hash = 0;
  block_number = 0;
  log_index = 0;
  address = 0;
  topic0 = 0;
  topic0_hex = 0;
  topic1 = none;
  topic1_hex = none;
  topic2 = none;
  topic2_hex = none;
  topic3 = none;
  topic3_hex = none;
  data_text = none;
  data_hex = none;
  removed = false;
  status = received;
  name = 0;
  signature = 0;
  indexed_params = [];
  non_indexed_params = [];
  failed_reason = none;
}

abbrev event_a : EvmEvent
event_a = event_or (convert_log_to_evm_event abi log_a) blank

convert-back_example : convert_evm_event_to_log abi event_a ≡ ok log_a
unfolding running
convert-back_example = convert-back abi abi-HexLaws log_a {e = event_a} refl refl

abbrev no_fault : ℕ → Bool
no_fault t = false

abbrev empty_book : Book
empty_book = record { accounts = []; classes = []; nfts = []; memos = []; next = 1 }

abbrev start : State
start = record {
  tick = 0;
  db = record { events = []; heights = []; next_event = 1; book = empty_book };
  net = [];
}

abbrev one : List EvmEvent
one = event_a ∷ []

abbrev after_one : State
after_one = (insert_evm_events_if_needed no_fault one start).1

abbrev rows_one : List EvmEvent
rows_one = record event_a { id = 1 } ∷ []

insert_adds_example :
    (after_one.db.events ≡ numbered 1 (fresh one start.db) [])
    × (rows_one ≡ keep (has_hash (map hash_of one)) after_one.db.events)
    × (length rows_one ≡ length one)
    × (after_one.db.heights ≡ start.db.heights)
    × (after_one.net ≡ start.net)
unfolding running
insert_adds_example = insert_adds no_fault one start after_one {rows = rows_one} refl

insert_stores_example : All (λ (e : EvmEvent). any (same_log e) after_one.db.events ≡ true) one
unfolding running
insert_stores_example = insert_stores no_fault one start after_one {rows = rows_one} (refl, tt) refl

-- Another event of the same transaction.
abbrev other_event : List EvmEvent
other_event = record event_a { log_index = 5; topic0 = 35 } ∷ []

abbrev after_other : State
after_other = (insert_evm_events_if_needed no_fault other_event after_one).1

insert_skips_example : after_other.db.events ≡ after_one.db.events
unfolding running
insert_skips_example =
    insert_skips no_fault other_event after_one after_other {rows = rows_one} (refl, tt) refl

-- The third call of the database fails.
abbrev third : ℕ → Bool
third t = t == 2

abbrev failing_body : Action (List EvmEvent)
failing_body = insert_evm_events_if_needed third one

with_tx_atomic_example : (with_tx third failing_body start).1.db ≡ start.db
unfolding running
with_tx_atomic_example =
    with_tx_atomic third failing_body start (with_tx third failing_body start).1 {r = err db_error}
      refl tt

abbrev env : Env
env = record {
  fault = no_fault;
  chain_id = λ _. some 10;
  query_logs = λ _ _ _ _. some (log_a ∷ []);
  abi_of = λ _. abi;
}

abbrev acquired : State
acquired = (acquire env book_nft transfer 70 start).1

acquire_advances_example : Advanced env book_nft transfer 70 start acquired
unfolding running
acquire_advances_example = acquire_advances env book_nft transfer 70 start acquired refl

-- The fifth call, which is the bulk insertion, fails.
abbrev failing_env : Env
failing_env = record env { fault = λ t. t == 4 }

abbrev not_acquired : State
not_acquired = (acquire failing_env book_nft transfer 70 start).1

acquire_retries_example : not_acquired.db.heights ≡ start.db.heights
unfolding running
acquire_retries_example =
    acquire_retries failing_env book_nft transfer 70 start not_acquired (err db_error) refl tt

abbrev answer : ℕ → Option (Unit {0})
answer t = some tt

abbrev checked : State
checked = (check_received_evm_events no_fault answer after_one).1

enqueued_has_task_example :
    (contains checked.net 1 ≡ true)
    ⊎ (row 1 after_one.db ≡ some (record event_a { id = 1; status = enqueued }))
unfolding running
enqueued_has_task_example =
    enqueued_has_task no_fault answer after_one checked 1
      {e = record event_a { id = 1; status = enqueued }} refl refl
