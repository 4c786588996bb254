-- ===== src/Indexer/Db.antt =====
-- The statements of the event tables, and the repositories of events and of processed block heights.
-- (likenft-indexer/internal/database)
pub mod Laws
pub mod Events
use likecoin_op.Base.{
  ℕ, suc, Bool, true, false, not, ◌&&◌, Option, none, some, List, [], ◌∷◌, ◌++◌, map, ◌==◌, leb,
  if◌then◌else◌, find, any, keep, replace, contains, length, Text,
}
use likecoin_op.Exec.{
  Error, Result, ok, err, stop, World, Exec, pure, raise, check, ◌>>=◌, ◌>>◌, db_call, begin_tx,
  commit, rollback, error_of, join_opt, not_found, not_singular, unique_violation, len_not_match,
}
use likecoin_op.Indexer.Model.{
  EventStatus, EvmEvent, ProcessedBlockHeight, Tables, Queue, Action, State,
}

-- `Only` of the rows that a query has found.
abbrev pub only : {A : Type 0} → List A → Result A
only [] = err not_found
only (a ∷ []) = ok a
only (a ∷ b ∷ rest) = err not_singular

abbrev pub has_hash : List Text → EvmEvent → Bool
has_hash hashes e = contains hashes e.transaction_hash

abbrev pub hash_of : EvmEvent → Text
hash_of e = e.transaction_hash

-- `EVMEvent.Query().Where(TransactionHashIn(hashes...))`
unfoldable pub query_by_hashes : List Text → Tables → Result (List EvmEvent) × Tables
query_by_hashes hashes t = (ok (keep (has_hash hashes) t.events), t)

-- The unique index on the hash, the index in the block, the block and the index of the log.
abbrev pub same_log : EvmEvent → EvmEvent → Bool
same_log e f =
    (f.transaction_hash == e.transaction_hash)
    && ((f.transaction_index == e.transaction_index)
        && ((f.block_number == e.block_number) && (f.log_index == e.log_index)))

-- The rows of `CreateBulk`, inserted in order.
unfoldable pub insert_rows : List EvmEvent → Tables → Option Tables
insert_rows [] t = some t
insert_rows (e ∷ es) t =
    let row = record e { id = t.next_event; failed_reason = none } in
    let rest =
      insert_rows es (record t { events = row ∷ t.events; next_event = suc t.next_event }) in
    if any (same_log e) t.events then none else rest

-- `CreateBulk(...).Exec`: one statement for all rows. What the validators of ent refuse is among the
-- failures of the statement.
unfoldable pub create_bulk : List EvmEvent → Tables → Result (Unit {0}) × Tables
create_bulk es t = elim (insert_rows es t) [
  | none ↦ (err unique_violation, t)
  | some u ↦ (ok tt, u)
]

abbrev pub is_new : List EvmEvent → EvmEvent → Bool
is_new db_events e = not (contains (map hash_of db_events) e.transaction_hash)

-- `EVMEvent.Get`
unfoldable pub get_event : ℕ → Tables → Result EvmEvent × Tables
get_event id t = elim (find (λ (e : EvmEvent). e.id == id) t.events) [
  | none ↦ (err not_found, t)
  | some e ↦ (ok e, t)
]

-- The update of `UpdateEvmEventStatus`; an absent reason clears the column.
unfoldable pub set_status :
    (EvmEvent → Bool) → EventStatus → Option Error → Tables → Result (Unit {0}) × Tables
set_status p new_status reason t = (
  ok tt,
  record t {
    events =
        replace p (λ (e : EvmEvent). record e { status = new_status; failed_reason = reason })
          t.events;
  },
)

-- `GetEVMEventsByStatus`
unfoldable pub query_by_status : (EventStatus → Bool) → Tables → Result (List EvmEvent) × Tables
query_by_status is_status t = (ok (keep (λ (e : EvmEvent). is_status e.status) t.events), t)

abbrev pub is_height_of : ℕ → Text → ℕ → ProcessedBlockHeight → Bool
is_height_of contract_type contract_address event h =
    (h.contract_address == contract_address)
    && ((h.event == event) && (h.contract_type == contract_type))

-- The row of a contract and an event.
unfoldable pub query_height : ℕ → Text → ℕ → Tables → Result ProcessedBlockHeight × Tables
query_height contract_type contract_address event t =
    (only (keep (is_height_of contract_type contract_address event) t.heights), t)

abbrev pub insert_height : ProcessedBlockHeight → Tables → Result (Unit {0}) × Tables
insert_height h t =
    if any (is_height_of h.contract_type h.contract_address h.event) t.heights
    then (err unique_violation, t)
    else (ok tt, record t { heights = h ∷ t.heights })

abbrev pub set_height : ProcessedBlockHeight → Tables → Result (Unit {0}) × Tables
set_height h t = (
  ok tt,
  record t {
    heights = replace (is_height_of h.contract_type h.contract_address h.event) (λ _. h) t.heights;
  },
)

abbrev pub is_not_found : Error → Bool
is_not_found not_found = true
is_not_found _ = false

-- The database fails as `fault` says.
module _ (fault : ℕ → Bool) where
  abbrev pub finish_tx : {A : Type 0} → Tables → Result A → Action A
  finish_tx before (ok a) = check (commit fault before) raise λ _. pure a
  finish_tx before (err e) =
      error_of (rollback fault before) >>= λ rolled. raise (join_opt e rolled)
  finish_tx before (stop s) = error_of (rollback fault before) >> λ w. (stop s, w)

  -- `WithTx`: a panic rolls back and goes on.
  unfoldable pub with_tx : {A : Type 0} → Action A → Action A
  with_tx body = check (begin_tx fault) raise λ before w. finish_tx before (body w).0 (body w).1

  -- `InsertEvmEventsIfNeeded`
  unfoldable pub insert_evm_events_if_needed : List EvmEvent → Action (List EvmEvent)
  insert_evm_events_if_needed evm_events =
      let tx_hashes = map hash_of evm_events in
      with_tx (
        check (db_call fault (query_by_hashes tx_hashes)) raise λ db_events.
          check (db_call fault (create_bulk (keep (is_new db_events) evm_events))) raise λ _.
            check (db_call fault (query_by_hashes tx_hashes)) raise λ stored.
              if length stored == length evm_events then pure stored else raise len_not_match)

  -- `UpdateEvmEventStatus`
  unfoldable pub update_evm_event_status : ℕ → EventStatus → Option Error → Action EvmEvent
  update_evm_event_status id new_status reason = with_tx (
      check (db_call fault (get_event id)) raise λ _.
        check (db_call fault (set_status (λ (e : EvmEvent). e.id == id) new_status reason)) raise
          λ _. db_call fault (get_event id))

  -- `BatchUpdateEvmEventStatusByIds`
  unfoldable pub batch_update_status : List ℕ → EventStatus → Action (Unit {0})
  batch_update_status ids new_status =
      db_call fault (set_status (λ (e : EvmEvent). contains ids e.id) new_status none)

  -- `GetEVMEventProcessedBlockHeight`
  unfoldable pub get_processed_block_height : ℕ → Text → ℕ → Action ℕ
  get_processed_block_height contract_type contract_address event =
      check (db_call fault (query_height contract_type contract_address event)) raise
        λ h. pure h.block_height

  -- `UpdateEVMEventProcessedBlockHeight`
  unfoldable pub update_processed_block_height : ℕ → Text → ℕ → ℕ → Action (Unit {0})
  update_processed_block_height contract_type contract_address event block_height =
      let row : ProcessedBlockHeight = record {
        contract_type = contract_type;
        contract_address = contract_address;
        event = event;
        block_height = block_height;
      } in
      with_tx (
        check (db_call fault (query_height contract_type contract_address event))
          (λ e. if is_not_found e then db_call fault (insert_height row) else raise e)
          λ _. db_call fault (set_height row))
