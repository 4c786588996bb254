-- ===== src/Indexer/Acquire.antt =====
-- Acquiring the new events of a contract. (likenft-indexer/internal/logic/evmeventacquirer)
pub mod Heights
pub mod Converted
pub mod Advance
use likecoin_op.Base.{
  ℕ, ◌+◌, ◌%◌, ◌^◌, Bool, true, false, Option, none, some, List, [], ◌∷◌, max, if◌then◌else◌, Text,
}
use likecoin_op.Exec.{
  Error, Result, ok, err, stop, nil_dereference, rpc_error, unknown_event, pure, raise, halt, check,
  outside, ◌>>=◌, ◌>>◌,
}
use likecoin_op.Indexer.Model.{EvmEvent, Tables, Queue, Action, State}
use likecoin_op.Indexer.Logs.{Log, Abi, convert_log_to_evm_event}
use likecoin_op.Indexer.Db.{
  get_processed_block_height, update_processed_block_height, insert_evm_events_if_needed,
  is_not_found,
}

-- The values of the enumerated column `event`.
pub data ContractEvent : Type 0 where
  contract_uri_updated new_book_nft ownership_transferred transfer_with_memo transfer :
      ContractEvent
  unregistered : ContractEvent

pub data ContractType : Type 0 where
  book_nft like_protocol : ContractType

-- The stored form of the two enumerations.
abbrev pub event_code : ContractEvent → ℕ
event_code contract_uri_updated = 0
event_code new_book_nft = 1
event_code ownership_transferred = 2
event_code transfer_with_memo = 3
event_code transfer = 4
event_code unregistered = 5

abbrev pub type_code : ContractType → ℕ
type_code book_nft = 0
type_code like_protocol = 1

-- `eventConfigMap`, as the five `init` functions fill it
abbrev pub get_event_config : ContractEvent → Option ContractType
get_event_config contract_uri_updated = some book_nft
get_event_config new_book_nft = some like_protocol
get_event_config ownership_transferred = some book_nft
get_event_config transfer_with_memo = some book_nft
get_event_config transfer = some book_nft
get_event_config unregistered = none

-- The database and the node: the logs of an event of a contract from a block on, by the number of the
-- call.
pub record Env : Type 0 where
  pub fault : ℕ → Bool
  pub chain_id : ℕ → Option ℕ
  pub query_logs : ContractEvent → Text → ℕ → ℕ → Option (List Log)
  pub abi_of : ContractType → Abi

module _ (env : Env) where
  abbrev pub converted :
      Result EvmEvent → (EvmEvent → Result (List EvmEvent × ℕ)) → Result (List EvmEvent × ℕ)
  converted (ok e) k = k e
  converted (err e) k = stop nil_dereference
  converted (stop s) k = stop s

  abbrev pub add_event : EvmEvent → Result (List EvmEvent × ℕ) → Result (List EvmEvent × ℕ)
  add_event e (ok (es, highest)) = ok (e ∷ es, highest)
  add_event e (err x) = err x
  add_event e (stop s) = stop s

  -- The loop of `acquire`: the events and the highest block. An error of the conversion comes with a nil
  -- event, whose chain is set before the error is looked at.
  unfoldable pub convert_logs : Abi → ℕ → List Log → ℕ → Result (List EvmEvent × ℕ)
  convert_logs abi chain_id [] highest = ok ([], highest)
  convert_logs abi chain_id (log ∷ logs) highest =
      let others = convert_logs abi chain_id logs (max highest log.block_number) in
      converted (convert_log_to_evm_event abi log)
        λ e. add_event (record e { chain_id = chain_id % 2 ^ 64 }) others

  abbrev pub lift : {A : Type 0} → Result A → Action A
  lift r w = (r, w)

  -- `acquire`
  unfoldable pub acquire : ContractType → ContractEvent → Text → Action (Unit {0})
  acquire contract_type event contract_address =
      let height =
        get_processed_block_height env.fault (type_code contract_type) contract_address
          (event_code event) in
      check (outside env.chain_id rpc_error) raise λ chain_id.
        check (check height (λ e. if is_not_found e then pure 0 else raise e) pure) raise
          λ processed.
            check
              (outside (env.query_logs event contract_address ((processed + 1) % 2 ^ 64)) rpc_error)
              raise
              λ logs.
                check (lift (convert_logs (env.abi_of contract_type) chain_id logs processed)) raise
                  λ converted. check (insert_evm_events_if_needed env.fault converted.0) raise λ _.
                    update_processed_block_height env.fault (type_code contract_type)
                      contract_address (event_code event) converted.1

  -- `Acquire`
  unfoldable pub acquire_event : Text → ContractEvent → Action (Unit {0})
  acquire_event contract_address event = elim (get_event_config event) [
    | none ↦ raise unknown_event
    | some contract_type ↦ acquire contract_type event contract_address
  ]
