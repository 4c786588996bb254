-- ===== src/Indexer/Process.antt =====
-- Processing events: the status of an event, and the tasks that are put into the queue.
-- (likenft-indexer/internal/logic/evmeventprocessor/processor.go, likenft-indexer/cmd/worker/task)
pub mod Outcome
pub mod Enqueued
use likecoin_op.Base.{
  ℕ, suc, Bool, true, false, Option, none, some, List, [], ◌∷◌, if◌then◌else◌, Text,
}
use likecoin_op.Exec.{
  Error, Result, ok, err, stop, nil_dereference, rpc_error, unknown_event, unknown_status,
  already_processing, World, pure, raise, halt, check, db_call, outside, error_of, ◌>>=◌, ◌>>◌,
}
use likecoin_op.Indexer.Model.{
  EventStatus, received, enqueued, processing, processed, failed, other, EvmEvent, Tables, Queue,
  Action, State,
}
use likecoin_op.Indexer.Db.{
  with_tx, update_evm_event_status, batch_update_status, query_by_status, get_event,
}

abbrev pub is_received : EventStatus → Bool
is_received received = true
is_received _ = false

-- The worker's database and queue, and the registered processors by the name of an event: what each
-- one does to the world outside the event tables is its own.
module _ (fault : ℕ → Bool) (processors : Text → Option (EvmEvent → Action (Unit {0}))) where
  -- The deferred function of `Process`: an error is stored as the reason, and an error in that is dropped.
  abbrev pub store_failure : EvmEvent → Error → Action (Unit {0})
  store_failure e reason =
      error_of (update_evm_event_status fault e.id failed (some reason)) >> raise reason

  abbrev pub run_processor : Option (EvmEvent → Action (Unit {0})) → EvmEvent → Action (Unit {0})
  run_processor none e = raise unknown_event
  run_processor (some process) e = process e

  -- The deferred function after a failed update, which has set the event to nil: the update of a nil
  -- event panics unless its transaction cannot begin.
  abbrev pub store_nil_failure : {A : Type 0} → Error → Action A
  store_nil_failure reason =
      error_of (with_tx fault {A = EvmEvent} (halt nil_dereference)) >> raise reason

  -- `Process` after its switch
  unfoldable pub process_event : EvmEvent → Action (Unit {0})
  process_event e =
      check (update_evm_event_status fault e.id processing none) store_nil_failure λ taken.
        check (run_processor (processors taken.topic0) taken) (store_failure taken) λ _.
          check (update_evm_event_status fault taken.id processed none) store_nil_failure
            λ _. pure tt

  -- `Process`
  unfoldable pub process : EventStatus → EvmEvent → Action (Unit {0})
  process received e = process_event e
  process enqueued e = process_event e
  process processing e = raise already_processing
  process processed e = pure tt
  process failed e = process_event e
  process other e = raise unknown_status

  -- `HandleProcessEVMEvent`
  unfoldable pub handle_process_evm_event : ℕ → Action (Unit {0})
  handle_process_evm_event id = check (db_call fault (get_event id)) raise λ e. process e.status e

-- `Client.Enqueue` of the task of an event
unfoldable pub enqueue : (ℕ → Option (Unit {0})) → ℕ → Action (Unit {0})
enqueue answer id w = elim (answer w.tick) [
  | none ↦ (err rpc_error, record w { tick = suc w.tick })
  | some _ ↦ (ok tt, record w { tick = suc w.tick; net = id ∷ w.net })
]

-- The database fails as `fault` says, and the queue answers as `answer` does.
module _ (fault : ℕ → Bool) (answer : ℕ → Option (Unit {0})) where
  -- The loop of `HandleCheckReceivedEVMEvents`: the ids whose task could be put into the queue.
  unfoldable pub enqueue_all : List EvmEvent → Action (List ℕ)
  enqueue_all [] = pure []
  enqueue_all (e ∷ es) =
      let others = enqueue_all es in
      check (enqueue answer e.id) (λ _. others) λ _. check others raise λ ids. pure (e.id ∷ ids)

  -- `HandleCheckReceivedEVMEvents`
  unfoldable pub check_received_evm_events : Action (Unit {0})
  check_received_evm_events =
      check (db_call fault (query_by_status is_received)) raise
        λ events. enqueue_all events >>= λ ids. batch_update_status fault ids enqueued
