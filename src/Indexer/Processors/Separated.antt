-- ===== src/Indexer/Processors/Separated.antt =====
-- The five processors are an instance of what processing an event asks of its processors.
-- (likenft-indexer/internal/logic/evmeventprocessor)
use likecoin_op.Base.{ℕ, ◌≡◌, refl, ◌∙◌, Text}
use likecoin_op.Exec.{db_call}
use likecoin_op.Exec.Frame.{Keeps, Keeps-pure, Keeps-db_call}
use likecoin_op.Indexer.Model.{EvmEvent, Nft, Action, State}
use likecoin_op.Indexer.Logs.{Log}
use likecoin_op.Indexer.Process.Outcome.{Separate}
use likecoin_op.Indexer.Repos.{book_call, insert_nft}
use likecoin_op.Indexer.Repos.Kept.{DbFrame, insert_memo-Keeps, get_or_create_nft-Keeps}
use likecoin_op.Indexer.Processors.{
  EventProcessorDeps, transfer_token, process_transfer, process_transfer_with_memo,
  get_event_processor,
}
use likecoin_op.Indexer.Processors.Kept.{
  with_log-Keeps, unpacked-Keeps, transfer_token-Keeps, new_book_nft-Keeps,
  ownership_transferred-Keeps, contract_uri_updated-Keeps, get_event_processor-cases,
}

-- The rows of events stay as they are.
abbrev SameEvents : State → State → Type 0
SameEvents w v = v.db.events ≡ w.db.events

same_events : DbFrame SameEvents
same_events = record {
  frame = record { same = λ w. refl; trans = λ u v w p q. q ∙ p; tick = λ w. refl };
  same_rows = λ w v events nfts. events;
}

module _ (d : EventProcessorDeps) where
  insert_nft-SameEvents : (n : Nft) → Keeps SameEvents (db_call d.fault (book_call (insert_nft n)))
  insert_nft-SameEvents n = Keeps-db_call same_events.frame d.fault _ λ w. refl

  token-SameEvents :
      (log : Log) (token_id : ℕ) (to : Text) (store_memo : Action (Unit {0}))
      → Keeps SameEvents store_memo
      → Keeps SameEvents (transfer_token d log token_id to store_memo)
  token-SameEvents log token_id to store_memo stored =
      transfer_token-Keeps same_events d log token_id to store_memo stored
        (λ n same.
          get_or_create_nft-Keeps same_events d.fault d.fold d.now _ token_id n
            (λ row _ _ _. insert_nft-SameEvents row))
        (λ owner. Keeps-db_call same_events.frame d.fault _ λ w. refl)

  transfer-SameEvents : (e : EvmEvent) → Keeps SameEvents (process_transfer d e)
  unfolding process_transfer
  transfer-SameEvents e = with_log-Keeps same_events d d.book_nft_abi e _ λ log.
      unpacked-Keeps same_events d (d.unpack_transfer log) _
        λ event. token-SameEvents log event.token_id _ _ (Keeps-pure same_events.frame tt)

  memo-SameEvents : (e : EvmEvent) → Keeps SameEvents (process_transfer_with_memo d e)
  unfolding process_transfer_with_memo
  memo-SameEvents e = with_log-Keeps same_events d d.book_nft_abi e _ λ log.
      unpacked-Keeps same_events d (d.unpack_transfer_with_memo log) _ λ event.
        token-SameEvents log event.token_id _ _ (insert_memo-Keeps same_events d.fault d.fold _)

  -- None of the registered processors changes a row of the table of events, on whatever way it ends, so
  -- what processing promises of the status of an event holds with the five processors that there are.
  pub get_event_processor-Separate : Separate d.fault (get_event_processor d)
  unfolding Separate
  get_event_processor-Separate name process h e w =
      get_event_processor-cases d (λ p. (p e w).1.db.events ≡ w.db.events) name process h
        (λ _. (transfer-SameEvents e).at w) (λ _ _. (memo-SameEvents e).at w)
        (λ _ _. (
          (new_book_nft-Keeps same_events d e).at w,
          (
            (ownership_transferred-Keeps same_events d e).at w,
            (contract_uri_updated-Keeps same_events d e).at w,
          ),
        ))
