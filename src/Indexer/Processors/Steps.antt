-- ===== src/Indexer/Processors/Steps.antt =====
-- Each registered processor makes the step of the ledger that its event asks for.
-- (likenft-indexer/internal/logic/evmeventprocessor)
use likecoin_op.Base.{
  ℕ, ◌≡◌, refl, ap, ◌∙◌, inl, ◌==◌, true, false, Option, none, some, if◌then◌else◌, Text,
}
use likecoin_op.Exec.{exec, Result, ok, err, stop, pure, raise, check}
use likecoin_op.Exec.Frame.{Keeps, Keeps-pure}
use likecoin_op.Exec.Steps.{Ends, Ends-check}
use likecoin_op.Indexer.Model.{EvmEvent, Action, State}
use likecoin_op.Indexer.Logs.{Log, convert_evm_event_to_log}
use likecoin_op.Indexer.Acquire.{transfer, transfer_with_memo}
use likecoin_op.Indexer.Process.{run_processor}
use likecoin_op.Indexer.Repos.Kept.{DbFrame, insert_memo-Keeps, get_or_create_nft-Keeps}
use likecoin_op.Indexer.Processors.{
  EventProcessorDeps, BookNftTransfer, BookNftTransferWithMemo, of_result, unpacked, transfer_token,
  process_transfer, process_transfer_with_memo, get_event_processor,
}
use likecoin_op.Indexer.Processors.Kept.{
  transfer_token-Keeps, new_book_nft-Keeps, ownership_transferred-Keeps, contract_uri_updated-Keeps,
  get_event_processor-cases,
}
use likecoin_op.Indexer.Processors.Ledger.{
  Move, Toward, toward, insert_nft-Toward, set_nft_owner-Toward,
}
use likecoin_op.Indexer.Processors.Moves.{
  ledger, Steps, Toward-Steps, quiet-Steps, update_nft_owner-Ends,
}

-- No owner changes.
abbrev pub SameNfts : State → State → Type 0
SameNfts w v = v.db.book.nfts ≡ w.db.book.nfts

pub same_nfts : DbFrame SameNfts
same_nfts = record {
  frame = record { same = λ w. refl; trans = λ u v w p q. q ∙ p; tick = λ w. refl };
  same_rows = λ w v events nfts. nfts;
}

module _ (d : EventProcessorDeps) where
  -- The move of a token of the contract that has sent the log.
  abbrev pub move_in : Log → ℕ → Text → Move
  move_in log token_id to = record {
    contract_address = d.book_nft_abi.address_hex log.address;
    token_id = token_id;
    to = d.book_nft_abi.address_hex to;
  }

  abbrev pub unpacked_move : {A : Type 0} → Log → Option A → (A → ℕ) → (A → Text) → Option Move
  unpacked_move log none token to = none
  unpacked_move log (some a) token to = some (move_in log (token a) (to a))

  abbrev pub move_by :
      {A : Type 0} → Result Log → (Log → Option A) → (A → ℕ) → (A → Text) → Option Move
  move_by (ok log) unpack token to = unpacked_move log (unpack log) token to
  move_by (err x) unpack token to = none
  move_by (stop s) unpack token to = none

  -- The move that an event stands for: only the two transfers stand for one.
  abbrev pub move_of : EvmEvent → Option Move
  move_of e =
      let log = convert_evm_event_to_log d.book_nft_abi e in
      if e.topic0 == d.event_name transfer
      then move_by log d.unpack_transfer (λ (a : BookNftTransfer). a.token_id)
          (λ (a : BookNftTransfer). a.to)
      else if e.topic0 == d.event_name transfer_with_memo
      then move_by log d.unpack_transfer_with_memo (λ (a : BookNftTransferWithMemo). a.token_id)
          (λ (a : BookNftTransferWithMemo). a.to)
      else none

  module _ (log : Log) (token_id : ℕ) (to : Text) (store_memo : Action (Unit {0})) where
    transfer_token-Toward :
        Keeps (Toward d.fold (move_in log token_id to)) store_memo
        → Keeps
            (Toward d.fold (move_in log token_id to))
            (transfer_token d log token_id (d.book_nft_abi.address_hex to) store_memo)
    transfer_token-Toward stored =
        let m = move_in log token_id to in
        transfer_token-Keeps (toward d.fold m) d log token_id (d.book_nft_abi.address_hex to)
          store_memo stored
          (λ n same.
            get_or_create_nft-Keeps (toward d.fold m) d.fault d.fold d.now m.contract_address
              token_id n (λ row hc ht ho. insert_nft-Toward d.fold d.fault m row hc ht (ho ∙ same)))
          (set_nft_owner-Toward d.fold d.fault m)

    transfer_token-Ends :
        Ends
          (λ v.
            ledger d.fold v (d.book_nft_abi.address_hex log.address) token_id
            ≡ some (d.book_nft_abi.address_hex to))
          (transfer_token d log token_id (d.book_nft_abi.address_hex to) store_memo)
    unfolding transfer_token
    transfer_token-Ends = Ends-check _ _ λ uri. Ends-check _ _ λ metadata. Ends-check _ _ λ supply.
        Ends-check _ _ λ owner. Ends-check _ _ λ nft_class. Ends-check _ _ λ n. Ends-check _ _ λ _.
          Ends-check _ _ λ _.
            update_nft_owner-Ends d.fold d.fault (d.book_nft_abi.address_hex log.address) token_id
              (d.book_nft_abi.address_hex to) owner

    transfer_token-Steps :
        Keeps (Toward d.fold (move_in log token_id to)) store_memo
        → (w : State)
        → Steps d.fold
            (some (move_in log token_id to))
            w
            (transfer_token d log token_id (d.book_nft_abi.address_hex to) store_memo w)
    transfer_token-Steps stored w =
        let s = transfer_token d log token_id (d.book_nft_abi.address_hex to) store_memo w in
        Toward-Steps d.fold (move_in log token_id to) w s.1 s.0
          ((transfer_token-Toward stored).at w)
          (λ a e. transfer_token-Ends.at w s.1 a (ap (λ r. (r, s.1)) e))

  module _ {A : Type 0} (unpack : Log → Option A) (token : A → ℕ) (to : A → Text)
      (memo : Log → A → Action (Unit {0}))
      (stored : (log : Log) (a : A)
        → Keeps (Toward d.fold (move_in log (token a) (to a))) (memo log a)) where
    unpacked-Steps :
        (log : Log) (o : Option A) (w : State)
        → Steps d.fold (unpacked_move log o token to) w (
            unpacked o
              (λ a. transfer_token d log (token a) (d.book_nft_abi.address_hex (to a)) (memo log a))
              w)
    unfolding exec
    unpacked-Steps log none w = inl λ c t. refl
    unpacked-Steps log (some a) w =
        transfer_token-Steps log (token a) (to a) (memo log a) (stored log a) w

    log-Steps :
        (r : Result Log) (w : State)
        → Steps d.fold (move_by r unpack token to) w (
            check
              (of_result r)
              raise
              (λ log. unpacked (unpack log) (λ a.
                transfer_token d log (token a) (d.book_nft_abi.address_hex (to a)) (memo log a)))
              w)
    unfolding exec of_result
    log-Steps (ok log) w = unpacked-Steps log (unpack log) w
    log-Steps (err x) w = inl λ c t. refl
    log-Steps (stop s) w = inl λ c t. refl

  transfer-Steps :
      (e : EvmEvent) (w : State)
      → (e.topic0 == d.event_name transfer) ≡ true
      → Steps d.fold (move_of e) w (process_transfer d e w)
  unfolding process_transfer
  transfer-Steps e w h = rw h (
      log-Steps d.unpack_transfer _ _ (λ log a. pure tt)
        (λ log a. Keeps-pure (toward d.fold (move_in log a.token_id a.to)).frame tt)
        (convert_evm_event_to_log d.book_nft_abi e) w)

  memo-Steps :
      (e : EvmEvent) (w : State)
      → (e.topic0 == d.event_name transfer) ≡ false
      → (e.topic0 == d.event_name transfer_with_memo) ≡ true
      → Steps d.fold (move_of e) w (process_transfer_with_memo d e w)
  unfolding process_transfer_with_memo
  memo-Steps e w n h =
      rw (n, h)
        (log-Steps d.unpack_transfer_with_memo _ _ _
          (λ log a.
            insert_memo-Keeps (toward d.fold (move_in log a.token_id a.to)) d.fault d.fold _)
          (convert_evm_event_to_log d.book_nft_abi e) w)

  other-Steps :
      (e : EvmEvent) (w : State) (s : Result (Unit {0}) × State)
      → (e.topic0 == d.event_name transfer) ≡ false
      → (e.topic0 == d.event_name transfer_with_memo) ≡ false
      → SameNfts w s.1
      → Steps d.fold (move_of e) w s
  other-Steps e w s n1 n2 same = rw (n1, n2) (quiet-Steps d.fold w s.1 s.0 same)

  pub run_processor-Steps :
      (e : EvmEvent) (w : State)
      → Steps d.fold
          (move_of e)
          w
          (run_processor d.fault (get_event_processor d) (get_event_processor d e.topic0) e w)
  unfolding exec
  run_processor-Steps e w = go (get_event_processor d e.topic0) refl
    where
      go :
          (o : Option (EvmEvent → Action (Unit {0})))
          → get_event_processor d e.topic0 ≡ o
          → Steps d.fold (move_of e) w (run_processor d.fault (get_event_processor d) o e w)
      go none h = inl λ c t. refl
      go (some process) h =
          get_event_processor-cases d (λ p. Steps d.fold (move_of e) w (p e w)) e.topic0 process h
            (transfer-Steps e w) (memo-Steps e w)
            (λ n1 n2. (
              other-Steps e w _ n1 n2 ((new_book_nft-Keeps same_nfts d e).at w),
              (
                other-Steps e w _ n1 n2 ((ownership_transferred-Keeps same_nfts d e).at w),
                other-Steps e w _ n1 n2 ((contract_uri_updated-Keeps same_nfts d e).at w),
              ),
            ))
