-- ===== src/Indexer/Processors/Kept.antt =====
-- The processors keep what the statements on tokens keep.
-- (likenft-indexer/internal/logic/evmeventprocessor)
use likecoin_op.Base.{
  ℕ, ◌≡◌, refl, ◌==◌, Option, none, some, true, false, Bool-cases, arith, inl, inr, Text,
}
use mathlib.Core.Path.{subst}
use likecoin_op.Exec.{Result, db_call, rpc_error, unpack_failed}
use likecoin_op.Exec.Frame.{Keeps, Keeps-raise, Keeps-check, Keeps-outside}
use likecoin_op.Indexer.Model.{EvmEvent, Nft, Action, State}
use likecoin_op.Indexer.Logs.{Log, Abi, convert_evm_event_to_log}
use likecoin_op.Indexer.Acquire.{
  contract_uri_updated, new_book_nft, ownership_transferred, transfer_with_memo, transfer,
}
use likecoin_op.Indexer.Repos.{book_call, set_nft_owner, get_or_create_nft}
use likecoin_op.Indexer.Repos.Kept.{
  DbFrame, get_or_create_account-Keeps, query_class-Keeps, update_class_by-Keeps,
  insert_nft_class-Keeps, update_nft_owner-Keeps,
}
use likecoin_op.Indexer.Processors.{
  EventProcessorDeps, of_result, unpacked, account_of, with_log, transfer_token, process_transfer,
  process_transfer_with_memo, process_new_book_nft, store_new_book_nft,
  process_ownership_transferred, process_contract_uri_updated, get_event_processor,
}

module _ {R : State → State → Type 0} (F : DbFrame R) (d : EventProcessorDeps) where
  of_result-Keeps : {A : Type 0} (r : Result A) → Keeps R (of_result r)
  unfolding of_result
  of_result-Keeps r = record { at = F.frame.same }

  pub with_log-Keeps :
      (abi : Abi) (e : EvmEvent) (k : Log → Action (Unit {0}))
      → ((log : Log) → Keeps R (k log))
      → Keeps R (with_log d abi e k)
  with_log-Keeps abi e k h =
      Keeps-check F.frame _ _ _ (of_result-Keeps (convert_evm_event_to_log abi e))
        (Keeps-raise F.frame) h

  pub unpacked-Keeps :
      {A : Type 0} (o : Option A) (k : A → Action (Unit {0}))
      → ((a : A) → Keeps R (k a))
      → Keeps R (unpacked o k)
  unpacked-Keeps none k h = Keeps-raise F.frame unpack_failed
  unpacked-Keeps (some a) k h = h a

  -- Of a transfer, the two statements on its token are the relation's own.
  pub transfer_token-Keeps :
      (log : Log) (token_id : ℕ) (to : Text) (store_memo : Action (Unit {0}))
      → Keeps R store_memo
      → ((n : Nft)
          → n.owner_address ≡ to
          → Keeps R (
              get_or_create_nft d.fault d.fold d.now
                (d.book_nft_abi.address_hex log.address)
                token_id
                n))
      → ((owner : ℕ)
          → Keeps R (
              db_call d.fault (
                book_call (
                  set_nft_owner d.fault d.fold
                    (d.book_nft_abi.address_hex log.address)
                    token_id
                    to
                    owner))))
      → Keeps R (transfer_token d log token_id to store_memo)
  unfolding transfer_token
  transfer_token-Keeps log token_id to store_memo stored inserted updated =
      let address = d.book_nft_abi.address_hex log.address in
      Keeps-check F.frame _ _ _ (Keeps-outside F.frame _ rpc_error) (Keeps-raise F.frame) λ uri.
        Keeps-check F.frame _ _ _ (Keeps-outside F.frame _ rpc_error) (Keeps-raise F.frame)
          λ metadata.
            Keeps-check F.frame _ _ _ (Keeps-outside F.frame _ rpc_error) (Keeps-raise F.frame)
              λ supply.
                Keeps-check F.frame _ _ _
                  (get_or_create_account-Keeps F d.fault d.fold (account_of to))
                  (Keeps-raise F.frame)
                  λ owner.
                    Keeps-check F.frame _ _ _ (query_class-Keeps F d.fault d.fold address)
                      (Keeps-raise F.frame)
                      λ nft_class.
                        Keeps-check F.frame _ _ _ (inserted _ refl) (Keeps-raise F.frame) λ _.
                          Keeps-check F.frame _ _ _
                            (update_class_by-Keeps F d.fault d.fold address _) (Keeps-raise F.frame)
                            λ _. Keeps-check F.frame _ _ _ stored (Keeps-raise F.frame) λ _.
                              update_nft_owner-Keeps F d.fault d.fold address token_id to owner
                                (updated owner.id)

  pub new_book_nft-Keeps : (e : EvmEvent) → Keeps R (process_new_book_nft d e)
  unfolding process_new_book_nft store_new_book_nft
  new_book_nft-Keeps e = with_log-Keeps d.like_protocol_abi e _ λ log.
      unpacked-Keeps (d.unpack_new_book_nft log) _ λ event.
        Keeps-check F.frame _ _ _ (Keeps-outside F.frame _ rpc_error) (Keeps-raise F.frame)
          λ metadata.
            Keeps-check F.frame _ _ _ (Keeps-outside F.frame _ rpc_error) (Keeps-raise F.frame)
              λ owner.
                Keeps-check F.frame _ _ _ (get_or_create_account-Keeps F d.fault d.fold _)
                  (Keeps-raise F.frame)
                  λ account.
                    Keeps-check F.frame _ _ _ (Keeps-outside F.frame _ rpc_error)
                      (Keeps-raise F.frame)
                      λ supply. record {
                        at = λ w. (insert_nft_class-Keeps F d.fault d.fold d.is_empty d.now _).at w;
                      }

  pub ownership_transferred-Keeps : (e : EvmEvent) → Keeps R (process_ownership_transferred d e)
  unfolding process_ownership_transferred
  ownership_transferred-Keeps e = with_log-Keeps d.like_protocol_abi e _ λ log.
      unpacked-Keeps (d.unpack_ownership_transferred log) _ λ event.
        Keeps-check F.frame _ _ _ (get_or_create_account-Keeps F d.fault d.fold _)
          (Keeps-raise F.frame) λ account. update_class_by-Keeps F d.fault d.fold _ _

  pub contract_uri_updated-Keeps : (e : EvmEvent) → Keeps R (process_contract_uri_updated d e)
  unfolding process_contract_uri_updated
  contract_uri_updated-Keeps e = with_log-Keeps d.like_protocol_abi e _ λ log.
      Keeps-check F.frame _ _ _ (Keeps-outside F.frame _ rpc_error) (Keeps-raise F.frame) λ uri.
        Keeps-check F.frame _ _ _ (Keeps-outside F.frame _ rpc_error) (Keeps-raise F.frame)
          λ metadata. update_class_by-Keeps F d.fault d.fold _ _

-- Which of the five processors is registered by a name.
pub get_event_processor-cases :
    (d : EventProcessorDeps) (P : (EvmEvent → Action (Unit {0})) → Type 0) (name : Text)
    (process : EvmEvent → Action (Unit {0}))
    → get_event_processor d name ≡ some process
    → ((name == d.event_name transfer) ≡ true → P (process_transfer d))
    → ((name == d.event_name transfer) ≡ false
        → (name == d.event_name transfer_with_memo) ≡ true
        → P (process_transfer_with_memo d))
    → ((name == d.event_name transfer) ≡ false
        → (name == d.event_name transfer_with_memo) ≡ false
        → P (process_new_book_nft d)
          × (P (process_ownership_transferred d) × P (process_contract_uri_updated d)))
    → P process
unfolding get_event_processor
get_event_processor-cases d P name process h p1 p2 p3 =
    elim (Bool-cases (name == d.event_name transfer)) [
      | inl e ↦ subst P (ground (arith, e, h)) (p1 e)
      | inr n1 ↦ elim (Bool-cases (name == d.event_name transfer_with_memo)) [
        | inl e ↦ subst P (ground (arith, n1, e, h)) (p2 n1 e)
        | inr n2 ↦ elim (Bool-cases (name == d.event_name new_book_nft)) [
          | inl e ↦ subst P (ground (arith, n1, n2, e, h)) (p3 n1 n2).0
          | inr n3 ↦ elim (Bool-cases (name == d.event_name ownership_transferred)) [
            | inl e ↦ subst P (ground (arith, n1, n2, n3, e, h)) (p3 n1 n2).1.0
            | inr n4 ↦ elim (Bool-cases (name == d.event_name contract_uri_updated)) [
              | inl e ↦ subst P (ground (arith, n1, n2, n3, n4, e, h)) (p3 n1 n2).1.1
              | inr n5 ↦ absurd (ground (arith, n1, n2, n3, n4, n5, h))
            ]
          ]
        ]
      ]
    ]
