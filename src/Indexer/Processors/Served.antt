-- ===== src/Indexer/Processors/Served.antt =====
-- One task of the worker as one step of the ledger of owners.
-- (likenft-indexer/cmd/worker/task/process_evm_event.go, internal/logic/evmeventprocessor)
use likecoin_op.Base.{
  ℕ, ◌≡◌, ◌≢◌, refl, sym, ap, ◌∙◌, ◌⊎◌, inl, inr, ◌==◌, Bool, Option, none, some, List, map_option,
  find-replace_same, find-holds, eq_of_test, arith,
}
use mathlib.Core.Path.{subst}
use likecoin_op.Exec.{
  exec, Error, Result, ok, err, stop, pure, raise, nil_dereference, check, ◌>>◌, db_call,
}
use likecoin_op.Exec.Frame.{
  Keeps, Keeps-pure, Keeps-raise, Keeps-halt, Keeps-check, Keeps-then_raise, Keeps-db_call,
}
use likecoin_op.Exec.Steps.{check-result, bind-eq-ok, db_call-result}
use likecoin_op.Indexer.Model.{
  EventStatus, received, enqueued, processing, processed, failed, other, EvmEvent, Nft, Tables,
  Action, State,
}
use likecoin_op.Indexer.Db.{with_tx, get_event, set_status, update_evm_event_status}
use likecoin_op.Indexer.Logs.{convert_evm_event_to_log}
use likecoin_op.Indexer.Process.{
  store_failure, store_nil_failure, run_processor, process_event, process, handle_process_evm_event,
}
use likecoin_op.Indexer.Process.Outcome.{row}
use likecoin_op.Indexer.Repos.Kept.{Keeps-with_tx}
use likecoin_op.Indexer.Processors.{EventProcessorDeps, get_event_processor}
use likecoin_op.Indexer.Processors.Ledger.{Move, owner_of}
use likecoin_op.Indexer.Processors.Moves.{SameLedger, after, StepsFrom, Steps}
use likecoin_op.Indexer.Processors.Steps.{SameNfts, same_nfts, move_of, run_processor-Steps}

module _ (fault : ℕ → Bool) where
  get_event-SameNfts : (id : ℕ) → Keeps SameNfts (db_call fault (get_event id))
  unfolding get_event
  get_event-SameNfts id = Keeps-db_call same_nfts.frame fault (get_event id) λ w. ground arith

  pub get_event-db :
      (id : ℕ) (w u : State) (r : Result EvmEvent)
      → db_call fault (get_event id) w ≡ (r, u)
      → u.db ≡ w.db
  unfolding get_event exec
  get_event-db id w u r h = ground arith

  update-SameNfts :
      (id : ℕ) (status : EventStatus) (reason : Option Error)
      → Keeps SameNfts (update_evm_event_status fault id status reason)
  unfolding update_evm_event_status set_status
  update-SameNfts id status reason = Keeps-with_tx same_nfts fault _ (
      Keeps-check same_nfts.frame _ _ _ (get_event-SameNfts id) (Keeps-raise same_nfts.frame) (λ _.
        Keeps-check same_nfts.frame _ _ _ (Keeps-db_call same_nfts.frame fault _ (λ w. refl))
          (Keeps-raise same_nfts.frame) (λ _. get_event-SameNfts id)))

  -- The row that an update returns is the one that was found, with the new status.
  update-taken :
      (id : ℕ) (status : EventStatus) (reason : Option Error) (w v : State) {e taken : EvmEvent}
      → row id w.db ≡ some e
      → update_evm_event_status fault id status reason w ≡ (ok taken, v)
      → taken ≡ record e { status = status; failed_reason = reason }
  unfolding update_evm_event_status with_tx get_event set_status exec
  update-taken id status reason w v {e} {taken} found h =
      let change : EvmEvent → EvmEvent =
        λ x. record x { status = status; failed_reason = reason } in
      let stored =
        find-replace_same (λ (x : EvmEvent). x.id == id) change w.db.events (λ x. refl)
        ∙ ap (map_option change) found in
      ground (arith, stored, h)

-- What ends in an error does not return.
then_raise-refuses :
    {A B : Type 0} (m : Action A) (x : Error) (w : State) (b : B) → ((m >> raise x) w).0 ≢ ok b
unfolding exec
then_raise-refuses m x w b h = let (a, e, p) = bind-eq-ok m (λ _. raise x) w {b = b} h in cc

module _ (d : EventProcessorDeps) where
  store_failure-SameNfts :
      (e : EvmEvent) (x : Error)
      → Keeps SameNfts (store_failure d.fault (get_event_processor d) e x)
  store_failure-SameNfts e x =
      Keeps-then_raise same_nfts.frame _ x (update-SameNfts d.fault e.id failed (some x))

  store_nil-SameNfts :
      {A : Type 0} (x : Error)
      → Keeps {A = A} SameNfts (store_nil_failure d.fault (get_event_processor d) x)
  store_nil-SameNfts x =
      Keeps-then_raise same_nfts.frame _ x
        (Keeps-with_tx same_nfts d.fault _ (Keeps-halt same_nfts.frame nil_dereference))

  -- A step that was made stays made.
  done-Steps :
      {A : Type 0} (o : Option Move) (old new : List Nft) (u : State) (r : Result A)
      → SameLedger d.fold (after d.fold o (owner_of d.fold old)) (owner_of d.fold new)
      → u.db.book.nfts ≡ new
      → StepsFrom d.fold o old (r, u)
  done-Steps o old new u (ok a) h same = λ c t. ap (λ nfts. owner_of d.fold nfts c t) same ∙ h c t
  done-Steps o old new u (err x) h same =
      inr λ c t. ap (λ nfts. owner_of d.fold nfts c t) same ∙ h c t
  done-Steps o old new u (stop x) h same =
      inr λ c t. ap (λ nfts. owner_of d.fold nfts c t) same ∙ h c t

  -- A call that does not return leaves open whether the step was made.
  refused-Steps :
      {A : Type 0} (o : Option Move) (old new : List Nft) (u : State) (r : Result A)
      → SameLedger d.fold (owner_of d.fold old) (owner_of d.fold new)
        ⊎ SameLedger d.fold (after d.fold o (owner_of d.fold old)) (owner_of d.fold new)
      → u.db.book.nfts ≡ new
      → ((a : A) → r ≢ ok a)
      → StepsFrom d.fold o old (r, u)
  refused-Steps o old new u (ok a) h same never = absurd (never a refl)
  refused-Steps o old new u (err x) h same never =
      subst
        (λ nfts.
          SameLedger d.fold (owner_of d.fold old) (owner_of d.fold nfts)
          ⊎ SameLedger d.fold (after d.fold o (owner_of d.fold old)) (owner_of d.fold nfts))
        (sym same) h
  refused-Steps o old new u (stop x) h same never =
      subst
        (λ nfts.
          SameLedger d.fold (owner_of d.fold old) (owner_of d.fold nfts)
          ⊎ SameLedger d.fold (after d.fold o (owner_of d.fold old)) (owner_of d.fold nfts))
        (sym same) h

  finish-SameNfts :
      (e : EvmEvent)
      → Keeps SameNfts (
          check
            (update_evm_event_status d.fault e.id processed none)
            (store_nil_failure d.fault (get_event_processor d))
            (λ _. pure tt))
  finish-SameNfts e =
      Keeps-check same_nfts.frame _ _ _ (update-SameNfts d.fault e.id processed none)
        store_nil-SameNfts (λ _. Keeps-pure same_nfts.frame tt)

  -- From the row that was taken on.
  taken-Steps :
      (o : Option Move) (old : List Nft) (taken : EvmEvent) (v : State)
      → StepsFrom d.fold o old (
          run_processor d.fault
            (get_event_processor d)
            (get_event_processor d taken.topic0)
            taken
            v)
      → StepsFrom d.fold o old (
          check
            (run_processor d.fault
              (get_event_processor d)
              (get_event_processor d taken.topic0)
              taken)
            (store_failure d.fault (get_event_processor d) taken)
            (λ _.
              check
                (update_evm_event_status d.fault taken.id processed none)
                (store_nil_failure d.fault (get_event_processor d))
                (λ _. pure tt))
            v)
  taken-Steps o old taken v h =
      check-result (StepsFrom d.fold o old) _ _ _ v
        (λ a u q.
          done-Steps o old u.db.book.nfts _ _ (subst (StepsFrom d.fold o old) q h)
            ((finish-SameNfts taken).at u))
        (λ x u q.
          refused-Steps o old u.db.book.nfts _ _ (subst (StepsFrom d.fold o old) q h)
            ((store_failure-SameNfts taken x).at u) (then_raise-refuses _ x u))
        (λ s u q. subst (StepsFrom d.fold o old) q h)

  process_event-Steps :
      (e : EvmEvent) (w : State)
      → row e.id w.db ≡ some e
      → Steps d.fold (move_of d e) w (process_event d.fault (get_event_processor d) e w)
  unfolding process_event convert_evm_event_to_log
  process_event-Steps e w found =
      let kept = (update-SameNfts d.fault e.id processing none).at w in
      check-result (Steps d.fold (move_of d e) w) _ _ _ w
        (λ taken v p.
          let same =
            update-taken d.fault e.id processing none w v {e = e} {taken = taken} found p in
          let nfts : v.db.book.nfts ≡ w.db.book.nfts =
            sym (ap (λ (s : Result EvmEvent × State). s.1.db.book.nfts) p) ∙ kept in
          taken-Steps (move_of d e) w.db.book.nfts taken v (
            subst
              (λ old. StepsFrom d.fold (move_of d e) old (
                run_processor d.fault (get_event_processor d) (get_event_processor d taken.topic0)
                  taken v))
              nfts
              (subst
                (λ o. StepsFrom d.fold o v.db.book.nfts (
                  run_processor d.fault (get_event_processor d) (get_event_processor d taken.topic0)
                    taken v))
                (ap (move_of d) same) (run_processor-Steps d taken v))))
        (λ x v p.
          refused-Steps (move_of d e) w.db.book.nfts w.db.book.nfts _ _ (inl λ c t. refl)
            ((store_nil-SameNfts x).at v
              ∙ (sym (ap (λ (s : Result EvmEvent × State). s.1.db.book.nfts) p) ∙ kept))
            (then_raise-refuses _ x v))
        (λ s v p. inl λ c t.
          ap (λ nfts. owner_of d.fold nfts c t)
            (sym (ap (λ (s : Result EvmEvent × State). s.1.db.book.nfts) p) ∙ kept))

  -- A processed event asks for nothing more.
  abbrev pub asked : EventStatus → Option Move → Option Move
  asked processed o = none
  asked _ o = o

  process-Steps :
      (status : EventStatus) (e : EvmEvent) (w : State)
      → row e.id w.db ≡ some e
      → Steps d.fold
          (asked status (move_of d e))
          w
          (process d.fault (get_event_processor d) status e w)
  unfolding process exec
  process-Steps received e w found = process_event-Steps e w found
  process-Steps enqueued e w found = process_event-Steps e w found
  process-Steps processing e w found = inl λ c t. refl
  process-Steps processed e w found = λ c t. refl
  process-Steps failed e w found = process_event-Steps e w found
  process-Steps other e w found = inl λ c t. refl

  -- A task that returns has given the token of its event's transfer to the receiver, and no other token
  -- another owner; where the event was processed before, or is no transfer, no owner changes. A task
  -- that ends otherwise has done the same or nothing.
  pub handle-Steps :
      (id : ℕ) (w : State) {e : EvmEvent}
      → row id w.db ≡ some e
      → Steps d.fold
          (asked e.status (move_of d e))
          w
          (handle_process_evm_event d.fault (get_event_processor d) id w)
  unfolding handle_process_evm_event get_event raise
  handle-Steps id w {e} found =
      let same_id : e.id ≡ id =
        eq_of_test _ _ (find-holds (λ (x : EvmEvent). x.id == id) w.db.events {a = e} found) in
      check-result (Steps d.fold (asked e.status (move_of d e)) w) _ _ _ w
        (λ e' u p.
          let got = db_call-result d.fault (get_event id) w u {a = e'} p in
          let same : e' ≡ e = ground (arith, got, found) in
          let db = get_event-db d.fault id w u (ok e') p in
          subst
            (λ x.
              Steps d.fold (asked e.status (move_of d e)) w
                (process d.fault (get_event_processor d) x.status x u))
            (sym same)
            (subst
              (λ old.
                StepsFrom d.fold (asked e.status (move_of d e)) old
                  (process d.fault (get_event_processor d) e.status e u))
              (ap (λ (t : Tables). t.book.nfts) db)
              (process-Steps e.status e u (
                subst (λ t. row e.id t ≡ some e) (sym db)
                  (subst (λ i. row i w.db ≡ some e) (sym same_id) found)))))
        (λ x u p. inl λ c t.
          ap (λ (t' : Tables). owner_of d.fold t'.book.nfts c t)
            (get_event-db d.fault id w u (err x) p))
        (λ s u p. inl λ c t.
          ap (λ (t' : Tables). owner_of d.fold t'.book.nfts c t)
            (get_event-db d.fault id w u (stop s) p))
