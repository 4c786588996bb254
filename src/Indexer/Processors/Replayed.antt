-- ===== src/Indexer/Processors/Replayed.antt =====
-- The worker's tasks in any order, as a replay of transfers on an abstract ledger.
-- (likenft-indexer/cmd/worker/task/process_evm_event.go, internal/logic/evmeventprocessor)
use likecoin_op.Base.{
  Bool, true, false, sym, ℕ, ◌≡◌, refl, ap, ◌∙◌, ◌⊎◌, inl, inr, ◌==◌, Option, none, some, List, [],
  ◌∷◌, find, arith, Option-cases,
}
use likecoin_op.Exec.{
  Error, Result, ok, err, stop, nil_dereference, already_processing, unknown_event, unknown_status,
  exec, db_call,
}
use likecoin_op.Exec.Frame.{
  Keeps, Keeps-pure, Keeps-raise, Keeps-halt, Keeps-check, Keeps-then_raise, Keeps-db_call,
}
use likecoin_op.Indexer.Model.{
  EventStatus, received, enqueued, processing, processed, failed, other, EvmEvent, Tables, Action,
  State,
}
use likecoin_op.Indexer.Db.{get_event, set_status, update_evm_event_status}
use likecoin_op.Indexer.Logs.{convert_evm_event_to_log}
use likecoin_op.Indexer.Process.{
  store_nil_failure, run_processor, process_event, process, handle_process_evm_event,
}
use likecoin_op.Indexer.Process.Outcome.{row, Separate}
use likecoin_op.Indexer.Repos.Kept.{DbFrame, Keeps-with_tx}
use likecoin_op.Indexer.Processors.{EventProcessorDeps, get_event_processor}
use likecoin_op.Indexer.Processors.Ledger.{Move, moved, owner_of}
use likecoin_op.Indexer.Processors.Moves.{ledger, SameLedger, Steps}
use likecoin_op.Indexer.Processors.Steps.{move_of}
use likecoin_op.Indexer.Processors.Served.{get_event-db, asked, handle-Steps}
use likecoin_op.Indexer.Processors.Separated.{get_event_processor-Separate}
use likecoin_op.Indexer.Processors.Replay.{
  Turn, image, find-image, replay, Picked, end, skip, take, Picked-map, replay-same,
}

module _ (d : EventProcessorDeps) where
  -- The move that the stored event of a task stands for.
  abbrev pub move_at : Tables → ℕ → Option Move
  move_at t id = image none (move_of d) (row id t)

  abbrev SameMoves : State → State → Type 0
  SameMoves w v = (i : ℕ) → move_at v.db i ≡ move_at w.db i

  same_moves : DbFrame SameMoves
  same_moves = record {
    frame = record { same = λ w i. refl; trans = λ u v w p q i. q i ∙ p i; tick = λ w i. refl };
    same_rows = λ w v events nfts i.
        ap (λ es. image none (move_of d) (find (λ (e : EvmEvent). e.id == i) es)) events;
  }

  get_event-SameMoves : (id : ℕ) → Keeps SameMoves (db_call d.fault (get_event id))
  get_event-SameMoves id = record {
    at = λ w i. ap (λ t. move_at t i) (get_event-db d.fault id w _ _ refl);
  }

  set_status-SameMoves :
      (id : ℕ) (status : EventStatus) (reason : Option Error)
      → Keeps SameMoves (db_call d.fault (set_status (λ (e : EvmEvent). e.id == id) status reason))
  unfolding set_status convert_evm_event_to_log
  set_status-SameMoves id status reason = Keeps-db_call same_moves.frame d.fault _ λ w i.
      find-image none (move_of d) (λ (e : EvmEvent). e.id == i) (λ (e : EvmEvent). e.id == id)
        (λ (e : EvmEvent). record e { status = status; failed_reason = reason }) w.db.events
        (λ e. refl) (λ e. refl)

  update-SameMoves :
      (id : ℕ) (status : EventStatus) (reason : Option Error)
      → Keeps SameMoves (update_evm_event_status d.fault id status reason)
  unfolding update_evm_event_status
  update-SameMoves id status reason = Keeps-with_tx same_moves d.fault _ (
      Keeps-check same_moves.frame _ _ _ (get_event-SameMoves id) (Keeps-raise same_moves.frame)
        (λ _.
          Keeps-check same_moves.frame _ _ _ (set_status-SameMoves id status reason)
            (Keeps-raise same_moves.frame) (λ _. get_event-SameMoves id)))

  process_event-SameMoves :
      (e : EvmEvent) → Keeps SameMoves (process_event d.fault (get_event_processor d) e)
  unfolding process_event Separate
  process_event-SameMoves e =
      Keeps-check same_moves.frame _ _ _ (update-SameMoves e.id processing none) store_nil λ taken.
        Keeps-check same_moves.frame _ _ _ (run taken (get_event_processor d taken.topic0) refl)
          (λ x. Keeps-then_raise same_moves.frame _ x (update-SameMoves taken.id failed (some x)))
          λ _.
            Keeps-check same_moves.frame _ _ _ (update-SameMoves taken.id processed none) store_nil
              (λ _. Keeps-pure same_moves.frame tt)
    where
      store_nil :
          (x : Error)
          → Keeps {A = Unit {0}} SameMoves (store_nil_failure d.fault (get_event_processor d) x)
      store_nil x =
          Keeps-then_raise same_moves.frame _ x
            (Keeps-with_tx same_moves d.fault _ (Keeps-halt same_moves.frame nil_dereference))

      run :
          (taken : EvmEvent) (o : Option (EvmEvent → Action (Unit {0})))
          → get_event_processor d taken.topic0 ≡ o
          → Keeps SameMoves (run_processor d.fault (get_event_processor d) o taken)
      run taken none h = Keeps-raise same_moves.frame unknown_event
      run taken (some p) h = record {
        at = λ w i.
            ap (λ es. image none (move_of d) (find (λ (e : EvmEvent). e.id == i) es))
              (get_event_processor-Separate d taken.topic0 p h taken w);
      }

  handle-SameMoves :
      (id : ℕ) → Keeps SameMoves (handle_process_evm_event d.fault (get_event_processor d) id)
  unfolding handle_process_evm_event process
  handle-SameMoves id =
      Keeps-check same_moves.frame _ _ _ (get_event-SameMoves id) (Keeps-raise same_moves.frame)
        λ e. by_status e.status e
    where
      by_status :
          (status : EventStatus) (e : EvmEvent)
          → Keeps SameMoves (process d.fault (get_event_processor d) status e)
      by_status received e = process_event-SameMoves e
      by_status enqueued e = process_event-SameMoves e
      by_status processing e = Keeps-raise same_moves.frame already_processing
      by_status processed e = Keeps-pure same_moves.frame tt
      by_status failed e = process_event-SameMoves e
      by_status other e = Keeps-raise same_moves.frame unknown_status

  abbrev pub has_returned : Result (Unit {0}) → Bool
  has_returned (ok a) = true
  has_returned (err x) = false
  has_returned (stop x) = false

  -- The event is still to be processed.
  abbrev pub is_fresh : EventStatus → Bool
  is_fresh processed = false
  is_fresh _ = true

  settle :
      (o : Option Move) (w v : State) (r : Result (Unit {0}))
      → Steps d.fold o w (r, v)
      → (SameLedger d.fold (ledger d.fold w) (ledger d.fold v) × (has_returned r ≡ true → o ≡ none))
        ⊎ ((m : Move) × (o ≡ some m)
            × SameLedger d.fold (moved d.fold m (ledger d.fold w)) (ledger d.fold v))
  settle none w v (ok a) h = inl (h, λ _. refl)
  settle none w v (err x) (inl h) = inl (h, λ _. refl)
  settle none w v (err x) (inr h) = inl (h, λ _. refl)
  settle none w v (stop x) (inl h) = inl (h, λ _. refl)
  settle none w v (stop x) (inr h) = inl (h, λ _. refl)
  settle (some m) w v (ok a) h = inr (m, refl, h)
  settle (some m) w v (err x) (inl h) = inl (h, λ e. cc)
  settle (some m) w v (err x) (inr h) = inr (m, refl, h)
  settle (some m) w v (stop x) (inl h) = inl (h, λ e. cc)
  settle (some m) w v (stop x) (inr h) = inr (m, refl, h)

  asked-some :
      (status : EventStatus) (o : Option Move) {m : Move}
      → asked d status o ≡ some m
      → (is_fresh status ≡ true) × (o ≡ some m)
  asked-some received o h = (refl, h)
  asked-some enqueued o h = (refl, h)
  asked-some processing o h = (refl, h)
  asked-some processed o h = cc
  asked-some failed o h = (refl, h)
  asked-some other o h = (refl, h)

  asked-none :
      (status : EventStatus) (o : Option Move)
      → is_fresh status ≡ true
      → asked d status o ≡ none
      → o ≡ none
  asked-none received o f h = h
  asked-none enqueued o f h = h
  asked-none processing o f h = h
  asked-none processed o f h = cc
  asked-none failed o f h = h
  asked-none other o f h = h

  handle-missing :
      (id : ℕ) (w : State)
      → row id w.db ≡ none
      → (handle_process_evm_event d.fault (get_event_processor d) id w).1.db ≡ w.db
  unfolding handle_process_evm_event get_event exec
  handle-missing id w h = ground arith

  -- The turn of a task in a world.
  abbrev pub turn : ℕ → State → Turn
  turn id w = record {
    id = id;
    fresh = image false (λ (e : EvmEvent). is_fresh e.status) (row id w.db);
    returned = has_returned (handle_process_evm_event d.fault (get_event_processor d) id w).0;
  }

  -- A task, by what it does to the ledger.
  handle-moves :
      (id : ℕ) (w : State)
      → (SameLedger d.fold
            (ledger d.fold w)
            (ledger d.fold (handle_process_evm_event d.fault (get_event_processor d) id w).1)
          × ((turn id w).fresh ≡ true → (turn id w).returned ≡ true → move_at w.db id ≡ none))
        ⊎ ((m : Move) × ((turn id w).fresh ≡ true)
            × (move_at w.db id ≡ some m)
            × SameLedger d.fold
                (moved d.fold m (ledger d.fold w))
                (ledger d.fold (handle_process_evm_event d.fault (get_event_processor d) id w).1))
  handle-moves id w =
      let s = handle_process_evm_event d.fault (get_event_processor d) id w in
      let fresh : Option EvmEvent → Bool = image false (λ (e : EvmEvent). is_fresh e.status) in
      elim (Option-cases (row id w.db)) [
        | inl missing ↦ inl (
          (λ c t.
              ap (λ (t' : Tables). owner_of d.fold t'.book.nfts c t) (handle-missing id w missing)),
          λ _ _. ap (image none (move_of d)) missing,
        )
        | inr (e, found) ↦
            elim (settle (asked d e.status (move_of d e)) w s.1 s.0
              (handle-Steps d id w {e = e} found)) [
                | inl (kept, done) ↦ inl (
                  kept,
                  λ f r.
                      ap (image none (move_of d)) found
                      ∙ asked-none e.status (move_of d e) (sym (ap fresh found) ∙ f) (done r),
                )
                | inr (m, asks, done) ↦
                    let (f, stands) = asked-some e.status (move_of d e) {m = m} asks in
                    inr (m, ap fresh found ∙ f, ap (image none (move_of d)) found ∙ stands, done)
              ]
      ]

  -- The worker's tasks, one after the other, whether they return or not, and their turns.
  unfoldable pub serve : List ℕ → State → State
  serve [] w = w
  serve (id ∷ ids) w = serve ids (handle_process_evm_event d.fault (get_event_processor d) id w).1

  unfoldable pub turns : List ℕ → State → List Turn
  turns [] w = []
  turns (id ∷ ids) w =
      turn id w ∷ turns ids (handle_process_evm_event d.fault (get_event_processor d) id w).1

  -- After any run of the worker's tasks, in whatever order, with repetitions, and however the database,
  -- the node and the resolver of metadata fail, the owners of all tokens are what a replay of transfers
  -- gives, in the order of the tasks: of each task that returns, the transfer of its event, where the
  -- event stands for one and was not processed before; of a task that ends otherwise, that or nothing.
  pub serve_refines :
      (ids : List ℕ) (w : State)
      → (ms : List Move) × Picked (move_at w.db) (turns ids w) ms
        × SameLedger d.fold (replay d.fold ms (ledger d.fold w)) (ledger d.fold (serve ids w))
  unfolding serve turns
  serve_refines [] w = ([], end, λ c t. refl)
  serve_refines (id ∷ ids) w =
      let v = (handle_process_evm_event d.fault (get_event_processor d) id w).1 in
      let (ms, picked, same) = serve_refines ids v in
      let early =
        Picked-map (move_at v.db) (move_at w.db) (turns ids v) ms ((handle-SameMoves id).at w)
          picked in
      elim (handle-moves id w) [
        | inl (kept, why) ↦ (
          ms,
          skip why early,
          λ c t. same c t ∙ replay-same d.fold ms (ledger d.fold w) (ledger d.fold v) kept c t,
        )
        | inr (m, fresh, asks, done) ↦ (
          m ∷ ms,
          take fresh asks early,
          λ c t.
              same c t
              ∙ replay-same d.fold ms (moved d.fold m (ledger d.fold w)) (ledger d.fold v) done c t,
        )
      ]
