-- ===== src/Indexer/Process/Outcome.antt =====
-- How processing an event may end. (likenft-indexer/internal/logic/evmeventprocessor/processor.go)
use likecoin_op.Base.{
  ℕ, ◌≡◌, refl, sym, ap, ◌∙◌, ◌⊎◌, inl, inr, ◌==◌, Bool, Option, none, some, List, [], ◌∷◌,
  Bool-cases, find, replace, arith, Text,
}
use mathlib.Core.Path.{subst}
use likecoin_op.Exec.{exec, Error, Result, ok, err, stop, Stop, nil_dereference, pure, check}
use likecoin_op.Exec.Steps.{check-result}
use likecoin_op.Indexer.Model.{
  EventStatus, processing, processed, failed, EvmEvent, Tables, Action, State,
}
use likecoin_op.Indexer.Db.{with_tx, get_event, set_status, update_evm_event_status}
use likecoin_op.Indexer.Db.Laws.{IsFailure, with_tx_atomic}
use likecoin_op.Indexer.Process.{store_failure, store_nil_failure, run_processor, process_event}

-- The row of an event.
abbrev pub row : ℕ → Tables → Option EvmEvent
row id t = find (λ (e : EvmEvent). e.id == id) t.events

-- The row of the event has the status and the reason.
abbrev pub Listed : ℕ → EventStatus → Option Error → List EvmEvent → Type 0
Listed id status reason es =
    (e : EvmEvent) × (find (λ (e : EvmEvent). e.id == id) es ≡ some e)
    × (e.status ≡ status)
    × (e.failed_reason ≡ reason)

abbrev pub Stands : ℕ → EventStatus → Option Error → Tables → Type 0
Stands id status reason t = Listed id status reason t.events

-- How processing the event may end.
abbrev pub Handled : ℕ → State → Result (Unit {0}) × State → Type 0
Handled id w (ok _, v) = Stands id processed none v.db
Handled id w (err x, v) =
    (v.db ≡ w.db) ⊎ (Stands id failed (some x) v.db ⊎ Stands id processing none v.db)
Handled id w (stop s, v) = (v.db ≡ w.db) ⊎ Stands id processing none v.db

find-set :
    (id : ℕ) (status : EventStatus) (reason : Option Error) (es : List EvmEvent) {e : EvmEvent}
    → find
        (λ (e : EvmEvent). e.id == id)
        (replace
          (λ (e : EvmEvent). e.id == id)
          (λ (e : EvmEvent). record e { status = status; failed_reason = reason })
          es)
      ≡ some e
    → (e.status ≡ status) × (e.failed_reason ≡ reason) × (e.id ≡ id)
find-set id status reason [] h = cc
find-set id status reason (f ∷ es) {e} h =
    let ih = find-set id status reason es {e = e} in
    (ground (arith, ih), ground (arith, ih), ground (arith, ih))

module _ (fault : ℕ → Bool) where
  update-Stands :
      (id : ℕ) (status : EventStatus) (reason : Option Error) (w v : State) {e : EvmEvent}
      → update_evm_event_status fault id status reason w ≡ (ok e, v)
      → (row id v.db ≡ some e) × (e.status ≡ status) × (e.failed_reason ≡ reason) × (e.id ≡ id)
  unfolding update_evm_event_status with_tx get_event set_status exec
  update-Stands id status reason w v {e} h =
      let set = find-set id status reason w.db.events {e = e} in
      (ground (arith, set), ground (arith, set), ground (arith, set), ground (arith, set))

  update-db :
      (id : ℕ) (status : EventStatus) (reason : Option Error) (w v : State) (r : Result EvmEvent)
      → update_evm_event_status fault id status reason w ≡ (r, v)
      → IsFailure r
      → v.db ≡ w.db
  unfolding update_evm_event_status
  update-db id status reason w v r h f = with_tx_atomic fault _ w v {r = r} h f

  module _ (processors : Text → Option (EvmEvent → Action (Unit {0}))) where
    -- Each registered processor leaves the table of events alone.
    unfoldable pub Separate : Type 0
    Separate =
        (name : Text) (process : EvmEvent → Action (Unit {0}))
        → processors name ≡ some process
        → (e : EvmEvent) (w : State) → (process e w).1.db.events ≡ w.db.events

    run-db :
        Separate
        → (name : Text) (e : EvmEvent) (w : State)
        → (run_processor fault processors (processors name) e w).1.db.events ≡ w.db.events
    unfolding exec Separate
    run-db separate name e w = go (processors name) refl
      where
        go :
            (o : Option (EvmEvent → Action (Unit {0})))
            → processors name ≡ o
            → (run_processor fault processors o e w).1.db.events ≡ w.db.events
        go none p = refl
        go (some process) p = separate name process p e w

    moved :
        Separate
        → (e : EvmEvent) (w v : State) (r : Result (Unit {0}))
        → run_processor fault processors (processors e.topic0) e w ≡ (r, v)
        → Stands e.id processing none w.db
        → Stands e.id processing none v.db
    moved separate e w v r p h =
        subst (λ es. Listed e.id processing none es)
          (sym (run-db separate e.topic0 e w)
            ∙ ap (λ (s : Result (Unit {0}) × State). s.1.db.events) p)
          h

    Handled-err :
        (id : ℕ) (x : Error) (w v : State) (r : Result (Unit {0}))
        → r ≡ err x
        → (v.db ≡ w.db) ⊎ (Stands id failed (some x) v.db ⊎ Stands id processing none v.db)
        → Handled id w (r, v)
    Handled-err id x w v r e h = subst (λ q. Handled id w (q, v)) (sym e) h

    Handled-stop :
        (id : ℕ) (s : Stop) (w v : State) (r : Result (Unit {0}))
        → r ≡ stop s
        → (v.db ≡ w.db) ⊎ Stands id processing none v.db
        → Handled id w (r, v)
    Handled-stop id s w v r e h = subst (λ q. Handled id w (q, v)) (sym e) h

    abbrev after_nil : Error → State → Result (Unit {0}) × State
    after_nil x u = store_nil_failure fault processors {A = Unit {0}} x u

    store_nil-db : (x : Error) (u : State) → (after_nil x u).1.db ≡ u.db
    unfolding with_tx exec
    store_nil-db x u = ground arith

    store_nil-result :
        (x : Error) (u : State)
        → ((after_nil x u).0 ≡ err x) ⊎ ((after_nil x u).0 ≡ stop nil_dereference)
    unfolding with_tx exec
    store_nil-result x u = elim (Bool-cases (fault u.tick)) [
      | inl f ↦ inl (ground arith)
      | inr f ↦ inr (ground arith)
    ]

    store_nil-cases :
        (id : ℕ) (x : Error) (w u : State)
        → (u.db ≡ w.db) ⊎ Stands id processing none u.db
        → Handled id w (after_nil x u)
    store_nil-cases id x w u h =
        let v = (after_nil x u).1 in
        let h' : (v.db ≡ w.db) ⊎ Stands id processing none v.db =
          subst (λ (t : Tables). (t ≡ w.db) ⊎ Stands id processing none t) (sym (store_nil-db x u))
            h in
        elim (store_nil-result x u) [
          | inl e ↦
              Handled-err id x w v _ e
                (elim h' [ inl same ↦ inl same | inr stands ↦ inr (inr stands) ])
          | inr e ↦ Handled-stop id nil_dereference w v _ e h'
        ]

    store_failure-eq :
        (e : EvmEvent) (x : Error) (u v : State) (r : Result EvmEvent)
        → update_evm_event_status fault e.id failed (some x) u ≡ (r, v)
        → store_failure fault processors e x u
          ≡ (elim r [ ok _ ↦ err x | err _ ↦ err x | stop s ↦ stop s ], v)
    unfolding exec
    store_failure-eq e x u v (ok a) h = ground (arith, h)
    store_failure-eq e x u v (err a) h = ground (arith, h)
    store_failure-eq e x u v (stop s) h = ground (arith, h)

    store_failure-cases :
        (e : EvmEvent) (x : Error) (w u : State)
        → Stands e.id processing none u.db
        → Handled e.id w (store_failure fault processors e x u)
    store_failure-cases e x w u h = go _ _ refl
      where
        go :
            (r : Result EvmEvent) (v : State)
            → update_evm_event_status fault e.id failed (some x) u ≡ (r, v)
            → Handled e.id w (store_failure fault processors e x u)
        go (ok a) v p =
            let (found, status, reason, _) = update-Stands e.id failed (some x) u v {e = a} p in
            subst (Handled e.id w) (sym (store_failure-eq e x u v (ok a) p))
              (inr (inl (a, found, status, reason)))
        go (err y) v p = subst (Handled e.id w) (sym (store_failure-eq e x u v (err y) p)) (
            inr (
              inr (
                subst (Stands e.id processing none)
                  (sym (update-db e.id failed (some x) u v (err y) p tt)) h)))
        go (stop s) v p = subst (Handled e.id w) (sym (store_failure-eq e x u v (stop s) p)) (
            inr (
              subst (Stands e.id processing none)
                (sym (update-db e.id failed (some x) u v (stop s) p tt)) h))

    -- The last update of a processed event.
    finish-Handled :
        (e : EvmEvent) (w u : State)
        → Stands e.id processing none u.db
        → Handled e.id w (
            check
              (update_evm_event_status fault e.id processed none)
              (store_nil_failure fault processors)
              (λ _. pure tt)
              u)
    unfolding pure
    finish-Handled e w u h =
        check-result (Handled e.id w) _ _ _ u
          (λ a v p.
            let (found, status, reason, _) = update-Stands e.id processed none u v {e = a} p in
            (a, found, status, reason))
          (λ x v p. store_nil-cases e.id x w v (
            inr (
              subst (Stands e.id processing none)
                (sym (update-db e.id processed none u v (err x) p tt)) h)))
          (λ s v p. inr (
            subst (Stands e.id processing none)
              (sym (update-db e.id processed none u v (stop s) p tt)) h))

    -- How processing ends, whatever the database and the processors do. A call that returns leaves the
    -- event as processed, without a reason. One that ends with an error leaves it failed with that
    -- error, or processing, or changes nothing; one that panics leaves it processing or changes nothing.
    pub process-Handled :
        Separate → (e : EvmEvent) (w : State) → Handled e.id w (process_event fault processors e w)
    unfolding process_event
    process-Handled separate e w =
        check-result (Handled e.id w) _ _ _ w
          (λ taken v p.
            let (found, status, reason, same) =
              update-Stands e.id processing none w v {e = taken} p in
            let stands : Stands taken.id processing none v.db =
              (taken, subst (λ id. row id v.db ≡ some taken) (sym same) found, status, reason) in
            subst
              (λ id. Handled id w (
                check (run_processor fault processors (processors taken.topic0) taken)
                  (store_failure fault processors taken)
                  (λ _.
                    check (update_evm_event_status fault taken.id processed none)
                      (store_nil_failure fault processors) (λ _. pure tt))
                  v))
              same
              (check-result (Handled taken.id w) _ _ _ v
                (λ a u q. finish-Handled taken w u (moved separate taken v u (ok a) q stands))
                (λ x u q.
                  store_failure-cases taken x w u (moved separate taken v u (err x) q stands))
                (λ s u q. inr (moved separate taken v u (stop s) q stands))))
          (λ x v p.
            store_nil-cases e.id x w v (inl (update-db e.id processing none w v (err x) p tt)))
          (λ s v p. inl (update-db e.id processing none w v (stop s) p tt))
