-- ===== src/Indexer/Process/Enqueued.antt =====
-- The queue of tasks: an event is enqueued only after its task. (likenft-indexer/cmd/worker/task)
use likecoin_op.Base.{
  ℕ, ◌≡◌, ap, ◌∙◌, ◌⊎◌, inl, inr, ◌==◌, suc, Option-cases, Bool-cases, Bool, true, false, Option,
  none, some, List, [], ◌∷◌, find, replace, contains, All, arith,
}
use mathlib.Core.Path.{subst}
use likecoin_op.Exec.{exec, check, raise, db_call, pure, bump, Result, ok}
use likecoin_op.Exec.Steps.{check-eq-ok}
use likecoin_op.Indexer.Model.{enqueued, EvmEvent, Queue, State}
use likecoin_op.Indexer.Db.{query_by_status, set_status, batch_update_status}
use likecoin_op.Indexer.Process.{is_received, enqueue, enqueue_all, check_received_evm_events}
use likecoin_op.Indexer.Process.Outcome.{row}

-- Every id stands in the queue.
abbrev pub AllQueued : List ℕ → Queue → Type 0
AllQueued ids queue = All (λ (id : ℕ). contains queue id ≡ true) ids

AllQueued-cons : (k : ℕ) (ids : List ℕ) (q : Queue) → AllQueued ids q → AllQueued ids (k ∷ q)
AllQueued-cons k [] q h = tt
AllQueued-cons k (id ∷ ids) q h = (ground (arith, h.0), AllQueued-cons k ids q h.1)

contains-AllQueued :
    (ids : List ℕ) (q : Queue) (id : ℕ)
    → AllQueued ids q
    → contains ids id ≡ true
    → contains q id ≡ true
contains-AllQueued [] q id h c = cc
contains-AllQueued (k ∷ ids) q id h c = ground (arith, contains-AllQueued ids q id h.1)

find-batch :
    (id : ℕ) (ids : List ℕ) (es : List EvmEvent) {e : EvmEvent}
    → contains ids id ≡ false
    → find
        (λ (e : EvmEvent). e.id == id)
        (replace
          (λ (e : EvmEvent). contains ids e.id)
          (λ (e : EvmEvent). record e { status = enqueued; failed_reason = none })
          es)
      ≡ some e
    → find (λ (e : EvmEvent). e.id == id) es ≡ some e
find-batch id ids [] c h = h
find-batch id ids (f ∷ es) {e} c h = elim (Bool-cases (f.id == id)) [
  | inl y ↦
      let same : f.id ≡ id = ground (arith, y) in
      let out : contains ids f.id ≡ false = ap (contains ids) same ∙ c in ground (arith, out)
  | inr n ↦ ground (arith, find-batch id ids es {e = e} c)
]

module _ (fault : ℕ → Bool) (answer : ℕ → Option (Unit {0})) where
  enqueue_all-queued :
      (es : List EvmEvent) (w v : State) {ids : List ℕ}
      → enqueue_all fault answer es w ≡ (ok ids, v)
      → ((k : ℕ) → contains w.net k ≡ true → contains v.net k ≡ true)
        × AllQueued ids v.net
        × (v.db ≡ w.db)
  unfolding enqueue_all enqueue exec
  enqueue_all-queued [] w v {ids} h =
      let is_ids : [] ≡ ids = cc in
      (λ k c. ground arith, subst (λ ks. AllQueued ks v.net) is_ids tt, ground arith)
  enqueue_all-queued (e ∷ es) w v {ids} h = elim (Option-cases (answer w.tick)) [
    | inl refused ↦ enqueue_all-queued es (bump w) v {ids = ids} (ground (arith, refused, h))
    | inr (_, taken) ↦
        let w1 : State = record w { tick = suc w.tick; net = e.id ∷ w.net } in
        let (others, w2, p, q) =
          check-eq-ok (enqueue_all fault answer es) (λ others. pure (e.id ∷ others)) w1 v {b = ids}
            (ground (arith, taken, h)) in
        let (more, queued, same) = enqueue_all-queued es w1 w2 {ids = others} p in
        let at : w2 ≡ v = ap (λ (s : Result (List ℕ) × State). s.1) q in
        let is_ids : e.id ∷ others ≡ ids = ground (arith, q) in
        (
          λ k c. subst (λ (u : State). contains u.net k ≡ true) at (more k (ground (arith, c))),
          subst (λ (u : State). AllQueued ids u.net) at
              (subst (λ ks. AllQueued ks w2.net) is_ids (more e.id (ground arith), queued)),
          subst (λ (u : State). u.db ≡ w.db) at same,
        )
  ]

  batch-row :
      (ids : List ℕ) (w v : State) (id : ℕ) {e : EvmEvent}
      → contains ids id ≡ false
      → batch_update_status fault ids enqueued w ≡ (ok tt, v)
      → row id v.db ≡ some e
      → (row id w.db ≡ some e) × (v.net ≡ w.net)
  unfolding batch_update_status set_status exec
  batch-row ids w v id {e} c h r =
      (ground (arith, find-batch id ids w.db.events {e = e} c), ground arith)

  batch-net :
      (ids : List ℕ) (w v : State)
      → batch_update_status fault ids enqueued w ≡ (ok tt, v)
      → v.net ≡ w.net
  unfolding batch_update_status set_status exec
  batch-net ids w v h = ground arith

  query-db :
      (w v : State) {es : List EvmEvent}
      → db_call fault (query_by_status is_received) w ≡ (ok es, v)
      → v.db ≡ w.db
  unfolding query_by_status exec
  query-db w v h = ground arith

  -- After a check that returns, an event whose task is not in the queue has the row that it had before:
  -- the tasks come first, and an event whose task the queue has refused is not marked.
  pub enqueued_has_task :
      (w v : State) (id : ℕ) {e : EvmEvent}
      → check_received_evm_events fault answer w ≡ (ok tt, v)
      → row id v.db ≡ some e
      → (contains v.net id ≡ true) ⊎ (row id w.db ≡ some e)
  unfolding check_received_evm_events exec
  enqueued_has_task w v id {e} h r =
      let (es, w1, p1, q1) =
        check-eq-ok (db_call fault (query_by_status is_received))
          (λ es.
            check (enqueue_all fault answer es) raise λ ids. batch_update_status fault ids enqueued)
          w v {b = tt} h in
      let (ids, w2, p2, q2) =
        check-eq-ok (enqueue_all fault answer es) (λ ids. batch_update_status fault ids enqueued) w1
          v {b = tt} q1 in
      let (_, queued, same) = enqueue_all-queued es w1 w2 {ids = ids} p2 in
      elim (Bool-cases (contains ids id)) [
        | inl inside ↦
            inl (rw (batch-net ids w2 v q2) (contains-AllQueued ids w2.net id queued inside))
        | inr beyond ↦ inr (
            subst (λ t. row id t ≡ some e) (same ∙ query-db w w1 {es = es} p1)
              (batch-row ids w2 v id {e = e} beyond q2 r).0)
      ]
