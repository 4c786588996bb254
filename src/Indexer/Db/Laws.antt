-- ===== src/Indexer/Db/Laws.antt =====
-- What the repositories of events and heights promise. (likenft-indexer/internal/database)
use likecoin_op.Base.{
  ℕ, suc, ◌≡◌, inl, inr, Bool, none, some, List, [], ◌∷◌, map, keep, length, arith, Option-cases,
  refl, not, true, contains, All, Text,
}
use likecoin_op.Exec.{exec, Result, ok, err, stop, bump}
use likecoin_op.Indexer.Model.{EvmEvent, Tables, Action, State}
use likecoin_op.Indexer.Db.{
  with_tx, has_hash, hash_of, query_by_hashes, insert_rows, create_bulk, is_new,
  insert_evm_events_if_needed,
}

-- The call did not return a value.
abbrev pub IsFailure : {A : Type 0} → Result A → Type 0
IsFailure (ok a) = ⊥
IsFailure (err e) = Unit
IsFailure (stop s) = Unit

module _ (fault : ℕ → Bool) where
  module _ {A : Type 0} where
    -- Whatever a transaction's body does, an error or a panic leaves the tables as they were before it,
    -- also where the commit or the rollback itself fails.
    pub with_tx_atomic :
        (body : Action A) (w v : State) {r : Result A}
        → with_tx fault body w ≡ (r, v)
        → IsFailure r
        → v.db ≡ w.db
    unfolding with_tx exec
    with_tx_atomic body w v {r = ok a} h f = absurd f
    with_tx_atomic body w v {r = err e} h f = ground arith
    with_tx_atomic body w v {r = stop s} h f = ground arith

    -- A transaction that returns has kept what its body has written.
    pub with_tx-eq-ok :
        (body : Action A) (w v : State) {a : A}
        → with_tx fault body w ≡ (ok a, v)
        → ((body (bump w)).0 ≡ ok a)
          × (v.db ≡ (body (bump w)).1.db)
          × (v.net ≡ (body (bump w)).1.net)
    unfolding with_tx exec
    with_tx-eq-ok body w v {a} h = ground arith

-- The rows that an insertion adds, the last one first.
abbrev pub numbered : ℕ → List EvmEvent → List EvmEvent → List EvmEvent
numbered next [] old = old
numbered next (e ∷ es) old =
    numbered (suc next) es (record e { id = next; failed_reason = none } ∷ old)

insert_rows-eq :
    (es : List EvmEvent) (t u : Tables)
    → insert_rows es t ≡ some u
    → (u.events ≡ numbered t.next_event es t.events) × (u.heights ≡ t.heights)
unfolding insert_rows
insert_rows-eq [] t u h = ground arith
insert_rows-eq (e ∷ es) t u h =
    let t' : Tables = record t {
      events = record e { id = t.next_event; failed_reason = none } ∷ t.events;
      next_event = suc t.next_event;
    } in
    let ih = insert_rows-eq es t' u in ground (arith, ih)

-- Some row belongs to the transaction of the event.
abbrev pub has_row : Tables → EvmEvent → Bool
has_row t e = contains (map hash_of t.events) e.transaction_hash

-- The events whose transaction hash no row has.
abbrev pub fresh : List EvmEvent → Tables → List EvmEvent
fresh es t = keep (λ (e : EvmEvent). not (has_row t e)) es

contains-keep :
    (hs : List Text) (h : Text) (rows : List EvmEvent)
    → contains hs h ≡ true
    → contains (map hash_of (keep (has_hash hs) rows)) h ≡ contains (map hash_of rows) h
contains-keep hs h [] c = refl
contains-keep hs h (r ∷ rows) c = ground (arith, contains-keep hs h rows c)

hashes_within :
    (es : List EvmEvent) (hs : List Text)
    → ((h : Text) → contains (map hash_of es) h ≡ true → contains hs h ≡ true)
    → All (λ (e : EvmEvent). contains hs e.transaction_hash ≡ true) es
hashes_within [] hs sub = tt
hashes_within (e ∷ es) hs sub =
    (sub e.transaction_hash (ground arith), hashes_within es hs (λ h c. sub h (ground (arith, c))))

new-fresh :
    (hs : List Text) (t : Tables) (es : List EvmEvent)
    → All (λ (e : EvmEvent). contains hs e.transaction_hash ≡ true) es
    → keep (is_new (keep (has_hash hs) t.events)) es ≡ fresh es t
unfolding is_new
new-fresh hs t [] within = refl
new-fresh hs t (e ∷ es) within =
    ground
      (arith, new-fresh hs t es within.1, contains-keep hs e.transaction_hash t.events within.0)

module _ (fault : ℕ → Bool) where
  -- What a call that returns has done: the events whose transaction hash no row had were added, in
  -- order and under new ids, and all the rows of these transactions are returned, which are as many as
  -- the events of the call. The heights are as they were.
  pub insert_adds :
      (es : List EvmEvent) (w v : State) {rows : List EvmEvent}
      → insert_evm_events_if_needed fault es w ≡ (ok rows, v)
      → (v.db.events ≡ numbered w.db.next_event (fresh es w.db) w.db.events)
        × (rows ≡ keep (has_hash (map hash_of es)) v.db.events)
        × (length rows ≡ length es)
        × (v.db.heights ≡ w.db.heights)
        × (v.net ≡ w.net)
  unfolding insert_evm_events_if_needed with_tx query_by_hashes create_bulk exec
  insert_adds es w v {rows} h =
      let own = hashes_within es (map hash_of es) (λ h c. c) in
      let new = keep (is_new (keep (has_hash (map hash_of es)) w.db.events)) es in
      let all_fresh : new ≡ fresh es w.db = new-fresh (map hash_of es) w.db es own in
      elim (Option-cases (insert_rows new w.db)) [
        | inl e ↦ absurd (ground (arith, e))
        | inr (u, e) ↦
            let added = insert_rows-eq new w.db u e in
            (
              ground (arith, added, all_fresh),
              ground arith,
              ground arith,
              ground (arith, added),
              ground arith,
            )
      ]
