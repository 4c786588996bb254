-- ===== src/Indexer/Db/Events.antt =====
-- Which events an insertion stores: those of transactions that had no row, and no others.
-- (likenft-indexer/internal/database/evmevent.go)
use likecoin_op.Base.{ℕ, suc, ◌≡◌, refl, Bool, true, false, none, List, [], ◌∷◌, any, All, arith}
use likecoin_op.Exec.{ok}
use likecoin_op.Indexer.Model.{EvmEvent, Tables, State}
use likecoin_op.Indexer.Db.{same_log, insert_evm_events_if_needed}
use likecoin_op.Indexer.Db.Laws.{numbered, has_row, fresh, insert_adds}

module _ (t : Tables) where
  fresh-known :
      (es : List EvmEvent) → All (λ (e : EvmEvent). has_row t e ≡ true) es → fresh es t ≡ []
  fresh-known [] known = refl
  fresh-known (e ∷ es) known = ground (arith, fresh-known es known.1)

  fresh-unknown :
      (es : List EvmEvent) → All (λ (e : EvmEvent). has_row t e ≡ false) es → fresh es t ≡ es
  fresh-unknown [] known = refl
  fresh-unknown (e ∷ es) known = ground (arith, fresh-unknown es known.1)

numbered-any :
    (e : EvmEvent) (next : ℕ) (es old : List EvmEvent)
    → any (same_log e) old ≡ true
    → any (same_log e) (numbered next es old) ≡ true
numbered-any e next [] old h = h
numbered-any e next (f ∷ es) old h =
    numbered-any e (suc next) es (record f { id = next; failed_reason = none } ∷ old)
      (ground (arith, h))

numbered-All :
    (next : ℕ) (es old : List EvmEvent)
    → All (λ (e : EvmEvent). any (same_log e) (numbered next es old) ≡ true) es
numbered-All next [] old = tt
numbered-All next (e ∷ es) old = (
  numbered-any e (suc next) es (record e { id = next; failed_reason = none } ∷ old) (ground arith),
  numbered-All (suc next) es (record e { id = next; failed_reason = none } ∷ old),
)

module _ (fault : ℕ → Bool) where
  -- Where no transaction of the events has a row, a call that returns has stored every one of them.
  pub insert_stores :
      (es : List EvmEvent) (w v : State) {rows : List EvmEvent}
      → All (λ (e : EvmEvent). has_row w.db e ≡ false) es
      → insert_evm_events_if_needed fault es w ≡ (ok rows, v)
      → All (λ (e : EvmEvent). any (same_log e) v.db.events ≡ true) es
  insert_stores es w v {rows} unknown h =
      let all_fresh : fresh es w.db ≡ es = fresh-unknown w.db es unknown in
      let added = (insert_adds fault es w v {rows = rows} h).0 in
      rw (added, all_fresh) (numbered-All w.db.next_event es w.db.events)

  -- Where each transaction of the events has a row already, which may be one of another event of the
  -- transaction, a call that returns has stored none of them.
  pub insert_skips :
      (es : List EvmEvent) (w v : State) {rows : List EvmEvent}
      → All (λ (e : EvmEvent). has_row w.db e ≡ true) es
      → insert_evm_events_if_needed fault es w ≡ (ok rows, v)
      → v.db.events ≡ w.db.events
  insert_skips es w v {rows} known h =
      let none_fresh : fresh es w.db ≡ [] = fresh-known w.db es known in
      let added = (insert_adds fault es w v {rows = rows} h).0 in rw (added, none_fresh) refl
