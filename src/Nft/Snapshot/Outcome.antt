-- ===== src/Nft/Snapshot/Outcome.antt =====
-- How taking a snapshot may end. (migration-backend/pkg/logic/likenft/snapshot_cosmos_state.go)
use likecoin_op.Base.{
  ℕ, ◌≡◌, refl, sym, ap, ◌∙◌, ◌⊎◌, inl, inr, ◌==◌, Bool, true, Option, some, List, [], ◌∷◌, find,
  any, find-holds, find-replace, Bool-cases, arith, eq_of_test, Text,
}
use mathlib.Core.Path.{subst}
use likecoin_op.Exec.{exec, Error, Stop, Result, ok, err, stop, raise, check, db_call, bump}
use likecoin_op.Exec.Steps.{check-eq-ok, db_call-eq-ok, db_call-result}
use likecoin_op.Nft.Snapshot.{
  CosmosClass, CosmosNft, Env, class_rows, nft_rows, with_db_tx, with_db_tx_outside,
  snapshot_failed,
}
use likecoin_op.Nft.Snapshot.Model.{
  SnapshotStatus, LikeNftAssetSnapshot, Tables, Action, State, query_snapshot, same_block,
  update_snapshot, insert_unique,
}

pub eq_refl : (a : ℕ) → (a == a) ≡ true
eq_refl a = ground arith

-- The row of a snapshot.
abbrev pub row : ℕ → Tables → Option LikeNftAssetSnapshot
row id t = find (λ (s : LikeNftAssetSnapshot). s.id == id) t.snapshots

abbrev pub latest : Text → Tables → Option LikeNftAssetSnapshot
latest address t = find (λ (s : LikeNftAssetSnapshot). s.cosmos_address == address) t.snapshots

-- The rows on top of the others, the last one first.
abbrev pub stack : {A : Type 0} → List A → List A → List A
stack [] old = old
stack (x ∷ xs) old = stack xs (x ∷ old)

-- No class and no token of a snapshot is written.
abbrev pub SameContents : State → State → Type 0
SameContents w v = (v.db.classes ≡ w.db.classes) × (v.db.nfts ≡ w.db.nfts)

-- The row stands as failed, with a reason, and nothing else is written.
abbrev pub Failed : ℕ → State → State → Type 0
Failed id w v =
    SameContents w v
    × (x : LikeNftAssetSnapshot) × (row id v.db ≡ some x)
    × (x.status ≡ SnapshotStatus.failed)
    × (reason : Error) × (x.failed_reason ≡ some reason)

-- The row stands as completed, with the rows of what the node has answered.
abbrev pub Complete : Env → Text → ℕ → State → State → Type 0
Complete env address id w v =
    (t u : ℕ) × (cs : List CosmosClass) × (ns : List CosmosNft) × (env.classes_by_owner address t
      ≡ some cs)
    × (env.nfts_by_owner address u ≡ some ns)
    × (v.db.classes ≡ stack (class_rows id cs) w.db.classes)
    × (v.db.nfts ≡ stack (nft_rows id ns) w.db.nfts)
    × (x : LikeNftAssetSnapshot) × (row id v.db ≡ some x)
    × (x.status ≡ SnapshotStatus.completed)

-- How taking the snapshot of the row may end.
abbrev pub Taken : Env → Text → ℕ → State → Result (Unit {0}) × State → Type 0
Taken env address id w (ok _, v) = Failed id w v ⊎ Complete env address id w v
Taken env address id w (err _, v) = SameContents w v
Taken env address id w (stop _, v) = SameContents w v

pub insert_unique-stack :
    {A : Type 0} (same : A → A → Bool) (xs old : List A) {new : List A}
    → insert_unique same xs old ≡ some new
    → new ≡ stack xs old
unfolding insert_unique
insert_unique-stack same [] old h = ground arith
insert_unique-stack same (x ∷ xs) old {new} h = elim (Bool-cases (any (same x) old)) [
  | inl taken ↦ ground (arith, taken, h)
  | inr free ↦ insert_unique-stack same xs (x ∷ old) {new = new} (ground (arith, free, h))
]

-- An update that returns has replaced the rows with the id.
update-row :
    (s : LikeNftAssetSnapshot) (t : Tables) {a : LikeNftAssetSnapshot}
    → row s.id t ≡ some a
    → (update_snapshot s t).0 ≡ ok tt
    → row s.id (update_snapshot s t).1 ≡ some s
unfolding update_snapshot
update-row s t {a} found h =
    let replaced =
      find-replace (λ (x : LikeNftAssetSnapshot). x.id == s.id)
        (λ (x : LikeNftAssetSnapshot). x.id == s.id) t.snapshots {a = a} s found
        (find-holds (λ (x : LikeNftAssetSnapshot). x.id == s.id) t.snapshots {a = a} found)
        (eq_refl s.id) in
    elim (Bool-cases (any (same_block s) t.snapshots)) [
      | inl taken ↦ absurd (ground (arith, taken, h))
      | inr free ↦ rw free replaced
    ]

update-contents :
    (s : LikeNftAssetSnapshot) (t : Tables)
    → ((update_snapshot s t).1.classes ≡ t.classes) × ((update_snapshot s t).1.nfts ≡ t.nfts)
unfolding update_snapshot
update-contents s t = (ground arith, ground arith)

module _ (env : Env) where
  pub with_db_tx-eq-ok :
      (body : Action (Unit {0})) (w v : State)
      → with_db_tx env body w ≡ (ok tt, v)
      → ((body (bump w)).0 ≡ ok tt) × (v.db ≡ (body (bump w)).1.db)
  unfolding with_db_tx exec
  with_db_tx-eq-ok body w v h = (ground arith, ground arith)

  -- A transaction that ends otherwise leaves the tables as they were.
  pub with_db_tx-err :
      (body : Action (Unit {0})) (w v : State) (x : Error)
      → with_db_tx env body w ≡ (err x, v)
      → v.db ≡ w.db
  unfolding with_db_tx exec
  with_db_tx-err body w v x h = ground arith

  pub with_db_tx-stop :
      (body : Action (Unit {0})) (w v : State) (x : Stop)
      → with_db_tx env body w ≡ (stop x, v)
      → v.db ≡ w.db
  unfolding with_db_tx exec
  with_db_tx-stop body w v x h = ground arith

  pub update-called :
      (s : LikeNftAssetSnapshot) (w v : State) {r : Result (Unit {0})}
      → db_call env.fault (update_snapshot s) w ≡ (r, v)
      → SameContents w v
  unfolding exec
  update-called s w v h =
      let (cs, ns) = update-contents s w.db in
      (ground (arith, cs, ns, h), ground (arith, cs, ns, h))

  failed-contents :
      (id : ℕ) (reason : Error) (w : State) → SameContents w (snapshot_failed env id reason w).1
  unfolding snapshot_failed with_db_tx_outside query_snapshot update_snapshot exec
  failed-contents id reason w = (ground arith, ground arith)

  outside_tx-eq-ok :
      (body : Action (Unit {0})) (w v : State)
      → with_db_tx_outside env body w ≡ (ok tt, v)
      → ((body (bump w)).0 ≡ ok tt) × (v.db ≡ (body (bump w)).1.db)
  unfolding with_db_tx_outside exec
  outside_tx-eq-ok body w v h = (ground arith, ground arith)

  asked-for :
      (id : ℕ) (w u : State) {s : LikeNftAssetSnapshot}
      → db_call env.fault (query_snapshot id) w ≡ (ok s, u)
      → (row id w.db ≡ some s) × (u.db ≡ w.db)
  unfolding query_snapshot exec
  asked-for id w u h = (ground arith, ground arith)

  pub updated-by :
      (s : LikeNftAssetSnapshot) (w v : State) {a : LikeNftAssetSnapshot}
      → row s.id w.db ≡ some a
      → db_call env.fault (update_snapshot s) w ≡ (ok tt, v)
      → row s.id v.db ≡ some s
  updated-by s w v {a} found h =
      let done = db_call-result env.fault (update_snapshot s) w v {a = tt} h in
      let world = db_call-eq-ok env.fault (update_snapshot s) w v {a = tt} h in
      subst (λ (x : State). row s.id x.db ≡ some s) (sym world)
        (update-row s w.db {a = a} found done)

  failed-row :
      (id : ℕ) (reason : Error) (w v : State)
      → snapshot_failed env id reason w ≡ (ok tt, v)
      → (x : LikeNftAssetSnapshot) × (row id v.db ≡ some x)
        × (x.status ≡ SnapshotStatus.failed)
        × (x.failed_reason ≡ some reason)
  unfolding snapshot_failed
  failed-row id reason w v h =
      let change : LikeNftAssetSnapshot → LikeNftAssetSnapshot =
        λ s. record s { failed_reason = some reason; status = SnapshotStatus.failed } in
      let update = λ (s : LikeNftAssetSnapshot). db_call env.fault (update_snapshot (change s)) in
      let (done, db) = outside_tx-eq-ok _ w v h in
      let (s, u, got, put) =
        check-eq-ok (db_call env.fault (query_snapshot id)) update (bump w) _ {b = tt} (
          ap (λ r. (r, (check (db_call env.fault (query_snapshot id)) raise update (bump w)).1))
            done) in
      let (found, same) = asked-for id (bump w) u {s = s} got in
      let same_id : s.id ≡ id =
        eq_of_test _ _
          (find-holds (λ (x : LikeNftAssetSnapshot). x.id == id) w.db.snapshots {a = s} found) in
      let found_here : row s.id u.db ≡ some s =
        subst (λ t. row s.id t ≡ some s) (sym same)
          (subst (λ i. row i w.db ≡ some s) (sym same_id) found) in
      let stored : row s.id v.db ≡ some (change s) =
        subst (λ t. row s.id t ≡ some (change s)) (sym db)
          (updated-by (change s) u _ {a = s} found_here put) in
      (change s, subst (λ i. row i v.db ≡ some (change s)) same_id stored, refl, refl)

  module _ (address : Text) (id : ℕ) where
    pub failed-Taken :
        (w u : State) (reason : Error)
        → SameContents w u
        → Taken env address id w (snapshot_failed env id reason u)
    failed-Taken w u reason (cs, ns) =
        go (snapshot_failed env id reason u).0 (snapshot_failed env id reason u).1 refl
      where
        go :
            (r : Result (Unit {0})) (v : State)
            → snapshot_failed env id reason u ≡ (r, v)
            → Taken env address id w (r, v)
        go r v e =
            let (kept_cs, kept_ns) = failed-contents id reason u in
            let same : SameContents w v =
              subst (λ (x : State). SameContents w x)
                (ap (λ (s : Result (Unit {0}) × State). s.1) e) (kept_cs ∙ cs, kept_ns ∙ ns) in
            ends r v e same
          where
            ends :
                (r : Result (Unit {0})) (v : State)
                → snapshot_failed env id reason u ≡ (r, v)
                → SameContents w v
                → Taken env address id w (r, v)
            ends (ok a) v e same =
                let (x, found, status, why) = failed-row id reason u v e in
                inl (same, x, found, status, reason, why)
            ends (err x) v e same = same
            ends (stop x) v e same = same
