-- ===== src/Nft/Snapshot/Executed.antt =====
-- A whole run of the snapshot. (migration-backend/pkg/logic/likenft/snapshot_cosmos_state.go)
use likecoin_op.Base.{◌≡◌, refl, ap, ◌∙◌, ◌⊎◌, ◌==◌, some, find-finds, arith, Text}
use mathlib.Core.Path.{subst}
use likecoin_op.Exec.{exec, Result, ok, err, stop, raise, db_call}
use likecoin_op.Exec.Steps.{check-result}
use likecoin_op.Nft.Snapshot.{Env, take_snapshot, execute_by, execute}
use likecoin_op.Nft.Snapshot.Model.{
  SnapshotStatus, LikeNftAssetSnapshot, Tables, State, query_latest_snapshot,
}
use likecoin_op.Nft.Snapshot.Outcome.{eq_refl, latest, SameContents, Failed, Complete, Taken}
use likecoin_op.Nft.Snapshot.Taken.{take-Taken}

-- How a run for an address may end.
abbrev pub Executed : Env → Text → State → Result (Unit {0}) × State → Type 0
Executed env address w (ok _, v) =
    (s : LikeNftAssetSnapshot) × (latest address w.db ≡ some s)
    × (s.status ≡ SnapshotStatus.init)
    × (Failed s.id w v ⊎ Complete env address s.id w v)
Executed env address w (err _, v) = SameContents w v
Executed env address w (stop _, v) = SameContents w v

module _ (env : Env) (address : Text) where
  begun :
      (s : LikeNftAssetSnapshot) (w : State) (r : Result (Unit {0})) (v : State)
      → latest address w.db ≡ some s
      → s.status ≡ SnapshotStatus.init
      → Taken env address s.id w (r, v)
      → Executed env address w (r, v)
  begun s w (ok a) v found status h = (s, found, status, h)
  begun s w (err x) v found status h = h
  begun s w (stop x) v found status h = h

  by_status :
      (status : SnapshotStatus) (s : LikeNftAssetSnapshot) (w : State)
      → s.status ≡ status
      → latest address w.db ≡ some s
      → Executed env address w (execute_by env status address s w)
  unfolding execute_by exec
  by_status SnapshotStatus.init s w e found =
      let (a, here) =
        find-finds (λ (x : LikeNftAssetSnapshot). x.cosmos_address == address)
          (λ (x : LikeNftAssetSnapshot). x.id == s.id) w.db.snapshots {a = s} found
          (eq_refl s.id) in
      begun s w (take_snapshot env address s w).0 (take_snapshot env address s w).1 found e
        (take-Taken env address s w {a = a} here)
  by_status SnapshotStatus.in_progress s w e found = (refl, refl)
  by_status SnapshotStatus.completed s w e found = (refl, refl)
  by_status SnapshotStatus.failed s w e found = (refl, refl)
  by_status SnapshotStatus.other s w e found = (refl, refl)

  asked-latest :
      (w u : State) (r : Result LikeNftAssetSnapshot)
      → db_call env.fault (query_latest_snapshot address) w ≡ (r, u)
      → u.db ≡ w.db
  unfolding query_latest_snapshot exec
  asked-latest w u r h = ground arith

  found-latest :
      (w u : State) (s : LikeNftAssetSnapshot)
      → db_call env.fault (query_latest_snapshot address) w ≡ (ok s, u)
      → latest address w.db ≡ some s
  unfolding query_latest_snapshot exec
  found-latest w u s h = ground arith

  moved_on :
      (w u : State) (r : Result (Unit {0})) (v : State)
      → u.db ≡ w.db
      → Executed env address u (r, v)
      → Executed env address w (r, v)
  moved_on w u (ok a) v db h =
      subst (λ (t : Tables). Executed env address (record u { db = t }) (ok a, v)) db h
  moved_on w u (err x) v db h =
      subst (λ (t : Tables). Executed env address (record u { db = t }) (err x, v)) db h
  moved_on w u (stop x) v db h =
      subst (λ (t : Tables). Executed env address (record u { db = t }) (stop x, v)) db h

  -- A run that returns has found the latest snapshot of the address open. Either the snapshot is complete,
  -- with one row for each class and each token that the node has answered and nothing else, or it stands
  -- as failed with a reason and no class and no token is written. A run that ends otherwise writes none
  -- either, whatever fails.
  pub execute-Executed : (w : State) → Executed env address w (execute env address w)
  unfolding execute exec
  execute-Executed w =
      check-result (Executed env address w) (db_call env.fault (query_latest_snapshot address))
        raise (λ s. execute_by env s.status address s) w
        (λ s u p.
          let db = asked-latest w u (ok s) p in
          let run = execute_by env s.status address s u in
          moved_on w u run.0 run.1 db
            (by_status s.status s u refl (ap (latest address) db ∙ found-latest w u s p)))
        (λ x u p.
          let db = asked-latest w u (err x) p in
          (ap (λ (t : Tables). t.classes) db, ap (λ (t : Tables). t.nfts) db))
        (λ x u p.
          let db = asked-latest w u (stop x) p in
          (ap (λ (t : Tables). t.classes) db, ap (λ (t : Tables). t.nfts) db))
