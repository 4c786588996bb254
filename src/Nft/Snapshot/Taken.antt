-- ===== src/Nft/Snapshot/Taken.antt =====
-- Taking the snapshot of one row, from its first update to its end.
-- (migration-backend/pkg/logic/likenft/snapshot_cosmos_state.go)
use likecoin_op.Base.{
  ℕ, ◌≡◌, refl, ap, ◌∙◌, inl, inr, ◌==◌, Option, some, List, [], ◌∷◌, find, arith, Option-cases,
  Text,
}
use mathlib.Core.Path.{subst}
use likecoin_op.Exec.{exec, Result, ok, rpc_error, pure, raise, check, outside, db_call, bump}
use likecoin_op.Exec.Steps.{check-result, check-eq-ok}
use likecoin_op.Nft.Snapshot.{
  CosmosClass, CosmosNft, Env, class_rows, nft_rows, with_db_tx, insert_snapshot_classes,
  insert_snapshot_nfts, snapshot_failed, store_snapshot, take_snapshot,
}
use likecoin_op.Nft.Snapshot.Model.{
  SnapshotStatus, LikeNftAssetSnapshot, LikeNftAssetSnapshotClass, LikeNftAssetSnapshotNft, Tables,
  State, update_snapshot, insert_unique, same_class, same_nft, add_classes, add_nfts,
}
use likecoin_op.Nft.Snapshot.Outcome.{
  row, stack, SameContents, Taken, insert_unique-stack, with_db_tx-eq-ok, with_db_tx-err,
  with_db_tx-stop, update-called, updated-by, failed-Taken,
}

module _ (env : Env) where
  inserted_classes :
      (cs : List LikeNftAssetSnapshotClass) (w v : State)
      → insert_snapshot_classes env cs w ≡ (ok tt, v)
      → (v.db.classes ≡ stack cs w.db.classes)
        × (v.db.nfts ≡ w.db.nfts)
        × (v.db.snapshots ≡ w.db.snapshots)
  unfolding insert_snapshot_classes add_classes exec
  inserted_classes [] w v h = (ground arith, ground arith, ground arith)
  inserted_classes (c ∷ cs) w v h =
      elim (Option-cases (insert_unique same_class (c ∷ cs) w.db.classes)) [
        | inl clash ↦ absurd (ground (arith, clash, h))
        | inr (new, e) ↦
            let stacked = insert_unique-stack same_class (c ∷ cs) w.db.classes {new = new} e in
            (ground (arith, e, h) ∙ stacked, ground (arith, e, h), ground (arith, e, h))
      ]

  inserted_nfts :
      (ns : List LikeNftAssetSnapshotNft) (w v : State)
      → insert_snapshot_nfts env ns w ≡ (ok tt, v)
      → (v.db.nfts ≡ stack ns w.db.nfts)
        × (v.db.classes ≡ w.db.classes)
        × (v.db.snapshots ≡ w.db.snapshots)
  unfolding insert_snapshot_nfts add_nfts exec
  inserted_nfts [] w v h = (ground arith, ground arith, ground arith)
  inserted_nfts (n ∷ ns) w v h = elim (Option-cases (insert_unique same_nft (n ∷ ns) w.db.nfts)) [
    | inl clash ↦ absurd (ground (arith, clash, h))
    | inr (new, e) ↦
        let stacked = insert_unique-stack same_nft (n ∷ ns) w.db.nfts {new = new} e in
        (ground (arith, e, h) ∙ stacked, ground (arith, e, h), ground (arith, e, h))
  ]

  stored :
      (s : LikeNftAssetSnapshot) (cs : List CosmosClass) (ns : List CosmosNft) (w v : State)
      {a : LikeNftAssetSnapshot}
      → row s.id w.db ≡ some a
      → store_snapshot env s cs ns w ≡ (ok tt, v)
      → (v.db.classes ≡ stack (class_rows s.id cs) w.db.classes)
        × (v.db.nfts ≡ stack (nft_rows s.id ns) w.db.nfts)
        × (row s.id v.db ≡ some s)
  unfolding store_snapshot
  stored s cs ns w v {a} found h =
      let (done, w1, p1, h1) = check-eq-ok _ _ w v {b = tt} h in
      let (done2, w2, p2, h2) = check-eq-ok _ _ w1 v {b = tt} h1 in
      let (cs1, ns1) = update-called env s w w1 p1 in
      let (cs2, ns2, ss2) = inserted_classes (class_rows s.id cs) w1 w2 p2 in
      let (ns3, cs3, ss3) = inserted_nfts (nft_rows s.id ns) w2 v h2 in
      (
        cs3 ∙ (cs2 ∙ ap (stack (class_rows s.id cs)) cs1),
        ns3 ∙ ap (stack (nft_rows s.id ns)) (ns2 ∙ ns1),
        ap (find (λ (x : LikeNftAssetSnapshot). x.id == s.id)) (ss3 ∙ ss2)
            ∙ updated-by env s w w1 {a = a} found p1,
      )

  answered :
      {A : Type 0} (answer : ℕ → Option A) (w v : State) {r : Result A}
      → outside answer rpc_error w ≡ (r, v)
      → v.db ≡ w.db
  unfolding exec
  answered answer w v h = ground arith

  answer-eq-ok :
      {A : Type 0} (answer : ℕ → Option A) (w v : State) {a : A}
      → outside answer rpc_error w ≡ (ok a, v)
      → answer w.tick ≡ some a
  unfolding exec
  answer-eq-ok answer w v {a} h = ground arith

  module _ (address : Text) (s : LikeNftAssetSnapshot) (w : State) where
    -- The last step, from a world where the row is there and nothing else was written.
    store-Taken :
        (done : LikeNftAssetSnapshot) (cs : List CosmosClass) (ns : List CosmosNft) (u : State)
        (t t' : ℕ) {a : LikeNftAssetSnapshot}
        → done.id ≡ s.id
        → done.status ≡ SnapshotStatus.completed
        → SameContents w u
        → row done.id u.db ≡ some a
        → env.classes_by_owner address t ≡ some cs
        → env.nfts_by_owner address t' ≡ some ns
        → Taken env address s.id w (
            check
              (with_db_tx env (store_snapshot env done cs ns))
              (snapshot_failed env s.id)
              (λ _. pure tt)
              u)
    unfolding exec
    store-Taken done cs ns u t t' {a} same_id status (kept_cs, kept_ns) found asked_cs asked_ns =
        check-result (Taken env address s.id w) (with_db_tx env (store_snapshot env done cs ns))
          (snapshot_failed env s.id) (λ _. pure tt) u
          (λ a' v e.
            let (body, db) = with_db_tx-eq-ok env (store_snapshot env done cs ns) u v e in
            let (new_cs, new_ns, new_row) =
              stored done cs ns (bump u) (store_snapshot env done cs ns (bump u)).1 {a = a} found
                (ap (λ r. (r, (store_snapshot env done cs ns (bump u)).1)) body) in
            inr (
              t,
              t',
              cs,
              ns,
              asked_cs,
              asked_ns,
              subst (λ i. v.db.classes ≡ stack (class_rows i cs) w.db.classes) same_id
                  (ap (λ (x : Tables). x.classes) db
                    ∙ (new_cs ∙ ap (stack (class_rows done.id cs)) kept_cs)),
              subst (λ i. v.db.nfts ≡ stack (nft_rows i ns) w.db.nfts) same_id
                  (ap (λ (x : Tables). x.nfts) db
                    ∙ (new_ns ∙ ap (stack (nft_rows done.id ns)) kept_ns)),
              done,
              subst (λ i. row i v.db ≡ some done) same_id
                  (ap (λ (x : Tables). row done.id x) db ∙ new_row),
              status,
            ))
          (λ x v e.
            let db = with_db_tx-err env (store_snapshot env done cs ns) u v x e in
            failed-Taken env address s.id w v x (
              ap (λ (x : Tables). x.classes) db ∙ kept_cs,
              ap (λ (x : Tables). x.nfts) db ∙ kept_ns,
            ))
          (λ x v e.
            let db = with_db_tx-stop env (store_snapshot env done cs ns) u v x e in
            (ap (λ (x : Tables). x.classes) db ∙ kept_cs, ap (λ (x : Tables). x.nfts) db ∙ kept_ns))

    kept_by : (u v : State) → v.db ≡ u.db → SameContents w u → SameContents w v
    kept_by u v db (cs, ns) =
        (ap (λ (x : Tables). x.classes) db ∙ cs, ap (λ (x : Tables). x.nfts) db ∙ ns)

    pub take-Taken :
        {a : LikeNftAssetSnapshot}
        → row s.id w.db ≡ some a
        → Taken env address s.id w (take_snapshot env address s w)
    unfolding take_snapshot exec
    take-Taken {a} found =
        let taken : LikeNftAssetSnapshot = record s { status = SnapshotStatus.in_progress } in
        let P = Taken env address s.id w in
        check-result P (db_call env.fault (update_snapshot taken)) raise _ w
          (λ done w1 p1.
            let same1 = update-called env taken w w1 p1 in
            let here1 = updated-by env taken w w1 {a = a} found p1 in
            check-result P (outside env.latest_block rpc_error) (snapshot_failed env s.id) _ w1
              (λ block w2 p2.
                let db2 = answered env.latest_block w1 w2 p2 in
                let same2 = kept_by w1 w2 db2 same1 in
                check-result P (outside (env.classes_by_owner address) rpc_error)
                  (snapshot_failed env s.id) _ w2
                  (λ cs w3 p3.
                    let db3 = answered (env.classes_by_owner address) w2 w3 p3 in
                    let same3 = kept_by w2 w3 db3 same2 in
                    check-result P (outside (env.nfts_by_owner address) rpc_error)
                      (snapshot_failed env s.id) _ w3
                      (λ ns w4 p4.
                        let db4 = answered (env.nfts_by_owner address) w3 w4 p4 in
                        store-Taken
                          (record taken {
                            block_height = some block.height;
                            block_time = some block.time;
                            status = SnapshotStatus.completed;
                          })
                          cs ns w4 w2.tick w3.tick {a = taken} refl refl (kept_by w3 w4 db4 same3)
                          (ap (λ (x : Tables). row s.id x) (db4 ∙ (db3 ∙ db2)) ∙ here1)
                          (answer-eq-ok (env.classes_by_owner address) w2 w3 {a = cs} p3)
                          (answer-eq-ok (env.nfts_by_owner address) w3 w4 {a = ns} p4))
                      (λ x v e.
                        failed-Taken env address s.id w v x
                          (kept_by w3 v (answered (env.nfts_by_owner address) w3 v e) same3))
                      (λ x v e. kept_by w3 v (answered (env.nfts_by_owner address) w3 v e) same3))
                  (λ x v e.
                    failed-Taken env address s.id w v x
                      (kept_by w2 v (answered (env.classes_by_owner address) w2 v e) same2))
                  (λ x v e. kept_by w2 v (answered (env.classes_by_owner address) w2 v e) same2))
              (λ x v e.
                failed-Taken env address s.id w v x
                  (kept_by w1 v (answered env.latest_block w1 v e) same1))
              (λ x v e. kept_by w1 v (answered env.latest_block w1 v e) same1))
          (λ x v e. update-called env taken w v e) (λ x v e. update-called env taken w v e)
