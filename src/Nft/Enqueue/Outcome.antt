-- ===== src/Nft/Enqueue/Outcome.antt =====
-- The outcomes of putting failed assets into the queue.
-- (migration-backend/pkg/logic/likenft/enqueue_failed_likenft_asset_migration.go)
use likecoin_op.Base.{ℕ, suc, ◌≡◌, sym, ap, ◌∙◌, inl, inr, Option-cases, List, [], ◌∷◌, ◌++◌, arith}
use mathlib.Core.Path.{subst}
use likecoin_op.Exec.{
  exec, Error, Result, ok, err, stop, pure, raise, check, db_call, begin_tx, commit, error_of,
  rollback, join_opt, ◌>>=◌,
}
use likecoin_op.Exec.Steps.{check-result, check-eq-ok}
use likecoin_op.Nft.Model.{
  LikeNftAssetMigration, LikeNftAssetMigrationClass, LikeNftAssetMigrationNft, Tables,
  query_migration, update_migration, classes_of, nfts_of,
}
use likecoin_op.Nft.Retry.{failed_classes, failed_nfts, query_failed_classes, query_failed_nfts}
use likecoin_op.Nft.Enqueue.{
  Task, State, Env, mark_classes, mark_nfts, mark_failed, enqueue_tasks, abandon,
  enqueue_failed_failed, enqueue_failed_likenft_asset_migration,
}
use likecoin_op.Nft.Enqueue.Steps.{
  class_tasks, nft_tasks, failed_tasks, onto, mark_failed-Keeps, mark_classes-tasks,
  mark_nfts-tasks,
}

-- What the two kinds of return promise.
abbrev Promised : ℕ → State → Result (Unit {0}) × State → Type 0
Promised id w (ok _, v) = v.net ≡ onto (failed_tasks id w.db) w.net
Promised id w (err _, v) = (v.db.classes ≡ w.db.classes) × (v.db.nfts ≡ w.db.nfts) × (v.net ≡ w.net)
Promised id w (stop _, v) = Unit {0}

joined :
    (id : ℕ) (t : Tables) {cs : List LikeNftAssetMigrationClass}
    {ns : List LikeNftAssetMigrationNft} {ts us tasks : List Task}
    → ts ≡ class_tasks cs
    → cs ≡ failed_classes (classes_of id t)
    → us ≡ nft_tasks ns
    → ns ≡ failed_nfts (nfts_of id t)
    → ts ++ us ≡ tasks
    → tasks ≡ failed_tasks id t
joined id t p q r s e = cc

module _ (env : Env) where
  mark_failed-tasks :
      (id : ℕ) (w v : State) {tasks : List Task}
      → mark_failed env id w ≡ (ok tasks, v)
      → tasks ≡ failed_tasks id w.db
  unfolding mark_failed exec
  mark_failed-tasks id w v {tasks} h =
      let (cs, u1, p1, q1) =
        check-eq-ok (db_call env.fault (query_failed_classes id))
          (λ cs. check (db_call env.fault (query_failed_nfts id)) raise λ ns.
            check (mark_classes env cs) raise
              λ ts. check (mark_nfts env ns) raise λ us. pure (ts ++ us))
          w v {b = tasks} h in
      let (ns, u2, p2, q2) =
        check-eq-ok (db_call env.fault (query_failed_nfts id))
          (λ ns.
            check (mark_classes env cs) raise
              λ ts. check (mark_nfts env ns) raise λ us. pure (ts ++ us))
          u1 v {b = tasks} q1 in
      let (ts, u3, p3, q3) =
        check-eq-ok (mark_classes env cs)
          (λ ts. check (mark_nfts env ns) raise λ us. pure (ts ++ us)) u2 v {b = tasks} q2 in
      let (us, u4, p4, q4) =
        check-eq-ok (mark_nfts env ns) (λ us. pure (ts ++ us)) u3 v {b = tasks} q3 in
      let same_db : u1.db ≡ w.db = ground (arith, p1) in
      let is_classes : cs ≡ failed_classes (classes_of id w.db) = ground (arith, p1) in
      let is_nfts : ns ≡ failed_nfts (nfts_of id u1.db) = ground (arith, p2) in
      joined id w.db (mark_classes-tasks env cs u2 u3 {tasks = ts} p3) is_classes
        (mark_nfts-tasks env ns u3 u4 {tasks = us} p4)
        (is_nfts ∙ ap (λ t. failed_nfts (nfts_of id t)) same_db) (ground (arith, q4))

  abandon-Promised :
      (id : ℕ) (w : State) (before : Tables) (m : LikeNftAssetMigration) (e : Error) (u : State)
      → before ≡ w.db
      → u.net ≡ w.net
      → Promised id w (abandon env before m e u)
  unfolding enqueue_failed_failed update_migration exec
  abandon-Promised id w before m e u b n = ground (arith, b, n)

  enqueue_tasks-Promised :
      (id : ℕ) (tasks : List Task) (w u : State)
      → onto tasks u.net ≡ onto (failed_tasks id w.db) w.net
      → Promised id w (enqueue_tasks env tasks u)
  unfolding enqueue_tasks
  enqueue_tasks-Promised id [] w u h = h
  enqueue_tasks-Promised id (task ∷ tasks) w u h = elim (Option-cases (env.answer u.tick)) [
    | inl refused ↦ ground (arith, refused)
    | inr (_, taken) ↦
        let rest =
          enqueue_tasks-Promised id tasks w (record u { tick = suc u.tick; net = task ∷ u.net })
            h in
        ground (arith, taken, rest)
  ]

  begin-eq :
      (w u : State) {r : Result Tables}
      → begin_tx env.fault w ≡ (r, u)
      → (u.db ≡ w.db) × (u.net ≡ w.net)
  unfolding exec
  begin-eq w u h = ground arith

  begin-before :
      (w u : State) {before : Tables} → begin_tx env.fault w ≡ (ok before, u) → before ≡ w.db
  unfolding exec
  begin-before w u h = ground arith

  query-eq :
      (id : ℕ) (w u : State) {r : Result LikeNftAssetMigration}
      → db_call env.fault (query_migration id) w ≡ (r, u)
      → (u.db ≡ w.db) × (u.net ≡ w.net)
  unfolding query_migration exec
  query-eq id w u h = ground arith

  commit-eq :
      (before : Tables) (w u : State) {r : Result (Unit {0})}
      → commit env.fault before w ≡ (r, u)
      → u.net ≡ w.net
  unfolding exec
  commit-eq before w u h = ground arith

  no_migration-Promised :
      (id : ℕ) (w : State) (before : Tables) (e : Error) (u : State)
      → before ≡ w.db
      → u.net ≡ w.net
      → Promised id w
          ((error_of (rollback env.fault before) >>= λ failure. raise (join_opt e failure)) u)
  unfolding exec
  no_migration-Promised id w before e u b n = ground (arith, b, n)

  committed-Promised :
      (id : ℕ) (w : State) (before : Tables) (m : LikeNftAssetMigration) (tasks : List Task)
      (u : State)
      → before ≡ w.db
      → tasks ≡ failed_tasks id w.db
      → u.net ≡ w.net
      → Promised id w
          (check (commit env.fault before) (abandon env before m) (λ _. enqueue_tasks env tasks) u)
  committed-Promised id w before m tasks u b t n =
      check-result (Promised id w) (commit env.fault before) (abandon env before m)
        (λ _. enqueue_tasks env tasks) u
        (λ a v p.
          enqueue_tasks-Promised id tasks w v
            (ap (onto tasks) (commit-eq before u v {r = ok a} p ∙ n) ∙ ap (λ l. onto l w.net) t))
        (λ e v p. abandon-Promised id w before m e v b (commit-eq before u v {r = err e} p ∙ n))
        (λ s v p. tt)

  marked-Promised :
      (id : ℕ) (w : State) (before : Tables) (m : LikeNftAssetMigration) (u : State)
      → before ≡ w.db
      → u.db ≡ w.db
      → u.net ≡ w.net
      → Promised id w (
          check
            (mark_failed env id)
            (abandon env before m)
            (λ tasks.
              check (commit env.fault before) (abandon env before m) λ _. enqueue_tasks env tasks)
            u)
  marked-Promised id w before m u b d n =
      check-result (Promised id w) (mark_failed env id) (abandon env before m)
        (λ tasks.
          check (commit env.fault before) (abandon env before m) λ _. enqueue_tasks env tasks)
        u
        (λ tasks v p.
          committed-Promised id w before m tasks v b
            (mark_failed-tasks id u v {tasks = tasks} p ∙ ap (failed_tasks id) d) (net v p))
        (λ e v p. abandon-Promised id w before m e v b (net v p)) (λ s v p. tt)
    where
      net : (v : State) {r : Result (List Task)} → mark_failed env id u ≡ (r, v) → v.net ≡ w.net
      net v {r} p =
          ap (λ (s : Result (List Task) × State). s.1.net) (sym p)
          ∙ (mark_failed-Keeps env id).at u
          ∙ n

  raise-Promised :
      (id : ℕ) (w : State) (e : Error) (u : State)
      → (u.db ≡ w.db) × (u.net ≡ w.net)
      → Promised id w (raise e u)
  unfolding exec
  raise-Promised id w e u (d, n) =
      (ap (λ (t : Tables). t.classes) d, ap (λ (t : Tables). t.nfts) d, n)

  enqueue-Promised :
      (id : ℕ) (w : State) → Promised id w (enqueue_failed_likenft_asset_migration env id w)
  unfolding enqueue_failed_likenft_asset_migration
  enqueue-Promised id w =
      check-result (Promised id w) (begin_tx env.fault) raise _ w
        (λ before u p.
          let (d, n) = begin-eq w u {r = ok before} p in
          let b = begin-before w u {before = before} p in
          check-result (Promised id w) (db_call env.fault (query_migration id)) _ _ u
            (λ m v q.
              let (d2, n2) = query-eq id u v {r = ok m} q in
              marked-Promised id w before m v b (d2 ∙ d) (n2 ∙ n))
            (λ e v q.
              no_migration-Promised id w before e v b ((query-eq id u v {r = err e} q).1 ∙ n))
            (λ s v q. tt))
        (λ e u p. raise-Promised id w e u (begin-eq w u {r = err e} p)) (λ s u p. tt)

  -- A call that returns without an error has put the task of each failed class and then of each failed
  -- token of the migration into the queue, in the order of the rows, and no other task.
  pub enqueue_failed_queues :
      (id : ℕ) (w v : State)
      → enqueue_failed_likenft_asset_migration env id w ≡ (ok tt, v)
      → v.net ≡ onto (failed_tasks id w.db) w.net
  enqueue_failed_queues id w v h = subst (Promised id w) h (enqueue-Promised id w)

  -- A call that returns an error, whichever step fails and whether or not the rollback and the storing
  -- of the failure succeed, has changed no class and no token and has put nothing into the queue.
  pub enqueue_failed_atomic :
      (id : ℕ) (w v : State) {e : Error}
      → enqueue_failed_likenft_asset_migration env id w ≡ (err e, v)
      → (v.db.classes ≡ w.db.classes) × (v.db.nfts ≡ w.db.nfts) × (v.net ≡ w.net)
  enqueue_failed_atomic id w v h = subst (Promised id w) h (enqueue-Promised id w)
