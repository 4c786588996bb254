-- ===== src/Nft/Enqueue/Steps.antt =====
-- The steps of putting failed assets into the queue.
-- (migration-backend/pkg/logic/likenft/enqueue_failed_likenft_asset_migration.go)
use likecoin_op.Base.{ℕ, ◌≡◌, refl, sym, ap, ◌∙◌, some, List, [], ◌∷◌, ◌++◌, map, arith}
use likecoin_op.Exec.{exec, ok, pure, raise, check, db_call}
use likecoin_op.Exec.Frame.{Frame, Keeps, Keeps-pure, Keeps-raise, Keeps-check, Keeps-db_call}
use likecoin_op.Exec.Steps.{check-eq-ok}
use likecoin_op.Nft.Model.{
  LikeNftAssetMigrationClass, LikeNftAssetMigrationNft, Tables, classes_of, nfts_of,
}
use likecoin_op.Nft.Retry.{failed_classes, failed_nfts, query_failed_classes, query_failed_nfts}
use likecoin_op.Nft.Enqueue.{
  Task, migrate_class, migrate_nft, State, update_class, update_nft, Env, mark_classes, mark_nfts,
  mark_failed,
}

-- The tasks of the failed assets of a migration, classes first.
abbrev pub class_tasks : List LikeNftAssetMigrationClass → List Task
class_tasks = map (λ (c : LikeNftAssetMigrationClass). migrate_class c.id)

abbrev pub nft_tasks : List LikeNftAssetMigrationNft → List Task
nft_tasks = map (λ (n : LikeNftAssetMigrationNft). migrate_nft n.id)

abbrev pub failed_tasks : ℕ → Tables → List Task
failed_tasks id t =
    class_tasks (failed_classes (classes_of id t)) ++ nft_tasks (failed_nfts (nfts_of id t))

-- The queue after tasks were put into it, one after the other.
abbrev pub onto : List Task → List Task → List Task
onto [] queue = queue
onto (task ∷ tasks) queue = onto tasks (task ∷ queue)

abbrev SameQueue : State → State → Type 0
SameQueue u v = v.net ≡ u.net

same_queue : Frame SameQueue
same_queue = record { same = λ w. refl; trans = λ u v w p q. q ∙ p; tick = λ w. refl }

module _ (env : Env) where
  mark_classes-Keeps :
      (cs : List LikeNftAssetMigrationClass) → Keeps SameQueue (mark_classes env cs)
  unfolding mark_classes
  mark_classes-Keeps [] = Keeps-pure same_queue []
  mark_classes-Keeps (c ∷ cs) = record {
    at = λ w.
        (Keeps-check same_queue
            (db_call env.fault (update_class (record c { enqueue_time = some (env.now w.tick) })))
            raise
            (λ _. check (mark_classes env cs) raise λ tasks. pure (migrate_class c.id ∷ tasks))
            (Keeps-db_call same_queue env.fault
              (update_class (record c { enqueue_time = some (env.now w.tick) })) (λ u. refl))
            (Keeps-raise same_queue)
            (λ _.
              Keeps-check same_queue (mark_classes env cs) raise
                (λ tasks. pure (migrate_class c.id ∷ tasks)) (mark_classes-Keeps cs)
                (Keeps-raise same_queue)
                (λ tasks. Keeps-pure same_queue (migrate_class c.id ∷ tasks)))).at
          w;
  }

  mark_nfts-Keeps : (ns : List LikeNftAssetMigrationNft) → Keeps SameQueue (mark_nfts env ns)
  unfolding mark_nfts
  mark_nfts-Keeps [] = Keeps-pure same_queue []
  mark_nfts-Keeps (n ∷ ns) = record {
    at = λ w.
        (Keeps-check same_queue
            (db_call env.fault (update_nft (record n { enqueue_time = some (env.now w.tick) })))
            raise (λ _. check (mark_nfts env ns) raise λ tasks. pure (migrate_nft n.id ∷ tasks))
            (Keeps-db_call same_queue env.fault
              (update_nft (record n { enqueue_time = some (env.now w.tick) })) (λ u. refl))
            (Keeps-raise same_queue)
            (λ _.
              Keeps-check same_queue (mark_nfts env ns) raise
                (λ tasks. pure (migrate_nft n.id ∷ tasks)) (mark_nfts-Keeps ns)
                (Keeps-raise same_queue)
                (λ tasks. Keeps-pure same_queue (migrate_nft n.id ∷ tasks)))).at
          w;
  }

  pub mark_failed-Keeps : (id : ℕ) → Keeps SameQueue (mark_failed env id)
  unfolding mark_failed
  mark_failed-Keeps id =
      Keeps-check same_queue (db_call env.fault (query_failed_classes id)) raise _
        (Keeps-db_call same_queue env.fault (query_failed_classes id) (λ u. refl))
        (Keeps-raise same_queue)
        λ cs.
          Keeps-check same_queue (db_call env.fault (query_failed_nfts id)) raise _
            (Keeps-db_call same_queue env.fault (query_failed_nfts id) (λ u. refl))
            (Keeps-raise same_queue)
            λ ns.
              Keeps-check same_queue (mark_classes env cs) raise _ (mark_classes-Keeps cs)
                (Keeps-raise same_queue)
                λ ts.
                  Keeps-check same_queue (mark_nfts env ns) raise _ (mark_nfts-Keeps ns)
                    (Keeps-raise same_queue) λ us. Keeps-pure same_queue (ts ++ us)

  pub mark_classes-tasks :
      (cs : List LikeNftAssetMigrationClass) (w v : State) {tasks : List Task}
      → mark_classes env cs w ≡ (ok tasks, v)
      → tasks ≡ class_tasks cs
  unfolding mark_classes exec
  mark_classes-tasks [] w v {tasks} h = ground arith
  mark_classes-tasks (c ∷ cs) w v {tasks} h =
      let (_, u, _, p) =
        check-eq-ok
          (db_call env.fault (update_class (record c { enqueue_time = some (env.now w.tick) })))
          (λ _. check (mark_classes env cs) raise λ tasks. pure (migrate_class c.id ∷ tasks)) w v
          {b = tasks} h in
      let (others, u2, q, r) =
        check-eq-ok (mark_classes env cs) (λ tasks. pure (migrate_class c.id ∷ tasks)) u v
          {b = tasks} p in
      let same : others ≡ class_tasks cs = mark_classes-tasks cs u u2 {tasks = others} q in
      let is_tasks : migrate_class c.id ∷ others ≡ tasks = ground (arith, r) in
      sym is_tasks ∙ ap (λ ts. migrate_class c.id ∷ ts) same

  pub mark_nfts-tasks :
      (ns : List LikeNftAssetMigrationNft) (w v : State) {tasks : List Task}
      → mark_nfts env ns w ≡ (ok tasks, v)
      → tasks ≡ nft_tasks ns
  unfolding mark_nfts exec
  mark_nfts-tasks [] w v {tasks} h = ground arith
  mark_nfts-tasks (n ∷ ns) w v {tasks} h =
      let (_, u, _, p) =
        check-eq-ok
          (db_call env.fault (update_nft (record n { enqueue_time = some (env.now w.tick) })))
          (λ _. check (mark_nfts env ns) raise λ tasks. pure (migrate_nft n.id ∷ tasks)) w v
          {b = tasks} h in
      let (others, u2, q, r) =
        check-eq-ok (mark_nfts env ns) (λ tasks. pure (migrate_nft n.id ∷ tasks)) u v {b = tasks}
          p in
      let same : others ≡ nft_tasks ns = mark_nfts-tasks ns u u2 {tasks = others} q in
      let is_tasks : migrate_nft n.id ∷ others ≡ tasks = ground (arith, r) in
      sym is_tasks ∙ ap (λ ts. migrate_nft n.id ∷ ts) same
