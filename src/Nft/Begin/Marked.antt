-- ===== src/Nft/Begin/Marked.antt =====
-- An asset is marked only with its task in the queue.
-- (migration-backend/pkg/logic/likenft/enqueue_likenft_asset_migration.go)
use likecoin_op.Base.{
  ℕ, suc, ◌≡◌, refl, sym, ap, ◌∙◌, ◌⊎◌, inl, inr, false, ◌==◌, Option, some, List, [], ◌∷◌, find,
  replace, arith, Bool-cases, Option-cases,
}
use mathlib.Core.Path.{subst}
use likecoin_op.Exec.{exec, Result, ok, raise, db_call}
use likecoin_op.Exec.Frame.{
  Frame, Keeps, Keeps-pure, Keeps-raise, Keeps-check, Keeps-bind, Keeps-db_call,
}
use likecoin_op.Nft.Model.{
  LikeNftAssetMigrationClass, LikeNftAssetMigrationNft, Tables, query_classes, query_nfts,
}
use likecoin_op.Nft.Enqueue.{Task, migrate_class, migrate_nft, State, update_class, update_nft, Env}
use likecoin_op.Nft.Begin.{
  enqueue_task, enqueue_one, timed_class, timed_nft, enqueue_classes, enqueue_nfts,
  enqueue_likenft_asset_migration,
}

abbrev pub InQueue : Task → List Task → Type 0
InQueue task [] = ⊥
InQueue task (first ∷ tasks) = (task ≡ first) ⊎ InQueue task tasks

abbrev pub class_row : ℕ → Tables → Option LikeNftAssetMigrationClass
class_row id t = find (λ (c : LikeNftAssetMigrationClass). c.id == id) t.classes

abbrev pub nft_row : ℕ → Tables → Option LikeNftAssetMigrationNft
nft_row id t = find (λ (n : LikeNftAssetMigrationNft). n.id == id) t.nfts

-- The queue grows, and a row that has changed has its task in the queue.
pub record Marks (w v : State) : Type 0 where
  pub grows : (task : Task) → InQueue task w.net → InQueue task v.net
  pub classes :
      (id : ℕ) → (class_row id v.db ≡ class_row id w.db) ⊎ InQueue (migrate_class id) v.net
  pub nfts : (id : ℕ) → (nft_row id v.db ≡ nft_row id w.db) ⊎ InQueue (migrate_nft id) v.net

after :
    {A : Type 0} {a b c : A} (task : Task) (queue longer : List Task)
    → ((task : Task) → InQueue task queue → InQueue task longer)
    → (b ≡ a) ⊎ InQueue task queue
    → (c ≡ b) ⊎ InQueue task longer
    → (c ≡ a) ⊎ InQueue task longer
after task queue longer more p (inr q) = inr q
after task queue longer more (inl p) (inl q) = inl (q ∙ p)
after task queue longer more (inr p) (inl q) = inr (more task p)

marks : Frame Marks
marks = record {
  same = λ w. record { grows = λ t q. q; classes = λ id. inl refl; nfts = λ id. inl refl };
  trans = λ u v w p q. record {
    grows = λ t i. q.grows t (p.grows t i);
    classes = λ id. after (migrate_class id) v.net w.net q.grows (p.classes id) (q.classes id);
    nfts = λ id. after (migrate_nft id) v.net w.net q.grows (p.nfts id) (q.nfts id);
  };
  tick = λ w. record { grows = λ t q. q; classes = λ id. inl refl; nfts = λ id. inl refl };
}

find_other-class :
    (id : ℕ) (c : LikeNftAssetMigrationClass) (cs : List LikeNftAssetMigrationClass)
    → (c.id == id) ≡ false
    → find
        (λ (d : LikeNftAssetMigrationClass). d.id == id)
        (replace (λ (d : LikeNftAssetMigrationClass). d.id == c.id) (λ _. c) cs)
      ≡ find (λ (d : LikeNftAssetMigrationClass). d.id == id) cs
find_other-class id c [] h = refl
find_other-class id c (d ∷ cs) h = ground (arith, h, find_other-class id c cs h)

find_other-nft :
    (id : ℕ) (n : LikeNftAssetMigrationNft) (ns : List LikeNftAssetMigrationNft)
    → (n.id == id) ≡ false
    → find
        (λ (d : LikeNftAssetMigrationNft). d.id == id)
        (replace (λ (d : LikeNftAssetMigrationNft). d.id == n.id) (λ _. n) ns)
      ≡ find (λ (d : LikeNftAssetMigrationNft). d.id == id) ns
find_other-nft id n [] h = refl
find_other-nft id n (d ∷ ns) h = ground (arith, h, find_other-nft id n ns h)

module _ (env : Env) where
  abbrev Outcome : Task → Tables → State → State → Type 0
  Outcome task updated w v =
      ((v.db ≡ w.db) × (v.net ≡ w.net))
      ⊎ (((v.db ≡ w.db) ⊎ (v.db ≡ updated)) × (v.net ≡ task ∷ w.net))

  enqueue_one-cases :
      (task : Task) (update : ℕ → Tables → Result (Unit {0}) × Tables) (w : State)
      → ((now : ℕ) → (update now w.db).0 ≡ ok tt)
      → Outcome task (update (env.now (suc w.tick)) w.db).1 w (enqueue_one env task update w).1
  unfolding enqueue_one enqueue_task exec
  enqueue_one-cases task update w done =
      let fine = done (env.now (suc w.tick)) in
      elim (Bool-cases (env.fault w.tick)) [
        | inl down ↦ inl (ground (arith, down))
        | inr up ↦ elim (Bool-cases (env.fault (suc w.tick))) [
          | inl down ↦ inl (ground (arith, up, down))
          | inr up2 ↦ elim (Option-cases (env.answer (suc (suc w.tick)))) [
            | inl refused ↦ inl (ground (arith, up, up2, refused, fine))
            | inr (_, taken) ↦ elim (Bool-cases (env.fault (suc (suc (suc w.tick))))) [
              | inl down ↦ inr (
                inl (ground (arith, up, up2, taken, fine, down)),
                ground (arith, up, up2, taken, fine, down),
              )
              | inr up3 ↦ inr (
                inr (ground (arith, up, up2, taken, fine, up3)),
                ground (arith, up, up2, taken, fine, up3),
              )
            ]
          ]
        ]
      ]

  quiet-Marks : (w v : State) → v.db ≡ w.db → v.net ≡ w.net → Marks w v
  quiet-Marks w v d n = record {
    grows = λ t q. subst (InQueue t) (sym n) q;
    classes = λ id. inl (ap (class_row id) d);
    nfts = λ id. inl (ap (nft_row id) d);
  }

  queued-Marks : (task : Task) (w v : State) → v.db ≡ w.db → v.net ≡ task ∷ w.net → Marks w v
  queued-Marks task w v d n = record {
    grows = λ t q. subst (InQueue t) (sym n) (inr q);
    classes = λ id. inl (ap (class_row id) d);
    nfts = λ id. inl (ap (nft_row id) d);
  }

  class-Marks :
      (c : LikeNftAssetMigrationClass) (w v : State) (now : ℕ)
      → v.db ≡ (timed_class env c now w.db).1
      → v.net ≡ migrate_class c.id ∷ w.net
      → Marks w v
  unfolding update_class
  class-Marks c w v now d n = record {
    grows = λ t q. subst (InQueue t) (sym n) (inr q);
    classes = λ id. elim (Bool-cases (c.id == id)) [
      | inl same ↦
          let own : migrate_class id ≡ migrate_class c.id = ground (arith, same) in
          inr (subst (InQueue (migrate_class id)) (sym n) (inl own))
      | inr other ↦ inl (
          ap (class_row id) d
          ∙ find_other-class id (record c { enqueue_time = some now }) w.db.classes other)
    ];
    nfts = λ id. inl (ap (nft_row id) d);
  }

  nft-Marks :
      (c : LikeNftAssetMigrationNft) (w v : State) (now : ℕ)
      → v.db ≡ (timed_nft env c now w.db).1
      → v.net ≡ migrate_nft c.id ∷ w.net
      → Marks w v
  unfolding update_nft
  nft-Marks c w v now d n = record {
    grows = λ t q. subst (InQueue t) (sym n) (inr q);
    classes = λ id. inl (ap (class_row id) d);
    nfts = λ id. elim (Bool-cases (c.id == id)) [
      | inl same ↦
          let own : migrate_nft id ≡ migrate_nft c.id = ground (arith, same) in
          inr (subst (InQueue (migrate_nft id)) (sym n) (inl own))
      | inr other ↦ inl (
          ap (nft_row id) d
          ∙ find_other-nft id (record c { enqueue_time = some now }) w.db.nfts other)
    ];
  }

  one-Marks :
      (task : Task) (update : ℕ → Tables → Result (Unit {0}) × Tables)
      → ((now : ℕ) (t : Tables) → (update now t).0 ≡ ok tt)
      → ((w v : State) (now : ℕ) → v.db ≡ (update now w.db).1 → v.net ≡ task ∷ w.net → Marks w v)
      → Keeps Marks (enqueue_one env task update)
  one-Marks task update done written = record {
    at = λ w.
        let v = (enqueue_one env task update w).1 in
        elim (enqueue_one-cases task update w (λ now. done now w.db)) [
          | inl (d, n) ↦ quiet-Marks w v d n
          | inr (inl d, n) ↦ queued-Marks task w v d n
          | inr (inr d, n) ↦ written w v (env.now (suc w.tick)) d n
        ];
  }

  class-done :
      (c : LikeNftAssetMigrationClass) (now : ℕ) (t : Tables) → (timed_class env c now t).0 ≡ ok tt
  unfolding update_class
  class-done c now t = refl

  nft-done :
      (n : LikeNftAssetMigrationNft) (now : ℕ) (t : Tables) → (timed_nft env n now t).0 ≡ ok tt
  unfolding update_nft
  nft-done n now t = refl

  classes-Marks : (cs : List LikeNftAssetMigrationClass) → Keeps Marks (enqueue_classes env cs)
  unfolding enqueue_classes
  classes-Marks [] = Keeps-pure marks tt
  classes-Marks (c ∷ cs) =
      Keeps-bind marks (enqueue_one env (migrate_class c.id) (timed_class env c)) _
        (one-Marks (migrate_class c.id) (timed_class env c) (class-done c) (class-Marks c))
        (λ _. classes-Marks cs)

  nfts-Marks : (ns : List LikeNftAssetMigrationNft) → Keeps Marks (enqueue_nfts env ns)
  unfolding enqueue_nfts
  nfts-Marks [] = Keeps-pure marks tt
  nfts-Marks (n ∷ ns) =
      Keeps-bind marks (enqueue_one env (migrate_nft n.id) (timed_nft env n)) _
        (one-Marks (migrate_nft n.id) (timed_nft env n) (nft-done n) (nft-Marks n))
        (λ _. nfts-Marks ns)

  query_classes-Marks : (id : ℕ) → Keeps Marks (db_call env.fault (query_classes id))
  unfolding query_classes
  query_classes-Marks id =
      Keeps-db_call marks env.fault (query_classes id) (λ w. quiet-Marks w _ refl refl)

  query_nfts-Marks : (id : ℕ) → Keeps Marks (db_call env.fault (query_nfts id))
  unfolding query_nfts
  query_nfts-Marks id =
      Keeps-db_call marks env.fault (query_nfts id) (λ w. quiet-Marks w _ refl refl)

  -- However the database and the queue fail on the way, no task leaves the queue, and each class and
  -- each token has the row that it had before or its task is in the queue.
  pub enqueue_migration-Marks :
      (id : ℕ) (w : State) → Marks w (enqueue_likenft_asset_migration env id w).1
  unfolding enqueue_likenft_asset_migration
  enqueue_migration-Marks id w =
      (Keeps-check marks (db_call env.fault (query_classes id)) raise _ (query_classes-Marks id)
          (Keeps-raise marks)
          λ cs.
            Keeps-check marks (db_call env.fault (query_nfts id)) raise _ (query_nfts-Marks id)
              (Keeps-raise marks)
              λ ns.
                Keeps-bind marks (enqueue_classes env cs) _ (classes-Marks cs)
                  (λ _. nfts-Marks ns)).at
        w
