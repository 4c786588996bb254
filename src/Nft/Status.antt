-- ===== src/Nft/Status.antt =====
-- The status of a migration by those of its classes and tokens.
-- (migration-backend/pkg/logic/likenft/recalculate_migration_status.go)
use likecoin_op.Base.{
  ℕ, ◌≡◌, refl, sym, ◌⊎◌, inl, inr, Bool, true, false, ◌&&◌, ◌||◌, Option, some, List, [], ◌∷◌,
  ◌++◌, map, ◌==◌, if◌then◌else◌, any, find, replace, All, arith,
}
use mathlib.Core.Path.{subst}
use likecoin_op.Exec.{exec, Error, Result, ok, err, stop, Stop, panicked, raise, check, db_call}
use likecoin_op.Nft.Model.{
  AssetStatus, MigrationStatus, LikeNftAssetMigration, LikeNftAssetMigrationClass,
  LikeNftAssetMigrationNft, Tables, Action, State, classes_of, nfts_of, query_migration,
  query_classes, query_nfts, update_migration,
}

abbrev pub is_completed : AssetStatus → Bool
is_completed AssetStatus.completed = true
is_completed _ = false

abbrev pub is_failed : AssetStatus → Bool
is_failed AssetStatus.failed = true
is_failed _ = false

abbrev pub is_running : AssetStatus → Bool
is_running AssetStatus.init = true
is_running AssetStatus.in_progress = true
is_running _ = false

abbrev pub is_unknown : AssetStatus → Bool
is_unknown AssetStatus.other = true
is_unknown _ = false

-- `allCompleted`, `someFailed` and `someInProgress`
pub record Flags : Type 0 where
  pub all_completed : Bool
  pub some_failed : Bool
  pub some_in_progress : Bool

-- The two loops of `DetermineMigrationStatus`.
unfoldable pub scan : List AssetStatus → Flags → Flags
scan [] f = f
scan (s ∷ ss) f = scan ss (record {
  all_completed = f.all_completed && is_completed s;
  some_failed = f.some_failed || is_failed s;
  some_in_progress = f.some_in_progress || is_running s;
})

abbrev pub decide_status : Flags → Result MigrationStatus
decide_status f =
    if f.some_in_progress
    then ok MigrationStatus.in_progress
    else (if f.some_failed
        then ok MigrationStatus.failed
        else (if f.all_completed then ok MigrationStatus.completed else stop panicked))

-- `DetermineMigrationStatus`
unfoldable pub determine_migration_status :
    List LikeNftAssetMigrationClass → List LikeNftAssetMigrationNft → Result MigrationStatus
determine_migration_status classes nfts = decide_status (
    scan (map (λ (n : LikeNftAssetMigrationNft). n.status) nfts) (
      scan (map (λ (c : LikeNftAssetMigrationClass). c.status) classes)
        (record { all_completed = true; some_failed = false; some_in_progress = false })))

module _ (fault : ℕ → Bool) where
  abbrev pub lift : {A : Type 0} → Result A → Action A
  lift r w = (r, w)

  -- `RecalculateMigrationStatus`
  unfoldable pub recalculate_migration_status : ℕ → Action (Unit {0})
  recalculate_migration_status migration_id =
      check (db_call fault (query_migration migration_id)) raise λ migration.
        check (db_call fault (query_classes migration_id)) raise λ classes.
          check (db_call fault (query_nfts migration_id)) raise λ nfts.
            check (lift (determine_migration_status classes nfts)) raise
              λ status. db_call fault (update_migration (record migration { status = status }))

-- What a status says of the assets of a migration.
abbrev pub Means : Result MigrationStatus → List AssetStatus → Type 0
Means (ok MigrationStatus.init) ss = ⊥
Means (ok MigrationStatus.in_progress) ss = any is_running ss ≡ true
Means (ok MigrationStatus.completed) ss = All (λ s. s ≡ AssetStatus.completed) ss
Means (ok MigrationStatus.failed) ss = (any is_running ss ≡ false) × (any is_failed ss ≡ true)
Means (ok MigrationStatus.other) ss = ⊥
Means (err e) ss = ⊥
Means (stop s) ss =
    (any is_running ss ≡ false) × (any is_failed ss ≡ false) × (any is_unknown ss ≡ true)

abbrev pub asset_statuses :
    List LikeNftAssetMigrationClass → List LikeNftAssetMigrationNft → List AssetStatus
asset_statuses classes nfts =
    map (λ (c : LikeNftAssetMigrationClass). c.status) classes
    ++ map (λ (n : LikeNftAssetMigrationNft). n.status) nfts

scan-append : (ss ts : List AssetStatus) (f : Flags) → scan ts (scan ss f) ≡ scan (ss ++ ts) f
unfolding scan
scan-append [] ts f = refl
scan-append (s ∷ ss) ts f = scan-append ss ts _

scan-flags :
    (ss : List AssetStatus) (f : Flags)
    → ((scan ss f).some_in_progress ≡ f.some_in_progress || any is_running ss)
      × ((scan ss f).some_failed ≡ f.some_failed || any is_failed ss)
unfolding scan
scan-flags [] f = (ground arith, ground arith)
scan-flags (s ∷ ss) f =
    let ih = scan-flags ss (record {
      all_completed = f.all_completed && is_completed s;
      some_failed = f.some_failed || is_failed s;
      some_in_progress = f.some_in_progress || is_running s;
    }) in
    (ground (arith, ih), ground (arith, ih))

scan-completed :
    (ss : List AssetStatus) (f : Flags)
    → (scan ss f).all_completed ≡ true
    → (f.all_completed ≡ true) × All (λ s. s ≡ AssetStatus.completed) ss
unfolding scan
scan-completed [] f h = (h, tt)
scan-completed (s ∷ ss) f h =
    let (first, others) = scan-completed ss _ h in
    (ground (arith, first), (ground (arith, first), others))

scan-incomplete :
    (ss : List AssetStatus) (f : Flags)
    → (scan ss f).all_completed ≡ false
    → any is_running ss ≡ false
    → any is_failed ss ≡ false
    → f.all_completed ≡ true
    → any is_unknown ss ≡ true
unfolding scan
scan-incomplete [] f h r x c = ground arith
scan-incomplete (AssetStatus.init ∷ ss) f h r x c = ground arith
scan-incomplete (AssetStatus.in_progress ∷ ss) f h r x c = ground arith
scan-incomplete (AssetStatus.completed ∷ ss) f h r x c =
    scan-incomplete ss _ h (ground (arith, r)) (ground (arith, x)) (ground (arith, c))
scan-incomplete (AssetStatus.failed ∷ ss) f h r x c = ground arith
scan-incomplete (AssetStatus.other ∷ ss) f h r x c = ground arith

decide-Means :
    (ss : List AssetStatus) (completed failed running : Bool)
    → running ≡ any is_running ss
    → failed ≡ any is_failed ss
    → (completed ≡ true → All (λ s. s ≡ AssetStatus.completed) ss)
    → (completed ≡ false
        → any is_running ss ≡ false
        → any is_failed ss ≡ false
        → any is_unknown ss ≡ true)
    → Means
        (decide_status
          (record { all_completed = completed; some_failed = failed; some_in_progress = running }))
        ss
decide-Means ss c f true r x all miss = sym r
decide-Means ss c true false r x all miss = (sym r, sym x)
decide-Means ss true false false r x all miss = all refl
decide-Means ss false false false r x all miss = (sym r, sym x, miss refl (sym r) (sym x))

-- What the status of a migration says of its classes and tokens: in progress where some of them are, or
-- are still to be begun; failed where none are and some have failed; completed where all are. It panics
-- only where some asset has a status that the code does not know.
pub determine-Means :
    (classes : List LikeNftAssetMigrationClass) (nfts : List LikeNftAssetMigrationNft)
    → Means (determine_migration_status classes nfts) (asset_statuses classes nfts)
unfolding determine_migration_status
determine-Means classes nfts =
    let ss = asset_statuses classes nfts in
    let start : Flags = record {
      all_completed = true;
      some_failed = false;
      some_in_progress = false;
    } in
    let (running, fails) = scan-flags ss start in
    let result = scan ss start in
    subst (λ f. Means (decide_status f) ss)
      (sym (
        scan-append (map (λ (c : LikeNftAssetMigrationClass). c.status) classes)
          (map (λ (n : LikeNftAssetMigrationNft). n.status) nfts) start))
      (decide-Means ss result.all_completed result.some_failed result.some_in_progress running fails
        (λ c. (scan-completed ss start c).1) (λ i r x. scan-incomplete ss start i r x refl))

-- The row of a migration.
abbrev pub row : ℕ → Tables → Option LikeNftAssetMigration
row id t = find (λ (m : LikeNftAssetMigration). m.id == id) t.migrations

find-replace :
    (id : ℕ) (r : LikeNftAssetMigration) (ms : List LikeNftAssetMigration)
    {m : LikeNftAssetMigration}
    → r.id ≡ id
    → find (λ (m : LikeNftAssetMigration). m.id == id) ms ≡ some m
    → find
        (λ (m : LikeNftAssetMigration). m.id == id)
        (replace (λ (m : LikeNftAssetMigration). m.id == r.id) (λ _. r) ms)
      ≡ some r
find-replace id r [] e h = cc
find-replace id r (n ∷ ms) {m} e h = ground (arith, find-replace id r ms {m = m} e, e)

find-id :
    (id : ℕ) (ms : List LikeNftAssetMigration) {m : LikeNftAssetMigration}
    → find (λ (m : LikeNftAssetMigration). m.id == id) ms ≡ some m
    → m.id ≡ id
find-id id [] h = cc
find-id id (n ∷ ms) {m} h = ground (arith, find-id id ms {m = m})

result-cases :
    {A : Type 0} (r : Result A)
    → ((a : A) × (r ≡ ok a)) ⊎ (((e : Error) × (r ≡ err e)) ⊎ ((s : Stop) × (r ≡ stop s)))
result-cases (ok a) = inl (a, refl)
result-cases (err e) = inr (inl (e, refl))
result-cases (stop s) = inr (inr (s, refl))

module _ (fault : ℕ → Bool) where
  -- A recalculation that returns has stored the status that the classes and tokens of the migration
  -- determine, and has changed nothing else of the migration, no asset and no task.
  pub recalculate_stores :
      (id : ℕ) (w v : State) {m : LikeNftAssetMigration}
      → row id w.db ≡ some m
      → recalculate_migration_status fault id w ≡ (ok tt, v)
      → (status : MigrationStatus) × (determine_migration_status
            (classes_of id w.db)
            (nfts_of id w.db)
          ≡ ok status)
        × (row id v.db ≡ some (record m { status = status }))
        × (v.db.classes ≡ w.db.classes)
        × (v.db.nfts ≡ w.db.nfts)
        × (v.net ≡ w.net)
  unfolding recalculate_migration_status query_migration query_classes query_nfts update_migration
      exec
  recalculate_stores id w v {m} r h =
      elim (result-cases (determine_migration_status (classes_of id w.db) (nfts_of id w.db))) [
        | inl (status, e) ↦
            let new = record m { status = status } in
            let stored =
              find-replace id new w.db.migrations {m = m} (find-id id w.db.migrations {m = m} r)
                r in
            (
              status,
              e,
              ground (arith, e, r, stored),
              ground (arith, e, r),
              ground (arith, e, r),
              ground (arith, e, r),
            )
        | inr (inl (x, e)) ↦ absurd (ground (arith, e, r))
        | inr (inr (x, e)) ↦ absurd (ground (arith, e, r))
      ]
