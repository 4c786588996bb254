-- ===== src/Nft/Retry/Accepted.antt =====
-- Which retries are accepted, and what they store.
-- (migration-backend/pkg/handler/likenft/migration/retry.go)
use likecoin_op.Base.{
  ℕ, ◌≡◌, refl, sym, ap, ◌∙◌, inl, inr, Bool, true, some, List, [], ◌∷◌, find, replace, contains,
  ◌==◌, arith, Text, Bool-cases,
}
use likecoin_op.Exec.{exec, Error, ok, err}
use likecoin_op.Nft.Model.{
  MigrationStatus, LikeNftAssetMigration, LikeNftAssetMigrationClass, LikeNftAssetMigrationNft,
  State, classes_of, nfts_of, query_migration_of, query_classes, query_nfts, update_migration,
}
use likecoin_op.Nft.Status.{row}
use likecoin_op.Nft.Retry.{
  RetryRequest, keys_within, same_keys, class_keys, nft_keys, requested_keys, check_assets,
  failed_classes, failed_nfts, handle_retry,
}

within-contains :
    (xs ys : List Text) (x : Text)
    → keys_within xs ys ≡ true
    → contains xs x ≡ true
    → contains ys x ≡ true
within-contains [] ys x h c = cc
within-contains (z ∷ xs) ys x h c = elim (Bool-cases (z == x)) [
  | inl same ↦
      let eq : z ≡ x = ground (arith, same) in
      let at : contains ys z ≡ true = ground (arith, h) in ap (contains ys) (sym eq) ∙ at
  | inr beyond ↦ ground (arith, within-contains xs ys x, beyond)
]

contains-within :
    (xs ys : List Text)
    → ((x : Text) → contains xs x ≡ true → contains ys x ≡ true)
    → keys_within xs ys ≡ true
contains-within [] ys h = refl
contains-within (z ∷ xs) ys h =
    let first : contains ys z ≡ true = h z (ground arith) in
    let others = contains-within xs ys (λ x c. h x (ground (arith, c))) in
    ground (arith, first, others)

-- The two lists of keys name the same.
abbrev pub SameNames : List Text → List Text → Type 0
SameNames xs ys = (x : Text) → contains xs x ≡ contains ys x

same_keys-SameNames : (xs ys : List Text) → same_keys xs ys ≡ true → SameNames xs ys
same_keys-SameNames xs ys h x = elim (Bool-cases (contains xs x)) [
  | inl there ↦ let other = within-contains xs ys x (ground (arith, h)) there in there ∙ sym other
  | inr missing ↦ elim (Bool-cases (contains ys x)) [
    | inl there ↦
        let other = within-contains ys xs x (ground (arith, h)) there in
        absurd (ground (arith, other, missing))
    | inr gone ↦ missing ∙ sym gone
  ]
]

SameNames-same_keys : (xs ys : List Text) → SameNames xs ys → same_keys xs ys ≡ true
SameNames-same_keys xs ys h =
    let forth = contains-within xs ys (λ x c. sym (h x) ∙ c) in
    let back = contains-within ys xs (λ x c. h x ∙ c) in ground (arith, forth, back)

module _ (prefixed : Text → Text → Text) where
  -- The assets of a request are accepted just when the request names the failed classes and the failed
  -- tokens, all of them and no others, whatever their order and however often.
  pub check_assets_iff :
      (req : RetryRequest) (cs : List LikeNftAssetMigrationClass)
      (ns : List LikeNftAssetMigrationNft)
      → (check_assets prefixed req cs ns ≡ true
          → SameNames req.book_nft_collection (class_keys prefixed cs)
            × SameNames (requested_keys prefixed req.book_nft) (nft_keys prefixed ns))
        × (SameNames req.book_nft_collection (class_keys prefixed cs)
            → SameNames (requested_keys prefixed req.book_nft) (nft_keys prefixed ns)
            → check_assets prefixed req cs ns ≡ true)
  unfolding check_assets
  check_assets_iff req cs ns = (
    λ h. (
      same_keys-SameNames req.book_nft_collection (class_keys prefixed cs) (ground (arith, h)),
      same_keys-SameNames (requested_keys prefixed req.book_nft) (nft_keys prefixed ns)
          (ground (arith, h)),
    ),
    λ c n.
        let one = SameNames-same_keys req.book_nft_collection (class_keys prefixed cs) c in
        let two =
          SameNames-same_keys (requested_keys prefixed req.book_nft) (nft_keys prefixed ns) n in
        ground (arith, one, two),
  )

  module _ (fault : ℕ → Bool) where
    find-of :
        (address : Text) (r : LikeNftAssetMigration) (ms : List LikeNftAssetMigration)
        {m : LikeNftAssetMigration}
        → find (λ (m : LikeNftAssetMigration). m.cosmos_address == address) ms ≡ some m
        → r.id ≡ m.id
        → find
            (λ (m : LikeNftAssetMigration). m.id == r.id)
            (replace (λ (m : LikeNftAssetMigration). m.id == r.id) (λ _. r) ms)
          ≡ some r
    find-of address r [] h e = cc
    find-of address r (n ∷ ms) {m} h e = ground (arith, find-of address r ms {m = m}, e)

    -- A retry that is accepted found the migration of the address failed, with the assets of the
    -- request as its failed ones; it is stored as in progress, and no asset has changed.
    pub retry_accepted :
        (address : Text) (req : RetryRequest) (w v : State) {m : LikeNftAssetMigration}
        {found : LikeNftAssetMigration}
        → handle_retry prefixed fault address req w ≡ (ok m, v)
        → find (λ (m : LikeNftAssetMigration). m.cosmos_address == address) w.db.migrations
          ≡ some found
        → (found.status ≡ MigrationStatus.failed)
          × (check_assets prefixed req
                (failed_classes (classes_of found.id w.db))
                (failed_nfts (nfts_of found.id w.db))
              ≡ true)
          × (m ≡ record found { status = MigrationStatus.in_progress })
          × (row found.id v.db ≡ some m)
          × (v.db.classes ≡ w.db.classes)
          × (v.db.nfts ≡ w.db.nfts)
    unfolding handle_retry query_migration_of query_classes query_nfts update_migration exec
    retry_accepted address req w v {m} {found} h f =
        let new : LikeNftAssetMigration = record found { status = MigrationStatus.in_progress } in
        let stored = find-of address new w.db.migrations {m = found} f refl in
        (
          ground (arith, f),
          ground (arith, f),
          ground (arith, f),
          ground (arith, f, stored),
          ground (arith, f),
          ground (arith, f),
        )

    -- A retry that is refused changes nothing.
    pub retry_refused :
        (address : Text) (req : RetryRequest) (w v : State) {e : Error}
        → handle_retry prefixed fault address req w ≡ (err e, v)
        → (v.db ≡ w.db) × (v.net ≡ w.net)
    unfolding handle_retry query_migration_of query_classes query_nfts update_migration exec
    retry_refused address req w v h = ground arith
