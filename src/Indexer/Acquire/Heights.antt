-- ===== src/Indexer/Acquire/Heights.antt =====
-- The processed block height of a contract and an event: it never falls, and it moves only with a call
-- that has stored its events. (likenft-indexer/internal/logic/evmeventacquirer/acquirer.go)
use likecoin_op.Base.{
  ℕ, ◌≡◌, refl, ◌⊎◌, inl, inr, Bool, true, List, [], ◌∷◌, if◌then◌else◌, any, keep, replace, arith,
  Text,
}
use likecoin_op.Exec.{exec, Error, ok, err, check, raise, pure, not_found, not_singular}
use likecoin_op.Indexer.Model.{ProcessedBlockHeight, Tables, State}
use likecoin_op.Indexer.Db.{
  only, with_tx, is_height_of, query_height, get_processed_block_height,
  update_processed_block_height, is_not_found,
}

-- The height of a contract and an event; 0 where there is no row.
abbrev pub height_in : List ProcessedBlockHeight → ℕ
height_in [] = 0
height_in (h ∷ hs) = h.block_height

abbrev pub height_of : ℕ → Text → ℕ → Tables → ℕ
height_of contract_type contract_address event t =
    height_in (keep (is_height_of contract_type contract_address event) t.heights)

keep-replace :
    (p : ProcessedBlockHeight → Bool) (r : ProcessedBlockHeight) (hs : List ProcessedBlockHeight)
    → p r ≡ true
    → any p hs ≡ true
    → height_in (keep p (replace p (λ _. r) hs)) ≡ r.block_height
keep-replace p r [] e a = cc
keep-replace p r (h ∷ hs) e a = ground (arith, keep-replace p r hs e)

only-any :
    (p : ProcessedBlockHeight → Bool) (hs : List ProcessedBlockHeight) {h : ProcessedBlockHeight}
    → only (keep p hs) ≡ ok h
    → any p hs ≡ true
only-any p [] e = cc
only-any p (g ∷ hs) {h} e = ground (arith, only-any p hs {h = h})

only-cases :
    (hs : List ProcessedBlockHeight)
    → ((h : ProcessedBlockHeight) × (only hs ≡ ok h)) ⊎ ((x : Error) × (only hs ≡ err x))
only-cases [] = inr (not_found, refl)
only-cases (h ∷ []) = inl (h, refl)
only-cases (h ∷ g ∷ hs) = inr (not_singular, refl)

module _ (fault : ℕ → Bool) (contract_type : ℕ) (contract_address : Text) (event : ℕ) where
  -- A stored height is read back.
  pub update-height :
      (block_height : ℕ) (w v : State)
      → update_processed_block_height fault contract_type contract_address event block_height w
        ≡ (ok tt, v)
      → height_of contract_type contract_address event v.db ≡ block_height
  unfolding update_processed_block_height with_tx query_height exec
  update-height block_height w v h =
      let p = is_height_of contract_type contract_address event in
      let row : ProcessedBlockHeight = record {
        contract_type = contract_type;
        contract_address = contract_address;
        event = event;
        block_height = block_height;
      } in
      let kept = keep-replace p row w.db.heights in
      elim (only-cases (keep p w.db.heights)) [
        | inl (h1, e) ↦ ground (arith, kept (ground arith) (only-any p w.db.heights {h = h1} e), e)
        | inr (x, e) ↦ ground (arith, e)
      ]

  pub update-events :
      (block_height : ℕ) (w v : State)
      → update_processed_block_height fault contract_type contract_address event block_height w
        ≡ (ok tt, v)
      → v.db.events ≡ w.db.events
  unfolding update_processed_block_height with_tx query_height exec
  update-events block_height w v h =
      let p = is_height_of contract_type contract_address event in
      elim (only-cases (keep p w.db.heights)) [
        | inl (h1, e) ↦ ground (arith, e)
        | inr (x, e) ↦ ground (arith, e)
      ]

  pub get-height :
      (w v : State) {height : ℕ}
      → check
          (get_processed_block_height fault contract_type contract_address event)
          (λ e. if is_not_found e then pure 0 else raise e)
          pure
          w
        ≡ (ok height, v)
      → (height ≡ height_of contract_type contract_address event w.db) × (v.db ≡ w.db)
  unfolding get_processed_block_height query_height exec
  get-height w v h = ground arith
