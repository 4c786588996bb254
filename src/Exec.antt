-- ===== src/Exec.antt =====
-- The behaviour that all the Go code shares: calls that return an error value, panics, database
-- calls that may fail, and SQL transactions. (signer-backend/pkg/db/tx.go, migration-backend/pkg/db/tx.go)
pub mod Frame
pub mod Steps
use likecoin_op.Base.{ℕ, suc, Bool, true, false, Option, none, some}

-- Go's error values: those that the libraries return and those that the code declares.
pub data Error : Type 0 where
  no_rows db_error unique_violation check_violation request_not_found : Error
  rpc_error context_done bad_number bad_hex bad_key signing_failed no_code : Error
  in_progress_skipping unknown_status not_init_or_failed not_submitted not_mined tx_failed : Error
  migration_in_progress signature_not_verified not_pending_cosmos_tx_hash already_in_progress :
      Error
  address_not_match minting_key_not_match amount_not_match amount_too_small bad_coin : Error
  migration_not_failed assets_not_matched : Error
  no_rows_affected bad_metadata no_event snapshot_not_init snapshot_in_progress : Error
  not_found not_singular len_not_match already_processing unknown_event unpack_failed
        validation_failed :
      Error
  join : Error → Error → Error

-- `errors.Join` leaves out a nil error.
abbrev pub join_opt : Error → Option Error → Error
join_opt e none = e
join_opt e (some e') = Error.join e e'

-- How a call ends without returning: a nil pointer is dereferenced, `panic` is called, or a channel
-- is read to which nobody will send. A goroutine of its own that panics ends the process (`crashed`), so
-- that no deferred function of the call runs.
pub data Stop : Type 0 where
  nil_dereference panicked blocked crashed : Stop

pub data Result (A : Type 0) : Type 0 where
  ok : A → Result A
  err : Error → Result A
  stop : Stop → Result A

-- The world of a component: the tables `db`, what the network has accepted `net`, and the number of
-- outside calls made so far, by which the environment chooses its answers.
pub record World (T C : Type 0) : Type 0 where
  pub tick : ℕ
  pub db : T
  pub net : C

abbrev pub Exec : Type 0 → Type 0 → Type 0 → Type 0
Exec T C A = World T C → Result A × World T C

module _ {T C : Type 0} where
  unfoldable pub pure : {A : Type 0} → A → Exec T C A
  pure a w = (ok a, w)

  unfoldable pub raise : {A : Type 0} → Error → Exec T C A
  raise e w = (err e, w)

  unfoldable pub halt : {A : Type 0} → Stop → Exec T C A
  halt s w = (stop s, w)

  -- A call of a function that touches nothing.
  abbrev pub lift : {A : Type 0} → Result A → Exec T C A
  lift r w = (r, w)

  infixl 5 ◌>>=◌ ◌>>◌
  unfoldable pub ◌>>=◌ : {A B : Type 0} → Exec T C A → (A → Exec T C B) → Exec T C B
  ◌>>=◌ m f w =
      let (r, w') = m w in elim r [ ok a ↦ f a w' | err e ↦ (err e, w') | stop s ↦ (stop s, w') ]

  abbrev pub ◌>>◌ : {A B : Type 0} → Exec T C A → Exec T C B → Exec T C B
  m >> k = m >>= λ _. k

  -- `a, err := m(); if err != nil { return handler(err) }; k(a)`
  unfoldable pub check :
      {A B : Type 0} → Exec T C A → (Error → Exec T C B) → (A → Exec T C B) → Exec T C B
  check m handler k w =
      let (r, w') = m w in elim r [ ok a ↦ k a w' | err e ↦ handler e w' | stop s ↦ (stop s, w') ]

  -- `err = m()` with the error kept as a value.
  abbrev pub error_of : {A : Type 0} → Exec T C A → Exec T C (Option Error)
  error_of m = check m (λ e. pure (some e)) (λ _. pure none)

  abbrev pub bump : World T C → World T C
  bump w = record w { tick = suc w.tick }

  -- A call to an outside service, which answers by the number of the call.
  unfoldable pub outside : {A : Type 0} → (ℕ → Option A) → Error → Exec T C A
  outside answer e w = elim (answer w.tick) [ none ↦ (err e, bump w) | some a ↦ (ok a, bump w) ]

  module _ (fault : ℕ → Bool) where
    -- A statement sent to the database: it fails as the environment says, and changes nothing then.
    unfoldable pub db_call : {A : Type 0} → (T → Result A × T) → Exec T C A
    db_call f w = elim (fault w.tick) [
      | true ↦ (err db_error, bump w)
      | false ↦ ((f w.db).0, record w { tick = suc w.tick; db = (f w.db).1 })
    ]

    -- `BeginTx`: the tables as they are, to which a rollback returns.
    unfoldable pub begin_tx : Exec T C T
    begin_tx = db_call (λ t. (ok t, t))

    -- `Commit`: a commit that fails leaves nothing of the transaction.
    unfoldable pub commit : T → Exec T C (Unit {0})
    commit before w = elim (fault w.tick) [
      | true ↦ (err db_error, record w { tick = suc w.tick; db = before })
      | false ↦ (ok tt, bump w)
    ]

    -- `Rollback`: the server drops the transaction also where the client sees an error.
    unfoldable pub rollback : T → Exec T C (Unit {0})
    rollback before w = (
      elim (fault w.tick) [ true ↦ err db_error | false ↦ ok tt ],
      record w { tick = suc w.tick; db = before },
    )

-- Named on an `unfolding` line, it opens every action above.
unfoldable pub exec : Unit {0}
unfolding pure raise halt ◌>>=◌ check outside db_call begin_tx commit rollback
exec = tt
