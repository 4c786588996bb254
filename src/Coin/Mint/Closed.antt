-- ===== src/Coin/Mint/Closed.antt =====
-- A payment closes its migration: no later call pays it again.
-- (migration-backend/pkg/logic/likecoin/do_mint_likecoin.go)
use likecoin_op.Base.{
  ℕ, ◌≡◌, refl, sym, ap, ◌∙◌, ◌⊎◌, inl, inr, Bool, true, false, some, List, [], ◌∷◌, ◌==◌, find,
  replace, arith, Text,
}
use mathlib.Core.Path.{subst}
use likecoin_op.Exec.{exec, Error, Result, ok, err, stop, Stop, lift, db_call}
use likecoin_op.Exec.Frame.{
  Frame, Keeps, Keeps-check, Keeps-bind, Keeps-raise, Keeps-pure, Keeps-outside,
}
use likecoin_op.Exec.Steps.{check-cases}
use likecoin_op.Ethereum.Quiet.{send-SameDb}
use likecoin_op.Coin.Model.{
  Status, verifying_cosmos_tx, evm_minting, failed, LikeCoinMigration, Tables, Coin, Action, State,
  Env, update_migration,
}
use likecoin_op.Coin.Mint.{do_mint_failed, transfer_to, pay}
use likecoin_op.Coin.Mint.Sends.{failed-net, update-net}
use likecoin_op.Coin.Mint.Payment.{latest}

abbrev pub is_waiting : Status → Bool
is_waiting verifying_cosmos_tx = true
is_waiting _ = false

-- The latest migration of the address has the id and does not wait for its payment.
abbrev pub Closed : Text → ℕ → Tables → Type 0
Closed address id t =
    (r : LikeCoinMigration) × (latest address t ≡ some r)
    × (r.id ≡ id)
    × (is_waiting r.status ≡ false)

-- The row is the migration of the address under the id, and does not wait.
record Ended (address : Text) (id : ℕ) (r : LikeCoinMigration) : Type 0 where
  own : r.user_cosmos_address ≡ address
  same : r.id ≡ id
  ended : is_waiting r.status ≡ false

latest-replace :
    (address : Text) (r : LikeCoinMigration) (ms : List LikeCoinMigration) {a : LikeCoinMigration}
    → find (λ (m : LikeCoinMigration). m.user_cosmos_address == address) ms ≡ some a
    → r.id ≡ a.id
    → r.user_cosmos_address ≡ address
    → find
        (λ (m : LikeCoinMigration). m.user_cosmos_address == address)
        (replace (λ (m : LikeCoinMigration). m.id == r.id) (λ _. r) ms)
      ≡ some r
latest-replace address r [] h e o = cc
latest-replace address r (m ∷ ms) {a} h e o =
    ground (arith, latest-replace address r ms {a = a}, e, o)

module _ (env : Env) (address : Text) (id : ℕ) where
  update-closes :
      (r : LikeCoinMigration) (w v : State) {a : LikeCoinMigration}
      → Ended address id r
      → latest address w.db ≡ some a
      → a.id ≡ id
      → db_call env.fault (update_migration r) w ≡ (ok tt, v)
      → latest address v.db ≡ some r
  unfolding update_migration exec
  update-closes r w v {a} e h i p =
      let stored = latest-replace address r w.db.migrations {a = a} h (e.same ∙ sym i) e.own in
      ground (arith, stored)

  update-refused :
      (r : LikeCoinMigration) (w : State) {e : Error}
      → (db_call env.fault (update_migration r) w).0 ≡ err e
      → (db_call env.fault (update_migration r) w).1.db ≡ w.db
  unfolding update_migration exec
  update-refused r w p = ground arith

  update-stopped :
      (r : LikeCoinMigration) (w : State) {s : Stop}
      → (db_call env.fault (update_migration r) w).0 ≡ stop s
      → (db_call env.fault (update_migration r) w).1.db ≡ w.db
  unfolding update_migration exec
  update-stopped r w p = ground arith

  update-db-cases :
      (r : LikeCoinMigration) (w : State)
      → (db_call env.fault (update_migration r) w
          ≡ (ok tt, (db_call env.fault (update_migration r) w).1))
        ⊎ ((db_call env.fault (update_migration r) w).1.db ≡ w.db)
  update-db-cases r w = go (db_call env.fault (update_migration r) w).0 refl
    where
      go :
          (x : Result (Unit {0}))
          → (db_call env.fault (update_migration r) w).0 ≡ x
          → (db_call env.fault (update_migration r) w
              ≡ (ok tt, (db_call env.fault (update_migration r) w).1))
            ⊎ ((db_call env.fault (update_migration r) w).1.db ≡ w.db)
      go (ok _) p = inl (λ i. (p i, (db_call env.fault (update_migration r) w).1))
      go (err e) p = inr (update-refused r w p)
      go (stop s) p = inr (update-stopped r w p)

  abbrev KeepsClosed : {A : Type 0} → Action A → Type 0
  KeepsClosed = Keeps (λ u v. Closed address id u.db → Closed address id v.db)

  Closed-frame : Frame (λ (u v : State). Closed address id u.db → Closed address id v.db)
  Closed-frame = record { same = λ w h. h; trans = λ u v w p q h. q (p h); tick = λ w h. h }

  update-Closed :
      (r : LikeCoinMigration)
      → Ended address id r
      → KeepsClosed (db_call env.fault (update_migration r))
  update-Closed r e = record {
    at = λ w h. elim (update-db-cases r w) [
      | inl done ↦ (r, update-closes r w _ {a = h.0} e h.1 h.2 done, e.same, e.ended)
      | inr same ↦ subst (Closed address id) (sym same) h
    ];
  }

  failed-Closed :
      (a : LikeCoinMigration) (x : Error)
      → a.user_cosmos_address ≡ address
      → a.id ≡ id
      → KeepsClosed (do_mint_failed env a x)
  unfolding do_mint_failed
  failed-Closed a x o i =
      Keeps-bind Closed-frame _ _
        (Keeps-check Closed-frame _ _ _
          (update-Closed (record a { status = failed; failed_reason = some x })
            (record { own = o; same = i; ended = refl }))
          (λ e. Keeps-pure Closed-frame _) (λ _. Keeps-pure Closed-frame _))
        (λ failure. Keeps-raise Closed-frame _)

  lift-Closed : (r : Result ℕ) → KeepsClosed (lift r)
  lift-Closed r = record { at = λ w h. h }

  transfer-Closed : (to : Text) (value : ℕ) → KeepsClosed (transfer_to env to value)
  unfolding transfer_to
  transfer-Closed to value = record {
    at = λ w h.
        subst (Closed address id)
          (sym ((send-SameDb env.chain (record { to = to; value = value })).at w)) h;
  }

  -- A call that starts with the latest migration waiting sends nothing or leaves it closed.
  abbrev pub Closes : State → State → Type 0
  Closes w v = (v.net ≡ w.net) ⊎ Closed address id v.db

  pub pay-Closes :
      (m : LikeCoinMigration) (recovered : Text) (coin : Coin) (w : State) {a : LikeCoinMigration}
      → latest address w.db ≡ some a
      → a.id ≡ id
      → m.user_cosmos_address ≡ address
      → m.id ≡ id
      → Closes w (pay env m recovered coin w).1
  unfolding pay
  pay-Closes m recovered coin w {a} h i o s =
      let F = Closed-frame in
      let b : LikeCoinMigration = record m { status = evm_minting } in
      let e : Ended address id b = record { own = o; same = s; ended = refl } in
      let fails : (x : Error) → KeepsClosed (do_mint_failed env b x) = λ x. failed-Closed b x o s in
      check-cases (Closes w) (db_call env.fault (update_migration b)) (do_mint_failed env b) _ w
        (λ _ v p. inr (
          (Keeps-check F _ _ _ (Keeps-outside F _ _) fails λ old.
              Keeps-check F _ _ _ (Keeps-outside F _ _) fails λ new.
                Keeps-check F _ _ _ (lift-Closed _) fails λ amount.
                  Keeps-check F _ _ _ (transfer-Closed _ _) fails λ hash.
                    Keeps-check F _ _ _
                      (update-Closed _ (record { own = o; same = s; ended = refl }))
                      (λ x. failed-Closed _ x o s) (λ _. Keeps-pure F _)).at
            v (b, update-closes b w v {a = a} e h i p, s, refl)))
        (λ x v p. inl (failed-net env b x v ∙ sent w v p)) (λ x v p. inl (sent w v p))
    where
      sent :
          (w v : State) {r : Result (Unit {0})}
          → db_call env.fault (update_migration (record m { status = evm_minting })) w ≡ (r, v)
          → v.net ≡ w.net
      sent w v {r} p =
          ap (λ (s : Result (Unit {0}) × State). s.1.net) (sym p)
          ∙ update-net env (record m { status = evm_minting }) w
