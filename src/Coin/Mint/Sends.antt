-- ===== src/Coin/Mint/Sends.antt =====
-- Steps that send nothing and steps that send one transfer.
-- (migration-backend/pkg/logic/likecoin/do_mint_likecoin.go)
use likecoin_op.Base.{
  ℕ, ◌≡◌, refl, sym, ap, ◌∙◌, ◌⊎◌, inl, inr, Bool, true, false, if◌then◌else◌, none, Option, some,
  ◌∷◌, arith, Text,
}
use likecoin_op.Exec.{
  exec, Error, Result, ok, err, stop, lift, check, pure, db_call, outside, rpc_error,
}
use likecoin_op.Exec.Steps.{check-cases}
use mathlib.Core.Path.{subst}
use likecoin_op.Ethereum.{given, Receipt, send}
use likecoin_op.Ethereum.Quiet.{send-net-cases}
use likecoin_op.Coin.Convert.{convert_amount_by_decimals}
use likecoin_op.Coin.Model.{LikeCoinMigration, Transfer, Coin, Action, State, Env, update_migration}
use likecoin_op.Coin.Mint.{do_mint_failed, transfer_to, pay}

module _ (env : Env) where
  pub failed-net :
      (a : LikeCoinMigration) (e : Error) (w : State) → (do_mint_failed env a e w).1.net ≡ w.net
  unfolding do_mint_failed update_migration exec
  failed-net a e w = ground arith

  -- Nothing was sent, or one transfer with the property.
  abbrev pub Sends : (Transfer → Type 0) → State → State → Type 0
  Sends P w v = (v.net ≡ w.net) ⊎ ((t : Transfer) × (v.net ≡ t ∷ w.net) × P t)

  pub Sends-from :
      (P : Transfer → Type 0) (w u v : State) → u.net ≡ w.net → Sends P u v → Sends P w v
  Sends-from P w u v e (inl same) = inl (same ∙ e)
  Sends-from P w u v e (inr (t, sent, p)) = inr (t, sent ∙ ap (λ ts. t ∷ ts) e, p)

  -- A step that sends nothing, before steps that may.
  pub Sends-check :
      {A : Type 0} (P : Transfer → Type 0) (a : LikeCoinMigration) (m : Action A)
      (k : A → Action LikeCoinMigration)
      → ((w : State) → (m w).1.net ≡ w.net)
      → ((x : A) (u v : State) → m u ≡ (ok x, v) → Sends P v (k x v).1)
      → (w : State) → Sends P w (check m (do_mint_failed env a) k w).1
  Sends-check {A} P a m k quiet sends w =
      check-cases (Sends P w) m (do_mint_failed env a) k w
        (λ x u p. Sends-from P w u (k x u).1 (moved u p) (sends x w u p))
        (λ e u p.
          Sends-from P w u (do_mint_failed env a e u).1 (moved u p) (inl (failed-net a e u)))
        (λ s u p. inl (moved u p))
    where
      moved : (u : State) {r : Result A} → m w ≡ (r, u) → u.net ≡ w.net
      moved u {r} p = ap (λ (s : Result A × State). s.1.net) (sym p) ∙ quiet w

  pub update-net :
      (a : LikeCoinMigration) (w : State) → (db_call env.fault (update_migration a) w).1.net ≡ w.net
  unfolding update_migration exec
  update-net a w = ground arith

  pub outside-net :
      {A : Type 0} (answer : ℕ → Option A) (w : State) → (outside answer rpc_error w).1.net ≡ w.net
  unfolding exec
  outside-net answer w = ground arith

  -- A step that sends the transfer or nothing, whatever its end, before steps that send nothing.
  pub transfer-Sends :
      (P : Transfer → Type 0) (a : LikeCoinMigration) (to : Text) (value : ℕ)
      (k : Text × Receipt → Action LikeCoinMigration) (w : State)
      → P (record { to = to; value = value })
      → ((x : Text × Receipt) (u : State) → (k x u).1.net ≡ u.net)
      → Sends P w (check (transfer_to env to value) (do_mint_failed env a) k w).1
  unfolding transfer_to
  transfer-Sends P a to value k w p quiet =
      let r : Transfer = record { to = to; value = value } in
      let after : (u v : State)
          → v.net ≡ u.net
          → (u.net ≡ w.net) ⊎ (u.net ≡ r ∷ w.net)
          → Sends P w v =
        λ u v same sent. elim sent [
          | inl none_sent ↦ inl (same ∙ none_sent)
          | inr one_sent ↦ inr (r, same ∙ one_sent, p)
        ] in
      check-cases (Sends P w) (send env.chain r) (do_mint_failed env a) k w
        (λ x u q. after u (k x u).1 (quiet x u) (asked r w u q))
        (λ e u q. after u (do_mint_failed env a e u).1 (failed-net a e u) (asked r w u q))
        (λ s u q. after u u refl (asked r w u q))
    where
      asked :
          (r : Transfer) (w u : State) {x : Result (Text × Receipt)}
          → send env.chain r w ≡ (x, u)
          → (u.net ≡ w.net) ⊎ (u.net ≡ r ∷ w.net)
      asked r w u {x} q =
          subst (λ (v : State). (v.net ≡ w.net) ⊎ (v.net ≡ r ∷ w.net)) (ap (λ s. s.1) q)
            (send-net-cases env.chain r w)

  pub last-net :
      (b : LikeCoinMigration) (w : State)
      → (check
          (db_call env.fault (update_migration b))
          (do_mint_failed env b)
          (λ _. pure b)
          w).1.net
        ≡ w.net
  unfolding do_mint_failed update_migration exec
  last-net b w = ground arith

  pub lift-Sends :
      {A : Type 0} (P : Transfer → Type 0) (a : LikeCoinMigration) (r : Result A)
      (k : A → Action LikeCoinMigration)
      → ((x : A) → r ≡ ok x → (u : State) → Sends P u (k x u).1)
      → (w : State) → Sends P w (check (lift r) (do_mint_failed env a) k w).1
  unfolding check
  lift-Sends P a (ok x) k sends w = sends x refl w
  lift-Sends P a (err e) k sends w = inl (failed-net a e w)
  lift-Sends P a (stop s) k sends w = inl refl

  pub Sends-given :
      {A : Type 0} (P : Transfer → Type 0) (a : LikeCoinMigration) (e : Error) (o : Option A)
      (k : A → Action LikeCoinMigration)
      → ((x : A) → o ≡ some x → (u : State) → Sends P u (k x u).1)
      → (w : State) → Sends P w (given o (do_mint_failed env a e) k w).1
  Sends-given P a e none k sends w = inl (failed-net a e w)
  Sends-given P a e (some x) k sends w = sends x refl w

  pub Sends-if :
      (P : Transfer → Type 0) (a : LikeCoinMigration) (e : Error) (b : Bool)
      (m : Action LikeCoinMigration)
      → (b ≡ true → (u : State) → Sends P u (m u).1)
      → (w : State) → Sends P w ((if b then m else do_mint_failed env a e) w).1
  Sends-if P a e true m sends w = sends refl w
  Sends-if P a e false m sends w = inl (failed-net a e w)

  pub Sends-unless :
      (P : Transfer → Type 0) (a : LikeCoinMigration) (e : Error) (b : Bool)
      (m : Action LikeCoinMigration)
      → ((u : State) → Sends P u (m u).1)
      → (w : State) → Sends P w ((if b then do_mint_failed env a e else m) w).1
  Sends-unless P a e true m sends w = inl (failed-net a e w)
  Sends-unless P a e false m sends w = sends w

  pub outside-answer :
      {A : Type 0} (answer : ℕ → Option A) {x : A} (w v : State)
      → outside answer rpc_error w ≡ (ok x, v)
      → answer w.tick ≡ some x
  unfolding exec
  outside-answer answer {x} w v h = ground arith

  -- The amount in the decimals that the two chains have answered.
  pub record Converted (amount value : ℕ) : Type 0 where
    pub old_decimals : ℕ
    pub old_tick : ℕ
    pub old_known : env.old_decimals old_tick ≡ some old_decimals
    pub new_decimals : ℕ
    pub new_tick : ℕ
    pub new_known : env.new_decimals new_tick ≡ some new_decimals
    pub is_value : convert_amount_by_decimals amount old_decimals new_decimals ≡ ok value

  -- Paying sends at most one transfer, of the converted amount and to the address.
  pub pay-Sends :
      (m : LikeCoinMigration) (recovered : Text) (coin : Coin) (w : State)
      → Sends
          (λ t. (t.to ≡ recovered) × Converted coin.amount t.value)
          w
          (pay env m recovered coin w).1
  unfolding pay
  pay-Sends m recovered coin = Sends-check _ _ _ _ (update-net _) λ _ _ _ _.
      Sends-check _ _ _ _ (outside-net env.old_decimals)
        (λ old u1 v1 p1.
          Sends-check _ _ _ _ (outside-net env.new_decimals)
            (λ new u2 v2 p2.
              lift-Sends _ _ _ _
                (λ value e u3.
                  transfer-Sends _ _ recovered value _ u3
                    (
                      refl,
                      record {
                        old_decimals = old;
                        old_tick = u1.tick;
                        old_known = outside-answer env.old_decimals {x = old} u1 v1 p1;
                        new_decimals = new;
                        new_tick = u2.tick;
                        new_known = outside-answer env.new_decimals {x = new} u2 v2 p2;
                        is_value = e;
                      },
                    )
                    (λ x. last-net _))
                v2)
            v1)
        _
