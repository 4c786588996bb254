-- ===== src/Nft/Actions/Completes/Deploys.antt =====
-- With services that work, the two actions of a class are completed.
-- (migration-backend/pkg/logic/likenft/migrate_class.go)
use likecoin_op.Base.{
  ℕ, suc, ◌≡◌, refl, ap, ◌∙◌, some, ◌∷◌, arith, Text, ◌⊎◌, inr, find-any, find-replace, find-holds,
  eq_of_test,
}
use likecoin_op.Exec.{
  exec, ok, check, raise, pure, halt, db_call, outside, rpc_error, no_event, nil_dereference, bump,
  ◌>>=◌,
}
use likecoin_op.Exec.Steps.{check-ok, db_call-up}
use likecoin_op.Ethereum.{given}
use likecoin_op.Nft.Actions.Model.{
  LikeNftMigrationActionNewClass, Tables, MsgNewBookNft, new_book_nft, submit_evm_book_migrated,
  Action, State, affected, update_new_class,
}
use likecoin_op.Nft.Actions.Calls.{Env, Class, new_book, get_class_id, make_metadata}
use likecoin_op.Nft.Actions.NewClass.{
  lift, new_class_failed, max_supply, message, completed_new_class, start_submission, deploy,
  prepare, begun_new_class, begin_new_class,
}
use likecoin_op.Nft.Actions.Sound.{of_class, row_of, has_id}
use likecoin_op.Nft.Actions.Completes.{Works, returned, outside-Answers, send-Answers}

-- The action is the row of the class.
abbrev pub Held : Text → LikeNftMigrationActionNewClass → State → Type 0
Held class a w = row_of class w.db.new_classes ≡ some a

-- Nothing was sent, or the new class was asked for and announced for its class of Cosmos.
abbrev pub Deployed : Text → Text → State → State → Type 0
Deployed class id w v =
    (v.net ≡ w.net)
    ⊎ ((msg : MsgNewBookNft) × (v.net
          ≡ submit_evm_book_migrated class id ∷ new_book_nft msg ∷ w.net))

-- The action ends with a class of the new chain, is the row of its class of Cosmos then, and leaves the
-- transfers alone.
abbrev pub Deploys : Text → Action LikeNftMigrationActionNewClass → State → Type 0
Deploys class m w =
    (b : LikeNftMigrationActionNewClass) × (v : State) × (m w ≡ (ok b, v))
    × ((e : Text) × (b.evm_class_id ≡ some e) × Deployed class e w v)
    × (v.db.transfer_classes ≡ w.db.transfer_classes)
    × Held class b v

module _ (env : Env) (works : Works env) (class_id : Text) where
  Held-own :
      (a : LikeNftMigrationActionNewClass) (w : State)
      → Held class_id a w
      → a.cosmos_class_id ≡ class_id
  Held-own a w h =
      let own = find-holds (of_class class_id) w.db.new_classes {a = a} h in
      eq_of_test a.cosmos_class_id class_id (ground (arith, own))

  -- The row of the class is updated.
  update-Held :
      (a b : LikeNftMigrationActionNewClass) (w : State)
      → Held class_id a w
      → b.id ≡ a.id
      → b.cosmos_class_id ≡ a.cosmos_class_id
      → Held class_id b (record w { tick = suc w.tick; db = (update_new_class b w.db).1 })
  unfolding update_new_class
  update-Held a b w h same class =
      let own = find-holds (of_class class_id) w.db.new_classes {a = a} h in
      find-replace (of_class class_id) (has_id b.id) w.db.new_classes {a = a} b h
        (ground (arith, same)) (ground (arith, own, class))

  update_new-ok :
      (a b : LikeNftMigrationActionNewClass) (w : State)
      → Held class_id b w
      → b.id ≡ a.id
      → db_call env.fault (update_new_class a) w
        ≡ (ok tt, record w { tick = suc w.tick; db = (update_new_class a w.db).1 })
  unfolding update_new_class
  update_new-ok a b w h same =
      db_call-up env.fault (update_new_class a) w (works.up w.tick)
      ∙ ap (λ r. (r, record w { tick = suc w.tick; db = (update_new_class a w.db).1 }))
          (ap affected (
            find-any (of_class class_id) (has_id a.id) w.db.new_classes {a = b} h
              (ground (arith, same))))

  submits :
      (a : LikeNftMigrationActionNewClass) (evm_class_id : Text) (w : State)
      → (v : State) × ((start_submission env a.cosmos_class_id evm_class_id >>= λ _. pure a) w
          ≡ (ok a, v))
        × (v.db ≡ w.db)
        × (v.net ≡ submit_evm_book_migrated a.cosmos_class_id evm_class_id ∷ w.net)
  unfolding exec
  submits a evm_class_id w = (_, refl, refl, refl)

  deploy-Deploys :
      (a : LikeNftMigrationActionNewClass) (class : Class) (metadata : Text) (supply : ℕ)
      (w : State)
      → Held class_id a w
      → Deploys class_id (deploy env a class metadata supply) w
  unfolding deploy get_class_id update_new_class
  deploy-Deploys a class metadata supply w held =
      let msg = message env a class metadata supply in
      let ((hash, receipt), u, sent, same, asked, (e, shown)) =
        send-Answers env works (new_book_nft msg) w in
      let b = completed_new_class env a e hash in
      let there : Held class_id a u =
        ap (λ (t : Tables). row_of class_id t.new_classes) same ∙ held in
      let finish = λ (e : Text).
        let b = completed_new_class env a e hash in
        check (db_call env.fault (update_new_class b)) (new_class_failed env b)
          λ _. start_submission env b.cosmos_class_id e >>= λ _. pure b in
      let (v, done, kept, told) =
        submits b e (record u { tick = suc u.tick; db = (update_new_class b u.db).1 }) in
      (
        b,
        v,
        check-ok (new_book env (message env a class metadata supply)) (new_class_failed env a) _ w u
              (hash, receipt) sent
            ∙ check-ok (get_class_id env receipt) (new_class_failed env a) finish u u e
                (ap (λ o. given o (raise no_event) pure u) shown ∙ returned e u)
            ∙ check-ok (db_call env.fault (update_new_class b)) (new_class_failed env b)
                (λ _. start_submission env b.cosmos_class_id e >>= λ _. pure b) u _ tt
                (update_new-ok b a u there refl)
            ∙ done,
        (
          e,
          refl,
          inr (
            msg,
            told
                ∙ ap (λ c. submit_evm_book_migrated c e ∷ u.net) (Held-own a w held)
                ∙ ap (λ net. submit_evm_book_migrated class_id e ∷ net) asked,
          ),
        ),
        ap (λ (t : Tables). t.transfer_classes) kept ∙ ap (λ (t : Tables). t.transfer_classes) same,
        ap (λ (t : Tables). row_of class_id t.new_classes) kept ∙ update-Held a b u there refl refl,
      )

  prepare-Deploys :
      (a : LikeNftMigrationActionNewClass) (w : State)
      → Held class_id a w
      → Deploys class_id (prepare env a) w
  unfolding prepare
  prepare-Deploys a w held =
      let (class, content, known, has, (supply, fits)) = works.classes a.cosmos_class_id w.tick in
      let w1 = bump w in
      let (iscn, e1) = works.iscns content.iscn_id_prefix content.iscn_version_at_mint w1.tick in
      let w2 = bump w1 in
      let (royalty, e2) = works.royalties class.id w2.tick in
      let w3 = bump w2 in
      let (metadata, e3) = works.metadata class iscn royalty in
      let (b, v, done, id, kept, there) = deploy-Deploys a class metadata supply w3 held in
      let failed = new_class_failed env {A = LikeNftMigrationActionNewClass} a in
      let k4 = λ (iscn : Text) (royalty : Text) (supply : ℕ).
        check (lift (make_metadata env (env.class_metadata class iscn royalty))) failed
          λ metadata. deploy env a class metadata supply in
      let k3 = λ (iscn : Text) (royalty : Text).
        check (lift (max_supply env content.max_supply)) failed (k4 iscn royalty) in
      let k2 =
        λ (iscn : Text). check (outside (env.query_royalty class.id) rpc_error) failed (k3 iscn) in
      (
        b,
        v,
        check-ok (outside (env.query_class a.cosmos_class_id) rpc_error) failed _ w w1 class
              (outside-Answers env works (env.query_class a.cosmos_class_id) w class known)
            ∙ ap
                (λ o.
                  given o (halt nil_dereference)
                    (λ content.
                      check
                        (outside
                          (env.query_iscn content.iscn_id_prefix content.iscn_version_at_mint)
                          rpc_error)
                        failed
                        λ iscn.
                          check (outside (env.query_royalty class.id) rpc_error) failed λ royalty.
                            check (lift (max_supply env content.max_supply)) failed
                              (k4 iscn royalty))
                    w1)
                has
            ∙ check-ok
                (outside (env.query_iscn content.iscn_id_prefix content.iscn_version_at_mint)
                  rpc_error)
                failed k2 w1 w2 iscn
                (outside-Answers env works
                  (env.query_iscn content.iscn_id_prefix content.iscn_version_at_mint) w1 iscn e1)
            ∙ check-ok (outside (env.query_royalty class.id) rpc_error) failed (k3 iscn) w2 w3
                royalty (outside-Answers env works (env.query_royalty class.id) w2 royalty e2)
            ∙ check-ok (lift (max_supply env content.max_supply)) failed (k4 iscn royalty) w3 w3
                supply (ap (λ r. (r, w3)) fits)
            ∙ check-ok (lift (make_metadata env (env.class_metadata class iscn royalty))) failed
                (λ metadata. deploy env a class metadata supply) w3 w3 metadata
                (ap (λ o. (make_metadata env o, w3)) e3)
            ∙ done,
        id,
        kept,
        there,
      )

  pub begin-Deploys :
      (a : LikeNftMigrationActionNewClass) (w : State)
      → Held class_id a w
      → Deploys class_id (begin_new_class env a) w
  unfolding begin_new_class update_new_class
  begin-Deploys a w held =
      let b = begun_new_class env a in
      let u : State = record w { tick = suc w.tick; db = (update_new_class b w.db).1 } in
      let (c, v, done, id, kept, there) = prepare-Deploys b u (update-Held a b w held refl refl) in
      (
        c,
        v,
        check-ok (db_call env.fault (update_new_class b)) raise (λ _. prepare env b) w u tt
              (update_new-ok b a w held refl)
            ∙ done,
        id,
        kept,
        there,
      )
