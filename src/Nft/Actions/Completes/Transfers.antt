-- ===== src/Nft/Actions/Completes/Transfers.antt =====
-- With services that work, a class of the new chain is transferred.
-- (migration-backend/pkg/logic/likenft/do_transfer_class_action.go)
use likecoin_op.Base.{suc, ◌≡◌, refl, ap, ◌∙◌, [], ◌∷◌, arith, Text}
use likecoin_op.Exec.{exec, ok, check, raise, pure, db_call}
use likecoin_op.Exec.Steps.{check-ok}
use likecoin_op.Nft.Actions.Model.{
  ActionStatus, LikeNftMigrationActionTransferClass, Tables, transfer_ownership, State,
  query_transfer_class, insert_transfer_class, update_transfer_class,
}
use likecoin_op.Ethereum.{Receipt, send}
use likecoin_op.Nft.Actions.Calls.{Env}
use likecoin_op.Nft.Actions.TransferClass.{
  initial_transfer_class, get_or_create_transfer_class, transfer_class_failed,
  completed_transfer_class, begun_transfer_class, begin_transfer_class,
}
use likecoin_op.Nft.Actions.Completes.{Works, returned, send-Answers}

module _ (env : Env) (works : Works env) where
  update_transfer-ok :
      (a b : LikeNftMigrationActionTransferClass) (w : State)
      → w.db.transfer_classes ≡ b ∷ []
      → a.id ≡ b.id
      → (v : State) × (db_call env.fault (update_transfer_class a) w ≡ (ok tt, v))
        × (v.db.transfer_classes ≡ a ∷ [])
        × (v.net ≡ w.net)
        × (v.db.new_classes ≡ w.db.new_classes)
  unfolding update_transfer_class exec
  update_transfer-ok a b w e same =
      let up = works.up w.tick in
      (
        record w { tick = suc w.tick; db = (update_transfer_class a w.db).1 },
        ground (arith, e, same, up),
        ground (arith, e, same),
        refl,
        refl,
      )

  pub transfers :
      (a b : LikeNftMigrationActionTransferClass) (w : State)
      → w.db.transfer_classes ≡ b ∷ []
      → a.id ≡ b.id
      → (t : LikeNftMigrationActionTransferClass) × (v : State) × (begin_transfer_class env a w
          ≡ (ok t, v))
        × (t.status ≡ ActionStatus.completed)
        × (t.evm_class_id ≡ a.evm_class_id)
        × (t.evm_owner ≡ a.evm_owner)
        × (t.cosmos_owner ≡ a.cosmos_owner)
        × (v.net
            ≡ transfer_ownership
                (env.hex_to_address a.evm_class_id)
                (env.hex_to_address a.evm_owner)
              ∷ w.net)
        × (v.db.new_classes ≡ w.db.new_classes)
  unfolding begin_transfer_class
  transfers row b w e same =
      let a = begun_transfer_class env row in
      let (u, begun, there, quiet, rows) = update_transfer-ok a b w e same in
      let r =
        transfer_ownership (env.hex_to_address a.evm_class_id) (env.hex_to_address a.evm_owner) in
      let ((hash, receipt), v, sent, kept, asked, _) = send-Answers env works r u in
      let t = completed_transfer_class env a hash in
      let (x, done, _, quiet2, rows2) =
        update_transfer-ok t a v (ap (λ (d : Tables). d.transfer_classes) kept ∙ there) refl in
      let finish = λ (y : Text × Receipt).
        let c = completed_transfer_class env a y.0 in
        check (db_call env.fault (update_transfer_class c)) (transfer_class_failed env c)
          λ _. pure c in
      (
        t,
        x,
        check-ok (db_call env.fault (update_transfer_class a)) raise
              (λ _. check (send env.chain r) (transfer_class_failed env a) finish) w u tt begun
            ∙ check-ok (send env.chain r) (transfer_class_failed env a) finish u v (hash, receipt)
                sent
            ∙ check-ok (db_call env.fault (update_transfer_class t)) (transfer_class_failed env t)
                (λ _. pure t) v x tt done
            ∙ returned t x,
        refl,
        refl,
        refl,
        refl,
        quiet2 ∙ asked ∙ ap (λ net. r ∷ net) quiet,
        rows2 ∙ ap (λ (d : Tables). d.new_classes) kept ∙ rows,
      )

  pub transfer_created :
      (evm_class_id cosmos_owner evm_owner : Text) (w : State)
      → w.db.transfer_classes ≡ []
      → (v : State) × (let a = record (initial_transfer_class evm_class_id cosmos_owner evm_owner) {
        id = w.db.next_transfer_class;
      } in
          (get_or_create_transfer_class env evm_class_id cosmos_owner evm_owner w ≡ (ok a, v))
          × (v.db.transfer_classes ≡ a ∷ [])
          × (v.net ≡ w.net)
          × (v.db.new_classes ≡ w.db.new_classes))
  unfolding get_or_create_transfer_class query_transfer_class insert_transfer_class exec
  transfer_created evm_class_id cosmos_owner evm_owner w empty =
      let up = works.up w.tick in
      let up2 = works.up (suc w.tick) in
      let a = record (initial_transfer_class evm_class_id cosmos_owner evm_owner) {
        id = w.db.next_transfer_class;
      } in
      (
        record w {
          tick = suc (suc w.tick);
          db = record w.db {
            transfer_classes = a ∷ w.db.transfer_classes;
            next_transfer_class = suc w.db.next_transfer_class;
          };
        },
        (ground (arith, empty, up, up2), ap (λ l. a ∷ l) empty, refl, refl),
      )
