-- ===== src/Nft/Actions/Completes/Migrated.antt =====
-- With services that work, a class is migrated to its end.
-- (migration-backend/pkg/logic/likenft/migrate_class.go)
use likecoin_op.Base.{
  suc, ◌≡◌, refl, ap, ◌∙◌, ◌⊎◌, inl, inr, false, Option, none, some, List, [], ◌∷◌, ◌==◌, any,
  arith, Text,
}
use likecoin_op.Exec.{exec, ok, check, raise, halt, nil_dereference, bump}
use likecoin_op.Exec.Steps.{check-ok}
use likecoin_op.Nft.Actions.Model.{
  ActionStatus, LikeNftMigrationActionNewClass, LikeNftMigrationActionTransferClass, Request,
  MsgNewBookNft, new_book_nft, submit_evm_book_migrated, transfer_ownership, State, query_new_class,
  insert_new_class,
}
use likecoin_op.Ethereum.{given}
use likecoin_op.Nft.Actions.Calls.{Env}
use likecoin_op.Nft.Actions.NewClass.{
  Initial, initial_new_class, get_or_create_new_class, new_class_by, do_new_class,
}
use likecoin_op.Nft.Actions.NewClass.Announce.{get_or_create-At}
use likecoin_op.Nft.Actions.TransferClass.{
  initial_transfer_class, get_or_create_transfer_class, transfer_class_by, do_transfer_class,
}
use likecoin_op.Nft.Actions.Migrate.{migrate_class}
use likecoin_op.Nft.Actions.Sound.{row_of}
use likecoin_op.Nft.Actions.Completes.{Works, returned}
use likecoin_op.Nft.Actions.Completes.Transfers.{transfers, transfer_created}
use likecoin_op.Nft.Actions.Completes.Deploys.{Held, Deploys, begin-Deploys}

-- An action that a task may take up: it waits, it has failed, or it is completed with its class.
abbrev pub Startable : ActionStatus → Option Text → Type 0
Startable ActionStatus.init e = Unit {0}
Startable ActionStatus.failed e = Unit {0}
Startable ActionStatus.completed e = (id : Text) × (e ≡ some id)
Startable ActionStatus.in_progress e = ⊥
Startable ActionStatus.other e = ⊥

-- No row has the class, or its row can be taken up.
abbrev pub Ready : Text → State → Type 0
Ready class w =
    (any (λ (b : LikeNftMigrationActionNewClass). b.cosmos_class_id == class) w.db.new_classes
      ≡ false)
    ⊎ ((a : LikeNftMigrationActionNewClass) × (row_of class w.db.new_classes ≡ some a)
        × Startable a.status a.evm_class_id)

find-none :
    (class : Text) (rows : List LikeNftMigrationActionNewClass)
    → any (λ (b : LikeNftMigrationActionNewClass). b.cosmos_class_id == class) rows ≡ false
    → row_of class rows ≡ none
find-none class [] h = refl
find-none class (a ∷ rows) h = ground (arith, h, find-none class rows)

-- What a migration of a class has done: the transfer that it returns, the row of the class, and what was
-- sent.
pub record Migrated (env : Env) (class cosmos_owner evm_owner : Text) (w v : State)
    (t : LikeNftMigrationActionTransferClass) : Type 0 where
  pub done : t.status ≡ ActionStatus.completed
  pub evm_class_id : Text
  pub row : LikeNftMigrationActionNewClass
  pub held : row_of class v.db.new_classes ≡ some row
  pub deployed : row.evm_class_id ≡ some evm_class_id
  pub transferred : t.evm_class_id ≡ evm_class_id
  pub from : t.cosmos_owner ≡ cosmos_owner
  pub to : t.evm_owner ≡ evm_owner
  pub before : List Request
  pub asked :
      v.net
      ≡ transfer_ownership (env.hex_to_address evm_class_id) (env.hex_to_address evm_owner) ∷ before
  pub deploys :
      (before ≡ w.net)
      ⊎ ((msg : MsgNewBookNft) × (before
            ≡ submit_evm_book_migrated class evm_class_id ∷ new_book_nft msg ∷ w.net))

module _ (env : Env) (works : Works env) where
  created :
      (class : Text) (initial : Initial) (w : State)
      → Ready class w
      → (a : LikeNftMigrationActionNewClass) × (v : State) × (get_or_create_new_class env class
            initial w
          ≡ (ok a, v))
        × Startable a.status a.evm_class_id
        × (v.db.transfer_classes ≡ w.db.transfer_classes)
        × (v.net ≡ w.net)
  unfolding get_or_create_new_class query_new_class insert_new_class exec
  created class initial w (inl fresh) =
      let free = find-none class w.db.new_classes fresh in
      let up = works.up w.tick in
      let up2 = works.up (suc w.tick) in
      let a = record (initial_new_class class initial) { id = w.db.next_new_class } in
      (
        a,
        record w {
          tick = suc (suc w.tick);
          db = record w.db {
            new_classes = a ∷ w.db.new_classes;
            next_new_class = suc w.db.next_new_class;
          };
        },
        ground (arith, free, fresh, up, up2),
        tt,
        refl,
        refl,
      )
  created class initial w (inr (a, found, can)) =
      let up = works.up w.tick in (a, bump w, ground (arith, found, up), can, refl, refl)

  do_new-Deploys :
      (class : Text) (status : ActionStatus) (a : LikeNftMigrationActionNewClass) (w : State)
      → Startable status a.evm_class_id
      → Held class a w
      → Deploys class (new_class_by env status a) w
  unfolding new_class_by
  do_new-Deploys class ActionStatus.init a w can held = begin-Deploys env works class a w held
  do_new-Deploys class ActionStatus.failed a w can held = begin-Deploys env works class a w held
  do_new-Deploys class ActionStatus.completed a w (id, known) held =
      (a, w, returned a w, (id, known, inl refl), refl, held)
  do_new-Deploys class ActionStatus.in_progress a w can held = absurd can
  do_new-Deploys class ActionStatus.other a w can held = absurd can

  -- With services that work, a class that has no action yet, or whose action waits, has failed or is
  -- completed, is migrated, where no class was transferred before. The call returns the completed transfer
  -- of the class of the new chain that the row of the class names, to its owner; the ownership of that
  -- class was asked to be transferred to that owner, and before it at most the new class was asked for and
  -- announced for the class of Cosmos.
  pub migrate_class_completes :
      (class : Text) (initial : Initial) (cosmos_owner evm_owner : Text) (w : State)
      → Ready class w
      → w.db.transfer_classes ≡ []
      → (t : LikeNftMigrationActionTransferClass) × (v : State) × (migrate_class env class initial
            cosmos_owner evm_owner w
          ≡ (ok t, v))
        × Migrated env class cosmos_owner evm_owner w v t
  unfolding migrate_class do_new_class do_transfer_class transfer_class_by
  migrate_class_completes class initial cosmos_owner evm_owner w ready empty =
      let (a, u, e, can, kept, quiet) = created class initial w ready in
      let held : Held class a u = get_or_create-At env class initial w u {a = a} e in
      let (b, u2, e2, (id, known, sent), kept2, held2) =
        do_new-Deploys class a.status a u can held in
      let (u3, (e3, there, quiet3, rows3)) =
        transfer_created env works id cosmos_owner evm_owner u2 (kept2 ∙ kept ∙ empty) in
      let row = record (initial_transfer_class id cosmos_owner evm_owner) {
        id = u2.db.next_transfer_class;
      } in
      let (t, v, e4, done, is_class, owned, from, asked, rows4) =
        transfers env works row row u3 there refl in
      let last = λ (id : Text).
        check (get_or_create_transfer_class env id cosmos_owner evm_owner) raise
          λ transfer. do_transfer_class env transfer in
      let rest =
        λ (b : LikeNftMigrationActionNewClass). given b.evm_class_id (halt nil_dereference) last in
      (
        t,
        v,
        check-ok (get_or_create_new_class env class initial) raise
              (λ created. check (do_new_class env created) raise rest) w u a e
            ∙ check-ok (do_new_class env a) raise rest u u2 b e2
            ∙ ap (λ o. given o (halt nil_dereference) last u2) known
            ∙ check-ok (get_or_create_transfer_class env id cosmos_owner evm_owner) raise
                (λ transfer. do_transfer_class env transfer) u2 u3 row e3
            ∙ e4,
        record {
          done = done;
          evm_class_id = id;
          row = b;
          held = ap (row_of class) (rows4 ∙ rows3) ∙ held2;
          deployed = known;
          transferred = is_class;
          from = from;
          to = owned;
          before = u2.net;
          asked =
              asked
              ∙ ap
                  (λ net.
                    transfer_ownership (env.hex_to_address id) (env.hex_to_address evm_owner) ∷ net)
                  quiet3;
          deploys = elim sent [
            | inl none_sent ↦ inl (none_sent ∙ quiet)
            | inr (msg, told) ↦ inr (
              msg,
              told ∙ ap (λ net. submit_evm_book_migrated class id ∷ new_book_nft msg ∷ net) quiet,
            )
          ];
        },
      )
