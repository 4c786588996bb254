-- ===== src/Nft/Snapshot/Tests.antt =====
-- Snapshots of a small wallet. (migration-backend/pkg/logic/likenft/snapshot_cosmos_state.go)
use likecoin_op.Base.{ℕ, ◌≡◌, refl, ◌==◌, some, [], ◌∷◌, length}
use likecoin_op.Exec.{exec}
use likecoin_op.Nft.Snapshot.{
  Env, with_db_tx, with_db_tx_outside, insert_snapshot_classes, insert_snapshot_nfts,
  snapshot_failed, store_snapshot, take_snapshot, execute_by, execute, create_preview,
}
use likecoin_op.Nft.Snapshot.Model.{
  State, query_snapshot, query_latest_snapshot, insert_snapshot, update_snapshot, insert_unique,
  add_classes, add_nfts,
}
use likecoin_op.Nft.Snapshot.Executed.{Executed, execute-Executed}

-- Named on an `unfolding` line, it opens the whole snapshot.
unfoldable running : Unit {0}
unfolding exec query_snapshot query_latest_snapshot insert_snapshot update_snapshot insert_unique
    add_classes add_nfts with_db_tx with_db_tx_outside insert_snapshot_classes insert_snapshot_nfts
    snapshot_failed store_snapshot take_snapshot execute_by execute create_preview
running = tt

-- The address 7 owns two classes and a token; the database fails in the call of the number `broken`.
abbrev wallet : ℕ → Env
wallet broken = record {
  fault = λ t. t == broken;
  latest_block = λ _. some (record { height = 300; time = 12 });
  classes_by_owner = λ _ _.
      some (record { id = 40; name = 1; image = 2 } ∷ record { id = 41; name = 1; image = 2 } ∷ []);
  nfts_by_owner = λ _ _. some (record { id = 90; class_id = 40; name = 3; image = 4 } ∷ []);
}

abbrev empty : State
empty = record {
  tick = 0;
  db = record { snapshots = []; classes = []; nfts = []; next = 1 };
  net = [];
}

abbrev requested : State
requested = (create_preview (wallet 99) 7 empty).1

abbrev executed : State
executed = (execute (wallet 99) 7 requested).1

two_classes : length executed.db.classes ≡ 2
unfolding running
two_classes = refl

-- The commit of the transaction fails, and the failure is stored.
rolled_back : length (execute (wallet 11) 7 requested).1.db.classes ≡ 0
unfolding running
rolled_back = refl

execute-Executed_example : Executed (wallet 99) 7 requested (execute (wallet 99) 7 requested)
execute-Executed_example = execute-Executed (wallet 99) 7 requested
