-- ===== src/Nft/Actions/NewClass/Announce.antt =====
-- The action of a new class keeps the invariant.
-- (migration-backend/pkg/logic/likenft/do_new_class_action.go, get_or_create_new_class_action.go)
use likecoin_op.Base.{
  ℕ, suc, ◌≡◌, refl, sym, ap, ◌∙◌, inl, inr, false, Option, none, some, ◌∷◌, ◌==◌, any, arith, Text,
  Bool-cases, Option-cases, find-holds, find-any, find-replace,
}
use mathlib.Core.Path.{subst}
use likecoin_op.Exec.{
  exec, Error, Result, ok, check, raise, pure, db_call, outside, bump, db_error, no_event, ◌>>=◌,
}
use likecoin_op.Exec.Frame.{
  Keeps, Keeps-pure, Keeps-raise, Keeps-outside, Keeps-check, Keeps-if, Keeps-db_call,
}
use likecoin_op.Exec.Steps.{check-cases, db_call-down, db_call-up, check-ok, check-err}
use likecoin_op.Coin.Create.{is_no_rows}
use likecoin_op.Nft.Actions.Model.{
  ActionStatus, LikeNftMigrationActionNewClass, submit_evm_book_migrated, affected, Action, State,
  query_new_class, insert_new_class, update_new_class,
}
use likecoin_op.Ethereum.{Receipt}
use likecoin_op.Nft.Actions.Calls.{Env, get_class_id, first_class}
use likecoin_op.Ethereum.Quiet.{Keeps-given}
use likecoin_op.Nft.Actions.NewClass.{
  Initial, lift, get_or_create_new_class, new_class_failed, completed_new_class, start_submission,
  begun_new_class,
}
use likecoin_op.Nft.Actions.Sound.{
  of_class, row_of, has_id, deployed_as-open, is_completed, write-Sound, write-Stays,
}
use likecoin_op.Nft.Actions.Advances.{
  Advances, advances, Untouched, untouched, Untouched-Advances, insert-Sound, insert-Stays,
}

-- The row of the class of an action is the action.
abbrev pub At : LikeNftMigrationActionNewClass → State → Type 0
At a w = row_of a.cosmos_class_id w.db.new_classes ≡ some a

abbrev pub From : {A : Type 0} → LikeNftMigrationActionNewClass → Action A → Type 0
From a m = (w : State) → At a w → Advances w (m w).1

pub From-check :
    {A B : Type 0} (a : LikeNftMigrationActionNewClass) (m : Action A) (h : Error → Action B)
    (k : A → Action B)
    → Keeps Untouched m
    → ((e : Error) → From a (h e))
    → ((x : A) → From a (k x))
    → From a (check m h k)
From-check {A} a m h k quiet fh fk w at =
    check-cases (Advances w) m h k w
      (λ x u p. advances.trans w u (k x u).1 (moved u p) (fk x u (there u p)))
      (λ e u p. advances.trans w u (h e u).1 (moved u p) (fh e u (there u p))) (λ s u p. moved u p)
  where
    step : (u : State) {r : Result A} → m w ≡ (r, u) → Untouched w u
    step u {r} p = subst (λ (s : Result A × State). Untouched w s.1) p (quiet.at w)

    moved : (u : State) {r : Result A} → m w ≡ (r, u) → Advances w u
    moved u {r} p = Untouched-Advances w u (step u {r = r} p)

    there : (u : State) {r : Result A} → m w ≡ (r, u) → At a u
    there u {r} p = ap (row_of a.cosmos_class_id) (step u {r = r} p).rows ∙ at

pub lift-Untouched : {A : Type 0} (r : Result A) → Keeps Untouched (lift r)
lift-Untouched r = record { at = untouched.same }

pub outside-Untouched :
    {A : Type 0} (answer : ℕ → Option A) (e : Error) → Keeps Untouched (outside answer e)
outside-Untouched answer e = Keeps-outside untouched answer e

module _ (env : Env) where
  pub get_class_id-Untouched : (receipt : Receipt) → Keeps Untouched (get_class_id env receipt)
  unfolding get_class_id
  get_class_id-Untouched receipt =
      Keeps-given untouched (first_class env receipt.logs) (raise no_event) pure
        (Keeps-raise untouched no_event) (Keeps-pure untouched)

  insert-Advances :
      (a : LikeNftMigrationActionNewClass) (w : State)
      → a.status ≡ ActionStatus.init
      → Advances w (record w { tick = suc w.tick; db = (insert_new_class a w.db).1 })
  unfolding insert_new_class
  insert-Advances a w starts =
      elim (Bool-cases (
        any (λ (b : LikeNftMigrationActionNewClass). b.cosmos_class_id == a.cosmos_class_id)
          w.db.new_classes)) [
            | inl taken ↦ rw taken (advances.tick w)
            | inr fresh ↦
                let row = record a { id = w.db.next_new_class } in
                rw fresh (record {
                  sound =
                      insert-Sound w.db.new_classes w.db.next_new_class w.net row fresh starts refl;
                  stays = λ s.
                      insert-Stays w.db.new_classes w.db.next_new_class w.net row fresh starts refl
                        s;
                })
          ]

  pub get_or_create-Advances :
      (class : Text) (initial : Initial)
      → Keeps Advances (get_or_create_new_class env class initial)
  unfolding get_or_create_new_class query_new_class
  get_or_create-Advances class initial =
      Keeps-check advances (db_call env.fault (query_new_class (some class) none)) _ pure
        (Keeps-db_call advances env.fault (query_new_class (some class) none) advances.tick)
        (λ e.
          Keeps-if advances (is_no_rows e) _ (raise e)
            (Keeps-db_call advances env.fault _ (λ w. insert-Advances _ w refl))
            (Keeps-raise advances e))
        (Keeps-pure advances)

  -- What is found or created is the row of its class.
  pub get_or_create-At :
      (class : Text) (initial : Initial) (w v : State) {a : LikeNftMigrationActionNewClass}
      → get_or_create_new_class env class initial w ≡ (ok a, v)
      → row_of class v.db.new_classes ≡ some a
  unfolding get_or_create_new_class query_new_class insert_new_class exec
  get_or_create-At class initial w v {a} h = elim (Option-cases (row_of class w.db.new_classes)) [
    | inl free ↦ ground (arith, free, h)
    | inr (b, found) ↦ ground (arith, found, h)
  ]

  -- Whatever the failure's update answers, the world is the one it leaves.
  failed-world :
      (b : LikeNftMigrationActionNewClass) (e : Error) (w : State)
      → (db_call env.fault
          (update_new_class (record b { status = ActionStatus.failed; failed_reason = some e }))
          w).1
        ≡ (new_class_failed env {A = LikeNftMigrationActionNewClass} b e w).1
  unfolding new_class_failed exec
  failed-world b e w = ground arith

  -- An action that is not completed.
  module _ (a : LikeNftMigrationActionNewClass) (open_before : is_completed a.status ≡ false) where
    pub written-Advances :
        (b : LikeNftMigrationActionNewClass)
        → b.id ≡ a.id
        → b.cosmos_class_id ≡ a.cosmos_class_id
        → is_completed b.status ≡ false
        → (w : State) → At a w
        → Advances w (record w { tick = suc w.tick; db = (update_new_class b w.db).1 })
    unfolding update_new_class
    written-Advances b same_id same_class still_open w at = record {
      sound = λ s.
          write-Sound w.db.new_classes w.db.next_new_class w.net w.net a b at open_before same_id
            same_class s (λ e. e ∙ sym (deployed_as-open b.status b.evm_class_id still_open))
            (λ class other. refl) (λ done. absurd (ground (arith, still_open, done)));
      stays = λ s.
          write-Stays w.db.new_classes w.db.next_new_class w.net w.net a b at open_before same_id
            same_class s;
    }

    -- The completed row together with its announcement.
    announced-Advances :
        (evm_class_id hash : Text) (w : State)
        → At a w
        → (let b = completed_new_class env a evm_class_id hash in
            Advances w
              ((start_submission env b.cosmos_class_id evm_class_id >>= λ _. pure b)
                (record w { tick = suc w.tick; db = (update_new_class b w.db).1 })).1)
    unfolding update_new_class exec
    announced-Advances evm_class_id hash w at =
        let b = completed_new_class env a evm_class_id hash in
        record {
          sound = λ s.
              write-Sound w.db.new_classes w.db.next_new_class w.net
                (submit_evm_book_migrated a.cosmos_class_id evm_class_id ∷ w.net) a b at open_before
                refl refl s (λ e. ground (arith, e)) (λ class other. ground (arith, other))
                (λ done. (evm_class_id, refl));
          stays = λ s.
              write-Stays w.db.new_classes w.db.next_new_class w.net w.net a b at open_before refl
                refl s;
        }

    affects :
        (b : LikeNftMigrationActionNewClass) (w : State)
        → b.id ≡ a.id
        → At a w
        → (update_new_class b w.db).0 ≡ ok tt
    unfolding update_new_class
    affects b w same_id at = ap affected (
        find-any (of_class a.cosmos_class_id) (has_id b.id) w.db.new_classes {a = a} at
          (ground (arith, same_id)))

    -- The row of the action that has begun.
    pub begun-At :
        (w : State)
        → At a w
        → At
            (begun_new_class env a)
            (record w { tick = suc w.tick; db = (update_new_class (begun_new_class env a) w.db).1 })
    unfolding update_new_class
    begun-At w at =
        find-replace (of_class a.cosmos_class_id) (has_id a.id) w.db.new_classes {a = a}
          (begun_new_class env a) at (ground arith)
          (ground (arith, find-holds (of_class a.cosmos_class_id) w.db.new_classes {a = a} at))

    update-Advances :
        (b : LikeNftMigrationActionNewClass)
        → b.id ≡ a.id
        → b.cosmos_class_id ≡ a.cosmos_class_id
        → is_completed b.status ≡ false
        → From a (db_call env.fault (update_new_class b))
    update-Advances b same_id same_class still_open w at = elim (Bool-cases (env.fault w.tick)) [
      | inl down ↦
          subst (λ (s : Result (Unit {0}) × State). Advances w s.1)
            (sym (db_call-down env.fault (update_new_class b) w down)) (advances.tick w)
      | inr up ↦
          subst (λ (s : Result (Unit {0}) × State). Advances w s.1)
            (sym (db_call-up env.fault (update_new_class b) w up))
            (written-Advances b same_id same_class still_open w at)
    ]

    pub failed-From :
        (b : LikeNftMigrationActionNewClass) (e : Error)
        → b.id ≡ a.id
        → b.cosmos_class_id ≡ a.cosmos_class_id
        → From a (new_class_failed env {A = LikeNftMigrationActionNewClass} b e)
    failed-From b e same_id same_class w at = subst (Advances w) (failed-world b e w) (
        update-Advances (record b { status = ActionStatus.failed; failed_reason = some e }) same_id
          same_class refl w at)

    -- The row of the action is there, so that the update affects it.
    pub written-eq :
        (b : LikeNftMigrationActionNewClass) (w : State)
        → b.id ≡ a.id
        → At a w
        → env.fault w.tick ≡ false
        → db_call env.fault (update_new_class b) w
          ≡ (ok tt, record w { tick = suc w.tick; db = (update_new_class b w.db).1 })
    written-eq b w same_id at up =
        db_call-up env.fault (update_new_class b) w up
        ∙ ap (λ r. (r, record w { tick = suc w.tick; db = (update_new_class b w.db).1 }))
            (affects b w same_id at)

    -- The last update, and the announcement.
    pub finish-From :
        (evm_class_id hash : Text)
        → (let b = completed_new_class env a evm_class_id hash in
            From a (
              check
                (db_call env.fault (update_new_class b))
                (new_class_failed env b)
                (λ _. start_submission env b.cosmos_class_id evm_class_id >>= λ _. pure b)))
    finish-From evm_class_id hash w at =
        let b = completed_new_class env a evm_class_id hash in
        let k =
          λ (_ : Unit {0}). start_submission env b.cosmos_class_id evm_class_id >>= λ _. pure b in
        elim (Bool-cases (env.fault w.tick)) [
          | inl down ↦
              subst (λ (s : Result LikeNftMigrationActionNewClass × State). Advances w s.1)
                (sym (
                  check-err (db_call env.fault (update_new_class b)) (new_class_failed env b) k w
                    (bump w) db_error (db_call-down env.fault (update_new_class b) w down)))
                (advances.trans w (bump w) _ (advances.tick w)
                  (failed-From b db_error refl refl (bump w) at))
          | inr up ↦
              subst (λ (s : Result LikeNftMigrationActionNewClass × State). Advances w s.1)
                (sym (
                  check-ok (db_call env.fault (update_new_class b)) (new_class_failed env b) k w _
                    tt (written-eq b w refl at up)))
                (announced-Advances evm_class_id hash w at)
        ]
