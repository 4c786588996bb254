-- ===== src/Nft/Actions/NewClass/Runs.antt =====
-- From the row of a class to the end of its action.
-- (migration-backend/pkg/logic/likenft/do_new_class_action.go, get_or_create_new_class_action.go)
use likecoin_op.Base.{
  ℕ, suc, ◌≡◌, refl, sym, ap, inl, inr, true, false, Option, none, some, arith, Text, Bool-cases,
  find-holds,
}
use mathlib.Core.Path.{subst}
use likecoin_op.Exec.{
  Result, Stop, check, raise, pure, halt, db_call, outside, bump, rpc_error, db_error,
  nil_dereference,
}
use likecoin_op.Exec.Frame.{Keeps, Keeps-raise}
use likecoin_op.Exec.Steps.{check-cases, db_call-down, check-ok, check-err}
use likecoin_op.Ethereum.{given}
use likecoin_op.Nft.Actions.Model.{
  ActionStatus, LikeNftMigrationActionNewClass, new_book_nft, Action, State, update_new_class,
}
use likecoin_op.Nft.Actions.Calls.{Env, Class, new_book, get_class_id, make_metadata}
use likecoin_op.Nft.Actions.NewClass.{
  Initial, lift, get_or_create_new_class, new_class_failed, max_supply, message, deploy, prepare,
  begun_new_class, begin_new_class, new_class_by, do_new_class,
}
use likecoin_op.Nft.Actions.Sound.{of_class, row_of, is_completed}
use likecoin_op.Nft.Actions.NewClass.Announce.{
  At, From, From-check, lift-Untouched, outside-Untouched, get_class_id-Untouched,
  get_or_create-Advances, get_or_create-At, written-Advances, written-eq, begun-At, failed-From,
  finish-From,
}
use likecoin_op.Nft.Actions.Advances.{
  Advances, advances, Untouched, Untouched-Advances, asked-Untouched,
}

-- The runs of an action that is not completed.
module _ (env : Env) where
  module _ (a : LikeNftMigrationActionNewClass) (open_before : is_completed a.status ≡ false) where
    given-From :
        {A B : Type 0} (o : Option A) (n : Action B) (k : A → Action B)
        → From a n
        → ((x : A) → From a (k x))
        → From a (given o n k)
    given-From none n k fn fk = fn
    given-From (some x) n k fn fk = fk x

    halt-From : (x : Stop) → From a (halt {A = LikeNftMigrationActionNewClass} x)
    unfolding halt
    halt-From x w at = advances.same w

    deploy-From :
        (class : Class) (metadata : Text) (supply : ℕ) → From a (deploy env a class metadata supply)
    unfolding deploy
    deploy-From class metadata supply =
        From-check a (new_book env (message env a class metadata supply)) (new_class_failed env a) _
          (asked-Untouched env (new_book_nft (message env a class metadata supply)) (λ k net. refl))
          (λ e. failed-From env a open_before a e refl refl)
          λ (hash, receipt).
            From-check a (get_class_id env receipt) (new_class_failed env a) _
              (get_class_id-Untouched env receipt)
              (λ e. failed-From env a open_before a e refl refl)
              λ evm_class_id. finish-From env a open_before evm_class_id hash

    prepare-From : From a (prepare env a)
    unfolding prepare
    prepare-From =
        From-check a (outside (env.query_class a.cosmos_class_id) rpc_error)
          (new_class_failed env a) _
          (outside-Untouched (env.query_class a.cosmos_class_id) rpc_error)
          (λ e. failed-From env a open_before a e refl refl)
          λ class.
            given-From class.content (halt nil_dereference) _ (halt-From nil_dereference) λ content.
              From-check a
                (outside (env.query_iscn content.iscn_id_prefix content.iscn_version_at_mint)
                  rpc_error)
                (new_class_failed env a) _
                (outside-Untouched
                  (env.query_iscn content.iscn_id_prefix content.iscn_version_at_mint) rpc_error)
                (λ e. failed-From env a open_before a e refl refl)
                λ iscn.
                  From-check a (outside (env.query_royalty class.id) rpc_error)
                    (new_class_failed env a) _
                    (outside-Untouched (env.query_royalty class.id) rpc_error)
                    (λ e. failed-From env a open_before a e refl refl)
                    λ royalty.
                      From-check a (lift (max_supply env content.max_supply))
                        (new_class_failed env a) _
                        (lift-Untouched (max_supply env content.max_supply))
                        (λ e. failed-From env a open_before a e refl refl)
                        λ supply.
                          From-check a
                            (lift (make_metadata env (env.class_metadata class iscn royalty)))
                            (new_class_failed env a) _
                            (lift-Untouched
                              (make_metadata env (env.class_metadata class iscn royalty)))
                            (λ e. failed-From env a open_before a e refl refl)
                            λ metadata. deploy-From class metadata supply

  raised :
      {w : State} (u : State)
      → Advances w u
      → Advances w (raise {A = LikeNftMigrationActionNewClass} db_error u).1
  unfolding raise
  raised u h = h

  -- From the start of an action that is not completed.
  begin-From :
      (a : LikeNftMigrationActionNewClass)
      → is_completed a.status ≡ false
      → From a (begin_new_class env a)
  unfolding begin_new_class
  begin-From a open_before w at =
      let b = begun_new_class env a in
      elim (Bool-cases (env.fault w.tick)) [
        | inl down ↦
            subst (λ (s : Result LikeNftMigrationActionNewClass × State). Advances w s.1)
              (sym (
                check-err (db_call env.fault (update_new_class b)) raise (λ _. prepare env b) w
                  (bump w) db_error (db_call-down env.fault (update_new_class b) w down)))
              (raised (bump w) (advances.tick w))
        | inr up ↦
            let u : State = record w { tick = suc w.tick; db = (update_new_class b w.db).1 } in
            subst (λ (s : Result LikeNftMigrationActionNewClass × State). Advances w s.1)
              (sym (
                check-ok (db_call env.fault (update_new_class b)) raise (λ _. prepare env b) w u tt
                  (written-eq env a open_before b w refl at up)))
              (advances.trans w u (prepare env b u).1
                (written-Advances env a open_before b refl refl refl w at)
                (prepare-From b refl u (begun-At env a open_before w at)))
      ]

  new_class_by-From :
      (status : ActionStatus) (a : LikeNftMigrationActionNewClass)
      → status ≡ a.status
      → From a (new_class_by env status a)
  unfolding new_class_by pure raise
  new_class_by-From ActionStatus.completed a e w at = advances.same w
  new_class_by-From ActionStatus.init a e w at = begin-From a (ap is_completed (sym e)) w at
  new_class_by-From ActionStatus.failed a e w at = begin-From a (ap is_completed (sym e)) w at
  new_class_by-From ActionStatus.in_progress a e w at = advances.same w
  new_class_by-From ActionStatus.other a e w at = advances.same w

  -- The action of the row of its class.
  pub do_new_class-From : (a : LikeNftMigrationActionNewClass) → From a (do_new_class env a)
  unfolding do_new_class
  do_new_class-From a w at = new_class_by-From a.status a refl w at

  -- Finding or making the row of a class, and then its action and what else leaves the rows alone.
  pub then-Advances :
      {B : Type 0} (class : Text) (initial : Initial)
      (k : LikeNftMigrationActionNewClass → Action B)
      → ((a : LikeNftMigrationActionNewClass) → Keeps Untouched (k a))
      → Keeps Advances (
          check
            (get_or_create_new_class env class initial)
            raise
            λ created. check (do_new_class env created) raise k)
  then-Advances {B} class initial k kk = record {
    at = λ w.
        check-cases (Advances w) (get_or_create_new_class env class initial) raise
          (λ created. check (do_new_class env created) raise k) w
          (λ a u p.
            advances.trans w u _ (step w u p)
              (acted a u (get_or_create-At env class initial w u {a = a} p)))
          (λ e u p. advances.trans w u _ (step w u p) ((Keeps-raise advances {A = B} e).at u))
          (λ s u p. step w u p);
  }
    where
      step :
          (w u : State) {r : Result LikeNftMigrationActionNewClass}
          → get_or_create_new_class env class initial w ≡ (r, u)
          → Advances w u
      step w u {r} p =
          subst (λ (s : Result LikeNftMigrationActionNewClass × State). Advances w s.1) p
            ((get_or_create-Advances env class initial).at w)

      same :
          (a : LikeNftMigrationActionNewClass) → of_class class a ≡ true → class ≡ a.cosmos_class_id
      same a mine = ground arith

      moved :
          (a : LikeNftMigrationActionNewClass) (u v : State)
          {r : Result LikeNftMigrationActionNewClass}
          → At a u
          → do_new_class env a u ≡ (r, v)
          → Advances u v
      moved a u v {r} at p =
          subst (λ (s : Result LikeNftMigrationActionNewClass × State). Advances u s.1) p
            (do_new_class-From a u at)

      acted :
          (a : LikeNftMigrationActionNewClass) (u : State)
          → row_of class u.db.new_classes ≡ some a
          → Advances u (check (do_new_class env a) raise k u).1
      acted a u found =
          let mine = find-holds (of_class class) u.db.new_classes {a = a} found in
          let at : At a u = subst (λ c. row_of c u.db.new_classes ≡ some a) (same a mine) found in
          check-cases (Advances u) (do_new_class env a) raise k u
            (λ b v p.
              advances.trans u v _ (moved a u v at p) (Untouched-Advances v _ ((kk b).at v)))
            (λ e v p.
              advances.trans u v _ (moved a u v at p) ((Keeps-raise advances {A = B} e).at v))
            (λ s v p. moved a u v at p)
