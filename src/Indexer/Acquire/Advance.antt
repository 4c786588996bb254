-- ===== src/Indexer/Acquire/Advance.antt =====
-- What a call of `acquire` has done, and what it leaves where it fails.
-- (likenft-indexer/internal/logic/evmeventacquirer/acquirer.go)
use likecoin_op.Base.{
  ℕ, ◌+◌, ◌%◌, ◌^◌, ◌≤◌, ◌≡◌, ap, ◌∙◌, sym, Option, some, List, ◌⊎◌, if◌then◌else◌, arith, Text,
}
use mathlib.Core.Path.{subst}
use likecoin_op.Exec.{exec, Result, ok, err, stop, check, raise, pure, outside, rpc_error}
use likecoin_op.Exec.Steps.{check-eq-ok, check-result}
use likecoin_op.Indexer.Model.{EvmEvent, Tables, Action, State}
use likecoin_op.Indexer.Logs.{Log}
use likecoin_op.Indexer.Db.{
  get_processed_block_height, query_height, update_processed_block_height,
  insert_evm_events_if_needed, is_not_found,
}
use likecoin_op.Indexer.Db.Laws.{IsFailure, with_tx_atomic, numbered, fresh, insert_adds}
use likecoin_op.Indexer.Acquire.{
  ContractType, ContractEvent, Env, event_code, type_code, convert_logs, lift, acquire,
}
use likecoin_op.Indexer.Acquire.Converted.{Within, Among, Converts, convert_logs-top}
use likecoin_op.Indexer.Acquire.Heights.{height_of, get-height, update-height, update-events}

module _ (env : Env) where
  outside-eq-ok :
      {A : Type 0} (answer : ℕ → Option A) (w v : State) {a : A}
      → outside answer rpc_error w ≡ (ok a, v)
      → (answer w.tick ≡ some a) × (v.db ≡ w.db)
  unfolding exec
  outside-eq-ok answer w v h = (ground arith, ground arith)

  -- What a call of `acquire` that returns has done.
  pub record Advanced (type : ContractType) (event : ContractEvent) (address : Text) (w v : State)
      : Type 0 where
    pub logs : List Log
    pub events : List EvmEvent
    pub top : ℕ
    pub call : ℕ
    pub asked :
        env.query_logs event address
          ((height_of (type_code type) address (event_code event) w.db + 1) % 2 ^ 64)
          call
        ≡ some logs
    pub chain : ℕ
    pub chain_call : ℕ
    pub chain_known : env.chain_id chain_call ≡ some chain
    pub each : Converts (env.abi_of type) chain logs events
    pub reached : height_of (type_code type) address (event_code event) v.db ≡ top
    pub not_lower : height_of (type_code type) address (event_code event) w.db ≤ top
    pub covered : Within top logs
    pub attained :
        (top ≡ height_of (type_code type) address (event_code event) w.db) ⊎ Among top logs
    pub stored : v.db.events ≡ numbered w.db.next_event (fresh events w.db) w.db.events

  -- A call of `acquire` that returns has asked for the logs after the height and has converted each of
  -- them; the events of those whose transaction had no row are stored, in order and under new ids. It has
  -- moved the height to the highest of the old height and the blocks of the logs.
  pub acquire_advances :
      (type : ContractType) (event : ContractEvent) (address : Text) (w v : State)
      → acquire env type event address w ≡ (ok tt, v)
      → Advanced type event address w v
  unfolding acquire
  acquire_advances type event address w v h =
      let (chain, w1, p1, q1) = check-eq-ok _ _ w v {b = tt} h in
      let (processed, w2, p2, q2) = check-eq-ok _ _ w1 v {b = tt} q1 in
      let (logs, w3, p3, q3) = check-eq-ok _ _ w2 v {b = tt} q2 in
      let (got, w4, p4, q4) = check-eq-ok _ _ w3 v {b = tt} q3 in
      let (rows, w5, p5, q5) = check-eq-ok _ _ w4 v {b = tt} q4 in
      let (chain_known, db1) = outside-eq-ok env.chain_id w w1 p1 in
      let (is_height, db2) =
        get-height env.fault (type_code type) address (event_code event) w1 w2 {height = processed}
          p2 in
      let (answered, db3) =
        outside-eq-ok (env.query_logs event address ((processed + 1) % 2 ^ 64)) w2 w3 p3 in
      let conv : convert_logs env (env.abi_of type) chain logs processed ≡ ok got =
        ap (λ (s : Result (List EvmEvent × ℕ) × State). s.0) p4 in
      let same : w3 ≡ w4 = ap (λ (s : Result (List EvmEvent × ℕ) × State). s.1) p4 in
      let bounds =
        convert_logs-top env (env.abi_of type) chain logs processed {es = got.0} {top = got.1}
          conv in
      let height : processed ≡ height_of (type_code type) address (event_code event) w.db =
        is_height ∙ ap (height_of (type_code type) address (event_code event)) db1 in
      let before : w4.db ≡ w.db = ap (λ (u : State). u.db) (sym same) ∙ db3 ∙ db2 ∙ db1 in
      let added = (insert_adds env.fault got.0 w4 w5 {rows = rows} p5).0 in
      let kept =
        update-events env.fault (type_code type) address (event_code event) got.1 w5 v q5 in
      record {
        logs = logs;
        events = got.0;
        top = got.1;
        call = w2.tick;
        asked =
            subst (λ n. env.query_logs event address ((n + 1) % 2 ^ 64) w2.tick ≡ some logs) height
              answered;
        chain = chain;
        chain_call = w.tick;
        chain_known = chain_known;
        each = bounds.3;
        reached = update-height env.fault (type_code type) address (event_code event) got.1 w5 v q5;
        not_lower = subst (λ n. n ≤ got.1) height bounds.0;
        covered = bounds.1;
        attained = subst (λ n. (got.1 ≡ n) ⊎ Among got.1 logs) height bounds.2;
        stored =
            kept
            ∙ added
            ∙ ap (λ (t : Tables). numbered t.next_event (fresh got.0 t) t.events) before;
      }

  -- A step that leaves the heights alone, followed by steps that leave them alone where they fail.
  abbrev Leaves : {A : Type 0} → Action A → Type 0
  Leaves {A} m = (w v : State) (r : Result A) → m w ≡ (r, v) → v.db.heights ≡ w.db.heights

  abbrev LeavesFailing : {A : Type 0} → Action A → Type 0
  LeavesFailing {A} m =
      (w v : State) (r : Result A) → m w ≡ (r, v) → IsFailure r → v.db.heights ≡ w.db.heights

  check-Leaves :
      {A B : Type 0} (m : Action A) (k : A → Action B)
      → Leaves m
      → ((a : A) → LeavesFailing (k a))
      → LeavesFailing (check m raise k)
  unfolding raise
  check-Leaves {A} {B} m k lm lk w v r h f =
      check-result (λ (s : Result B × State). s ≡ (r, v) → v.db.heights ≡ w.db.heights) m raise k w
        (λ a u p q. lk a u v r q f ∙ lm w u (ok a) p)
        (λ e u p q. ap (λ (s : Result B × State). s.1.db.heights) (sym q) ∙ lm w u (err e) p)
        (λ s u p q. ap (λ (s : Result B × State). s.1.db.heights) (sym q) ∙ lm w u (stop s) p) h

  outside-Leaves : {A : Type 0} (answer : ℕ → Option A) → Leaves (outside answer rpc_error)
  unfolding exec
  outside-Leaves answer w v r h = ground arith

  get-Leaves :
      (contract_type : ℕ) (address : Text) (event : ℕ)
      → Leaves (
          check
            (get_processed_block_height env.fault contract_type address event)
            (λ e. if is_not_found e then pure 0 else raise e)
            pure)
  unfolding get_processed_block_height query_height exec
  get-Leaves contract_type address event w v r h = ground arith

  insert_atomic :
      (es : List EvmEvent) (w v : State) (r : Result (List EvmEvent))
      → insert_evm_events_if_needed env.fault es w ≡ (r, v)
      → IsFailure r
      → v.db ≡ w.db
  unfolding insert_evm_events_if_needed
  insert_atomic es w v r h f = with_tx_atomic env.fault _ w v {r = r} h f

  insert-Leaves : (es : List EvmEvent) → Leaves (insert_evm_events_if_needed env.fault es)
  insert-Leaves es w v (ok rows) h = (insert_adds env.fault es w v {rows = rows} h).3
  insert-Leaves es w v (err e) h =
      ap (λ (t : Tables). t.heights) (insert_atomic es w v (err e) h tt)
  insert-Leaves es w v (stop s) h =
      ap (λ (t : Tables). t.heights) (insert_atomic es w v (stop s) h tt)

  lift-Leaves : (x : Result (List EvmEvent × ℕ)) → Leaves (lift env x)
  lift-Leaves x w v r h = ap (λ (s : Result (List EvmEvent × ℕ) × State). s.1.db.heights) (sym h)

  update-Failing :
      (contract_type : ℕ) (address : Text) (event height : ℕ)
      → LeavesFailing (update_processed_block_height env.fault contract_type address event height)
  unfolding update_processed_block_height
  update-Failing contract_type address event height w v r h f =
      ap (λ (t : Tables). t.heights) (with_tx_atomic env.fault _ w v {r = r} h f)

  -- A call of `acquire` that does not return, for whatever reason, has moved no height: the next call
  -- asks for the same logs again.
  pub acquire_retries :
      (type : ContractType) (event : ContractEvent) (address : Text) (w v : State)
      (r : Result (Unit {0}))
      → acquire env type event address w ≡ (r, v)
      → IsFailure r
      → v.db.heights ≡ w.db.heights
  unfolding acquire
  acquire_retries type event address w v r h f =
      check-Leaves _ _ (outside-Leaves env.chain_id)
        (λ chain.
          check-Leaves _ _ (get-Leaves (type_code type) address (event_code event)) (λ processed.
            check-Leaves _ _ (outside-Leaves _) (λ logs. check-Leaves _ _ (lift-Leaves _) (λ got.
              check-Leaves _ _ (insert-Leaves got.0)
                (λ _. update-Failing (type_code type) address (event_code event) got.1)))))
        w v r h f
