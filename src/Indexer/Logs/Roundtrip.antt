-- ===== src/Indexer/Logs/Roundtrip.antt =====
-- Storing a log as an event loses nothing of the log. (likenft-indexer/internal/evm/util/logconverter)
use likecoin_op.Base.{
  ℕ, zero, suc, ◌≤◌, ◌≡◌, refl, ap, sym, ◌∙◌, Option, none, some, List, [], ◌∷◌, map, length, arith,
  Text, Bool-cases, inl, inr,
}
use mathlib.Core.Path.{subst}
use likecoin_op.Exec.{Result, ok, err, stop}
use likecoin_op.Indexer.Model.{EvmEvent, Params}
use likecoin_op.Indexer.Logs.{
  Log, Argument, AbiEvent, Abi, HexLaws, Indexed, add_indexed, collect, first, rest, map_opt,
  opt_list, event_of, opt_hex, log_of, build, data_args, with_topics, with_event, with_unpacked,
  convert_log_to_evm_event, convert_evm_event_to_log,
}

length-map : {A B : Type 0} (f : A → B) (xs : List A) → length (map f xs) ≡ length xs
length-map f [] = refl
length-map f (x ∷ xs) = ap suc (length-map f xs)

module _ (abi : Abi) (laws : HexLaws abi) where
  -- The topics of the indexed arguments that were collected.
  abbrev back : List Indexed → List Text
  back = map (λ (x : Indexed). abi.hex_to_hash x.topic_hex)

  abbrev topics_of : List Indexed → List Text
  topics_of xs = map abi.hex_to_hash (
      opt_list (map_opt (λ (x : Indexed). x.topic_hex) (first xs)) (
        opt_list (map_opt (λ (x : Indexed). x.topic_hex) (first (rest xs)))
          (opt_list (map_opt (λ (x : Indexed). x.topic_hex) (first (rest (rest xs)))) [])))

  -- One argument for each topic, in order, and no more than there are slots.
  record Covers (xs : List Indexed) (ts : List Text) (slots : ℕ) : Type 0 where
    few : length xs ≤ slots
    same : length ts ≡ length xs → back xs ≡ ts

  add-Covers :
      (a : Text) (v t : Text) (xs : List Indexed) (ts : List Text) (slots : ℕ)
      → Covers xs ts slots
      → Covers
          (record { name = a; value = v; topic_hex = abi.hash_hex t } ∷ xs)
          (t ∷ ts)
          (suc slots)
  add-Covers a v t xs ts slots c = record {
    few = omega (arith, c.few);
    same = λ e i. laws.hash_back t i ∷ c.same (omega (arith, e)) i;
  }

  add_indexed-cases :
      (x : Indexed) (r : Result (List Indexed)) {xs : List Indexed}
      → add_indexed x r ≡ ok xs
      → (ys : List Indexed) × (r ≡ ok ys) × (xs ≡ x ∷ ys)
  add_indexed-cases x (ok ys) {xs} e = (ys, refl, ground arith)
  add_indexed-cases x (err f) e = cc
  add_indexed-cases x (stop s) e = cc

  none-Covers : (ts : List Text) (slots : ℕ) → Covers [] ts slots
  none-Covers [] slots = record { few = omega arith; same = λ e. refl }
  none-Covers (t ∷ ts) slots = record { few = omega arith; same = λ e. absurd (omega (arith, e)) }

  collect-Covers :
      (out : Text → Text) (args : List Argument) (ts : List Text) (slots : ℕ) {xs : List Indexed}
      → collect abi out args ts slots ≡ ok xs
      → Covers xs ts slots
  unfolding collect
  collect-Covers out [] ts slots {xs} e =
      let p : [] ≡ xs = cc in subst (λ ys. Covers ys ts slots) p (none-Covers ts slots)
  collect-Covers out (a ∷ args) ts zero {xs} e =
      collect-Covers out args ts zero {xs = xs} (ground (arith, e))
  collect-Covers out (a ∷ args) [] (suc slots) {xs} e =
      collect-Covers out args [] (suc slots) {xs = xs} (ground (arith, e))
  collect-Covers out (a ∷ args) (t ∷ ts) (suc slots) {xs} e = elim (Bool-cases a.indexed) [
    | inl y ↦
        let (ys, r, is_xs) =
          add_indexed-cases
            (record { name = a.name; value = out a.name; topic_hex = abi.hash_hex t })
            (collect abi out args ts slots) {xs = xs} (ground (arith, e)) in
        rw is_xs (
          add-Covers a.name (out a.name) t ys ts slots
            (collect-Covers out args ts slots {xs = ys} r))
    | inr n ↦ collect-Covers out args (t ∷ ts) (suc slots) {xs = xs} (ground (arith, e))
  ]

  topics-back :
      (xs : List Indexed) (ts : List Text)
      → Covers xs ts 3
      → length ts ≡ length xs
      → topics_of xs ≡ ts
  topics-back [] ts c e = c.same e
  topics-back (x ∷ []) ts c e = c.same e
  topics-back (x ∷ y ∷ []) ts c e = c.same e
  topics-back (x ∷ y ∷ z ∷ []) ts c e = c.same e
  topics-back (x ∷ y ∷ z ∷ u ∷ xs) ts c e = absurd (omega (arith, c.few))

  data-back :
      (e : EvmEvent) (bs : List ℕ)
      → e.data_hex ≡ opt_hex abi bs
      → convert_evm_event_to_log abi e ≡ ok (log_of abi e bs)
  unfolding convert_evm_event_to_log
  data-back e [] h = ground (arith, h)
  data-back e (b ∷ bs) h = ground (arith, h, laws.data_back (b ∷ bs))

  build-back :
      (log : Log) (t : Text) (ts : List Text) (event : AbiEvent) (params : Params)
      (xs : List Indexed)
      → log.topics ≡ t ∷ ts
      → Covers xs ts 3
      → length ts ≡ length xs
      → convert_evm_event_to_log abi (event_of abi log t event params xs) ≡ ok log
  build-back log t ts event params xs is_topics c e =
      let stored = event_of abi log t event params xs in
      let topics : abi.hex_to_hash (abi.hash_hex t) ∷ topics_of xs ≡ log.topics =
        (λ i. laws.hash_back t i ∷ topics-back xs ts c e i) ∙ sym is_topics in
      data-back stored log.data_bytes refl ∙ λ i. ok (record {
        address = laws.address_back log.address i;
        topics = topics i;
        data_bytes = log.data_bytes;
        block_number = log.block_number;
        tx_hash = laws.hash_back log.tx_hash i;
        tx_index = log.tx_index;
        block_hash = laws.hash_back log.block_hash i;
        index = log.index;
        removed = log.removed;
      })

  -- A log that could be stored is read back from its event as it was, if it has one topic for each
  -- indexed argument after the first: address, topics, data and place in the chain.
  pub convert-back :
      (log : Log) {e : EvmEvent}
      → convert_log_to_evm_event abi log ≡ ok e
      → length log.topics ≡ suc (length e.indexed_params)
      → convert_evm_event_to_log abi e ≡ ok log
  unfolding convert_log_to_evm_event
  convert-back log {e} h n = go log.topics refl h n
    where
      go :
          (topics : List Text)
          → log.topics ≡ topics
          → with_topics abi log topics ≡ ok e
          → length topics ≡ suc (length e.indexed_params)
          → convert_evm_event_to_log abi e ≡ ok log
      go [] is p m = cc
      go (t ∷ ts) is p m = go_event (abi.event_by_id t) p
        where
          go_collected :
              (event : AbiEvent) (out : Text → Text) (r : Result (List Indexed))
              → collect abi out event.inputs ts 3 ≡ r
              → build abi log t event (data_args abi out event.inputs) r ≡ ok e
              → convert_evm_event_to_log abi e ≡ ok log
          go_collected event out (ok xs) c q =
              let is_e : event_of abi log t event (data_args abi out event.inputs) xs ≡ e = cc in
              let kept = ap (λ (x : EvmEvent). length x.indexed_params) is_e in
              let count : length ts ≡ length xs = omega (
                arith,
                m,
                kept,
                length-map {B = Text × Text} (λ (x : Indexed). (x.name, x.value)) xs,
              ) in
              subst (λ x. convert_evm_event_to_log abi x ≡ ok log) is_e
                (build-back log t ts event (data_args abi out event.inputs) xs is
                  (collect-Covers out event.inputs ts 3 {xs = xs} c) count)
          go_collected event out (err x) c q = cc
          go_collected event out (stop x) c q = cc

          go_unpacked :
              (event : AbiEvent) (o : Option (Text → Text))
              → with_unpacked abi log t ts event o ≡ ok e
              → convert_evm_event_to_log abi e ≡ ok log
          go_unpacked event none q = cc
          go_unpacked event (some out) q = go_collected event out _ refl q

          go_event :
              (o : Option AbiEvent)
              → with_event abi log t ts o ≡ ok e
              → convert_evm_event_to_log abi e ≡ ok log
          go_event none q = cc
          go_event (some event) q = go_unpacked event (abi.unpack log) q
