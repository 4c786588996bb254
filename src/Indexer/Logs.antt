-- ===== src/Indexer/Logs.antt =====
-- The conversion between the logs of the node and the rows of events. Every value that a log carries
-- is a text. (likenft-indexer/internal/evm/util/logconverter)
pub mod Roundtrip
use likecoin_op.Base.{
  ℕ, zero, suc, ◌+◌, ◌≤◌, ◌≡◌, refl, ap, Bool, true, false, not, Option, none, some, List, [], ◌∷◌,
  map, if◌then◌else◌, keep, length, arith, Text,
}
use likecoin_op.Exec.{Error, Result, ok, err, stop, unpack_failed, panicked}
use likecoin_op.Indexer.Model.{received, Params, EvmEvent}

-- go-ethereum's `types.Log`
pub record Log : Type 0 where
  pub address : Text
  pub topics : List Text
  pub data_bytes : List ℕ
  pub block_number : ℕ
  pub tx_hash : Text
  pub tx_index : ℕ
  pub block_hash : Text
  pub index : ℕ
  pub removed : Bool

pub record Argument : Type 0 where
  pub name : Text
  pub indexed : Bool

pub record AbiEvent : Type 0 where
  pub raw_name : Text
  pub sig : Text
  pub inputs : List Argument

-- go-ethereum's ABI of a contract and its hexadecimal forms; the one of the data by its characters.
pub record Abi : Type 0 where
  pub event_by_id : Text → Option AbiEvent
  pub unpack : Log → Option (Text → Text)
  pub describe : List (Text × Text) → Text
  pub hash_hex : Text → Text
  pub hex_to_hash : Text → Text
  pub address_hex : Text → Text
  pub hex_to_address : Text → Text
  pub encode : List ℕ → List ℕ
  pub decode : List ℕ → Option (List ℕ)

-- What go-ethereum promises of the hexadecimal forms.
pub record HexLaws (abi : Abi) : Type 0 where
  pub hash_back : (t : Text) → abi.hex_to_hash (abi.hash_hex t) ≡ t
  pub address_back : (t : Text) → abi.hex_to_address (abi.address_hex t) ≡ t
  pub data_back : (bs : List ℕ) → abi.decode (abi.encode bs) ≡ some bs

-- An indexed argument: its name, its value and its topic.
pub record Indexed : Type 0 where
  pub name : Text
  pub value : Text
  pub topic_hex : Text

abbrev pub first : {A : Type 0} → List A → Option A
first [] = none
first (a ∷ as') = some a

abbrev pub rest : {A : Type 0} → List A → List A
rest [] = []
rest (a ∷ as') = as'

abbrev pub map_opt : {A B : Type 0} → (A → B) → Option A → Option B
map_opt f none = none
map_opt f (some a) = some (f a)

abbrev pub opt_list : Option Text → List Text → List Text
opt_list none ts = ts
opt_list (some t) ts = t ∷ ts

abbrev pub add_indexed : Indexed → Result (List Indexed) → Result (List Indexed)
add_indexed x (ok xs) = ok (x ∷ xs)
add_indexed x (err e) = err e
add_indexed x (stop s) = stop s

module _ (abi : Abi) where
  -- The indexed arguments of the loop of `ConvertLogToEvmEvent`, by the topics and the slots that are
  -- left; an index out of range panics.
  unfoldable pub collect : (Text → Text) → List Argument → List Text → ℕ → Result (List Indexed)
  collect out [] ts slots = ok []
  collect out (a ∷ args) ts zero =
      let others = collect out args ts zero in if a.indexed then stop panicked else others
  collect out (a ∷ args) [] (suc slots) =
      let others = collect out args [] (suc slots) in if a.indexed then stop panicked else others
  collect out (a ∷ args) (t ∷ ts) (suc slots) =
      let used = collect out args ts slots in
      let others = collect out args (t ∷ ts) (suc slots) in
      if a.indexed
      then add_indexed (record { name = a.name; value = out a.name; topic_hex = abi.hash_hex t })
          used
      else others

  abbrev pub data_args : (Text → Text) → List Argument → Params
  data_args out args =
      map (λ (a : Argument). (a.name, out a.name)) (keep (λ (a : Argument). not a.indexed) args)

  abbrev pub opt_data : Params → Option Text
  opt_data [] = none
  opt_data (p ∷ ps) = some (abi.describe (p ∷ ps))

  abbrev pub opt_hex : List ℕ → Option (List ℕ)
  opt_hex [] = none
  opt_hex (b ∷ bs) = some (abi.encode (b ∷ bs))

  abbrev pub event_of : Log → Text → AbiEvent → Params → List Indexed → EvmEvent
  event_of log topic0 event params xs =
      let ys = rest xs in
      let zs = rest ys in
      record {
        id = 0;
        transaction_hash = abi.hash_hex log.tx_hash;
        transaction_index = log.tx_index;
        chain_id = 0;
        block_hash = abi.hash_hex log.block_hash;
        block_number = log.block_number;
        log_index = log.index;
        address = abi.address_hex log.address;
        topic0 = event.raw_name;
        topic0_hex = abi.hash_hex topic0;
        topic1 = map_opt (λ (x : Indexed). x.value) (first xs);
        topic1_hex = map_opt (λ (x : Indexed). x.topic_hex) (first xs);
        topic2 = map_opt (λ (x : Indexed). x.value) (first ys);
        topic2_hex = map_opt (λ (x : Indexed). x.topic_hex) (first ys);
        topic3 = map_opt (λ (x : Indexed). x.value) (first zs);
        topic3_hex = map_opt (λ (x : Indexed). x.topic_hex) (first zs);
        data_text = opt_data params;
        data_hex = opt_hex log.data_bytes;
        removed = log.removed;
        status = received;
        name = event.raw_name;
        signature = event.sig;
        indexed_params = map (λ (x : Indexed). (x.name, x.value)) xs;
        non_indexed_params = params;
        failed_reason = none;
      }

  abbrev pub build : Log → Text → AbiEvent → Params → Result (List Indexed) → Result EvmEvent
  build log topic0 event params (ok xs) = ok (event_of log topic0 event params xs)
  build log topic0 event params (err e) = err e
  build log topic0 event params (stop s) = stop s

  abbrev pub with_unpacked :
      Log → Text → List Text → AbiEvent → Option (Text → Text) → Result EvmEvent
  with_unpacked log topic0 topics event none = err unpack_failed
  with_unpacked log topic0 topics event (some out) =
      build log topic0 event (data_args out event.inputs) (collect out event.inputs topics 3)

  abbrev pub with_event : Log → Text → List Text → Option AbiEvent → Result EvmEvent
  with_event log topic0 topics none = err unpack_failed
  with_event log topic0 topics (some event) = with_unpacked log topic0 topics event (abi.unpack log)

  abbrev pub with_topics : Log → List Text → Result EvmEvent
  with_topics log [] = stop panicked
  with_topics log (t ∷ ts) = with_event log t ts (abi.event_by_id t)

  -- `ConvertLogToEvmEvent`
  unfoldable pub convert_log_to_evm_event : Log → Result EvmEvent
  convert_log_to_evm_event log = with_topics log log.topics

  abbrev pub log_of : EvmEvent → List ℕ → Log
  log_of e bytes = record {
    address = abi.hex_to_address e.address;
    topics =
        abi.hex_to_hash e.topic0_hex
        ∷ map abi.hex_to_hash
            (opt_list e.topic1_hex (opt_list e.topic2_hex (opt_list e.topic3_hex [])));
    data_bytes = bytes;
    block_number = e.block_number;
    tx_hash = abi.hex_to_hash e.transaction_hash;
    tx_index = e.transaction_index;
    block_hash = abi.hex_to_hash e.block_hash;
    index = e.log_index;
    removed = e.removed;
  }

  abbrev pub decoded : EvmEvent → Option (List ℕ) → Result Log
  decoded e none = stop panicked
  decoded e (some bytes) = ok (log_of e bytes)

  -- `ConvertEvmEventToLog`: data that is no hexadecimal panics.
  unfoldable pub convert_evm_event_to_log : EvmEvent → Result Log
  convert_evm_event_to_log e = elim e.data_hex [
    | none ↦ ok (log_of e [])
    | some hex ↦ decoded e (abi.decode hex)
  ]
