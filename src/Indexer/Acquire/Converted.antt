-- ===== src/Indexer/Acquire/Converted.antt =====
-- The loop of `acquire`: the events of the logs, and the highest block.
-- (likenft-indexer/internal/logic/evmeventacquirer/acquirer.go)
use likecoin_op.Base.{
  ℕ, ◌%◌, ◌^◌, ◌≤◌, ◌<◌, ◌≡◌, ◌∙◌, sym, List, [], ◌∷◌, All, max, refl, ◌⊎◌, inl, inr, leb,
  Bool-cases, arith,
}
use mathlib.Core.Path.{subst}
use likecoin_op.Exec.{Result, ok, err, stop}
use likecoin_op.Indexer.Model.{EvmEvent}
use likecoin_op.Indexer.Logs.{Log, Abi, convert_log_to_evm_event}
use likecoin_op.Indexer.Acquire.{Env, converted, add_event, convert_logs}

-- The blocks of the logs lie within the bound.
abbrev pub Within : ℕ → List Log → Type 0
Within top = All (λ (log : Log). log.block_number ≤ top)

-- The block is one of the logs'.
abbrev pub Among : ℕ → List Log → Type 0
Among top [] = ⊥
Among top (log ∷ logs) = (log.block_number ≡ top) ⊎ Among top logs

-- The events are those that the logs convert to, one for each and in order, with the chain as a word.
abbrev pub Converts : Abi → ℕ → List Log → List EvmEvent → Type 0
Converts abi chain_id [] [] = Unit
Converts abi chain_id [] (e ∷ es) = ⊥
Converts abi chain_id (log ∷ logs) [] = ⊥
Converts abi chain_id (log ∷ logs) (e ∷ es) =
    ((c : EvmEvent) × (convert_log_to_evm_event abi log ≡ ok c)
      × (e ≡ record c { chain_id = chain_id % 2 ^ 64 }))
    × Converts abi chain_id logs es

module _ (env : Env) where
  converted-cases :
      (r : Result EvmEvent) (k : EvmEvent → Result (List EvmEvent × ℕ)) {x : List EvmEvent × ℕ}
      → converted env r k ≡ ok x
      → (e : EvmEvent) × (r ≡ ok e) × (k e ≡ ok x)
  converted-cases (ok e) k h = (e, refl, h)
  converted-cases (err e) k h = cc
  converted-cases (stop s) k h = cc

  add_event-cases :
      (e : EvmEvent) (r : Result (List EvmEvent × ℕ)) {es : List EvmEvent} {top : ℕ}
      → add_event env e r ≡ ok (es, top)
      → (fs : List EvmEvent) × (r ≡ ok (fs, top)) × (es ≡ e ∷ fs)
  add_event-cases e (ok (fs, n)) {es} {top} h = (fs, ground arith, ground arith)
  add_event-cases e (err x) h = cc
  add_event-cases e (stop s) h = cc

  max-cases : (a b : ℕ) → (max a b ≡ a) ⊎ (max a b ≡ b)
  max-cases a b = elim (Bool-cases (leb a b)) [
    | inl below ↦ let le : a ≤ b = ground (arith, below) in inr (omega (arith, le))
    | inr above ↦ let lt : b < a = ground (arith, above) in inl (omega (arith, lt))
  ]

  step-Among :
      (log : Log) (logs : List Log) (low top : ℕ)
      → (top ≡ max low log.block_number) ⊎ Among top logs
      → (top ≡ low) ⊎ Among top (log ∷ logs)
  step-Among log logs low top (inr later) = inr (inr later)
  step-Among log logs low top (inl e) = elim (max-cases low log.block_number) [
    | inl is_low ↦ inl (e ∙ is_low)
    | inr is_block ↦ inr (inl (sym (e ∙ is_block)))
  ]

  -- The loop gives the events of the logs and the highest block of all.
  pub convert_logs-top :
      (abi : Abi) (chain_id : ℕ) (logs : List Log) (low : ℕ) {es : List EvmEvent} {top : ℕ}
      → convert_logs env abi chain_id logs low ≡ ok (es, top)
      → (low ≤ top)
        × Within top logs
        × ((top ≡ low) ⊎ Among top logs)
        × Converts abi chain_id logs es
  unfolding convert_logs
  convert_logs-top abi chain_id [] low {es} {top} h =
      let none_left : es ≡ [] = ground arith in
      (ground arith, tt, inl (ground arith), subst (Converts abi chain_id []) (sym none_left) tt)
  convert_logs-top abi chain_id (log ∷ logs) low {es} {top} h =
      let (e, h0, h1) = converted-cases (convert_log_to_evm_event abi log) _ {x = (es, top)} h in
      let (fs, h2, split) = add_event-cases _ _ {es = es} {top = top} h1 in
      let (above, within, among, each) =
        convert_logs-top abi chain_id logs (max low log.block_number) {es = fs} {top = top} h2 in
      (
        omega (arith, above),
        (omega (arith, above), within),
        step-Among log logs low top among,
        subst (Converts abi chain_id (log ∷ logs)) (sym split) ((e, h0, refl), each),
      )
