-- ===== src/Signer/Db/Laws.antt =====
-- Laws of the contract-call table. (signer-backend/pkg/db/contractcall.go)
use likecoin_op.Base.{◌≡◌, refl, false, none, some, List, [], ◌∷◌, any, find, arith, Text}
use likecoin_op.Signer.Model.{ContractCall}
use likecoin_op.Signer.Db.{QueryContractCallFilter, matches_filter, is_call_of}

-- The filter of `GetOrCreateTransactionRequest`.
abbrev pub by_call : Text → Text → Text → QueryContractCallFilter
by_call contract method params = record {
  id = none;
  contract_address = some contract;
  method = some method;
  params_hex = some params;
  evm_transaction_request_id = none;
}

-- No two rows have the same contract, method and parameters.
abbrev pub CallsUnique : List ContractCall → Type 0
CallsUnique [] = Unit
CallsUnique (c ∷ cs) =
    (any (is_call_of c.contract_address c.method c.params_hex) cs ≡ false) × CallsUnique cs

-- A query by contract, method and parameters finds nothing just when the constraint lets a row in.
pub find-none-any :
    (a m p : Text) (cs : List ContractCall)
    → find (matches_filter (by_call a m p)) cs ≡ none
    → any (is_call_of a m p) cs ≡ false
find-none-any a m p [] h = refl
find-none-any a m p (c ∷ cs) h = ground (arith, find-none-any a m p cs)
