-- ===== src/Nft/Actions/Calls.antt =====
-- Calls of the new chain through the signing service, and what they ask of the outside.
-- (migration-backend/pkg/likenft/evm)
use likecoin_op.Base.{ℕ, Bool, Option, none, some, List, [], ◌∷◌, Text}
use likecoin_op.Exec.{Result, ok, err, no_event, bad_metadata, pure, raise}
use likecoin_op.Ethereum.{Receipt, Chain, send, given}
use likecoin_op.Nft.Actions.Model.{
  MsgNewBookNft, Request, new_book_nft, transfer_ownership, safe_mint_with_token_id, Action,
}

-- What Cosmos says of a class.
pub record ClassData : Type 0 where
  pub iscn_id_prefix : Text
  pub iscn_version_at_mint : Text
  pub max_supply : Option Text

-- An empty `max_supply` is `none`; a response without a class, or a class without data, has no content.
pub record Class : Type 0 where
  pub id : Text
  pub name : Text
  pub symbol : Text
  pub content : Option ClassData

pub record CosmosNft : Type 0 where
  pub class_id : Text
  pub id : Text

-- The outside, by the number of the call: the database, the signing service and the node of the new
-- chain, the node of Cosmos; then pure functions of libraries, and the JSON of the metadata.
pub record Env : Type 0 where
  pub fault : ℕ → Bool
  pub now : ℕ → ℕ
  pub chain : Chain Request
  pub total_supply : Text → ℕ → Option ℕ
  pub query_class : Text → ℕ → Option Class
  pub query_iscn : Text → Text → ℕ → Option Text
  pub query_royalty : Text → ℕ → Option Text
  pub query_nft : Text → Text → ℕ → Option (Option CosmosNft)
  pub query_nfts_of_class : Text → ℕ → Option (List CosmosNft)
  pub query_external_metadata : CosmosNft → ℕ → Option Text
  pub query_nft_events : Text → Text → ℕ → Option (List Text)
  pub parse_new_book_nft : ℕ → Option Text
  pub hex_to_address : Text → Text
  pub parse_uint : Text → Option ℕ
  pub class_metadata : Class → Text → Text → Option Text
  pub nft_metadata : CosmosNft → Class → Text → Text → Option Text
  pub make_memo : List Text → Text
  pub empty_memo : Text
  pub empty_metadata : Text
  pub number_of : Text → Option Text
  pub has_number : ℕ → Text → Bool

module _ (env : Env) where
  abbrev pub new_book : MsgNewBookNft → Action (Text × Receipt)
  new_book msg = send env.chain (new_book_nft msg)

  abbrev pub transfer_class : Text → Text → Action (Text × Receipt)
  transfer_class evm_class_id new_owner = send env.chain (transfer_ownership evm_class_id new_owner)

  abbrev pub mint_nfts : Text → ℕ → List Text → List Text → List Text → Action (Text × Receipt)
  mint_nfts class_id from_token_id tos memos metadata_list =
      send env.chain (safe_mint_with_token_id class_id from_token_id tos memos metadata_list)

  -- The first log that can be parsed.
  abbrev pub first_class : List ℕ → Option Text
  first_class [] = none
  first_class (log ∷ logs) = elim (env.parse_new_book_nft log) [
    | none ↦ first_class logs
    | some id ↦ some id
  ]

  -- `GetClassIdFromNewClassTransaction`
  unfoldable pub get_class_id : Receipt → Action Text
  get_class_id receipt = given (first_class receipt.logs) (raise no_event) pure

  abbrev pub make_metadata : Option Text → Result Text
  make_metadata none = err bad_metadata
  make_metadata (some text) = ok text
