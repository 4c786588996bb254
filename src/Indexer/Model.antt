-- ===== src/Indexer/Model.antt =====
-- The rows of the indexer and its world. (likenft-indexer/ent/schema)
use likecoin_op.Base.{ℕ, Bool, Option, List, Text}
use likecoin_op.Exec.{Error, Exec, World}

-- The values of the column `status`; any other text is `other`.
pub data EventStatus : Type 0 where
  received enqueued processing processed failed other : EventStatus

-- The parameters of an event by their names: Go's `map[string]any`.
abbrev pub Params : Type 0
Params = List (Text × Text)

pub record EvmEvent : Type 0 where
  pub id : ℕ
  pub transaction_hash : Text
  pub transaction_index : ℕ
  pub chain_id : ℕ
  pub block_hash : Text
  pub block_number : ℕ
  pub log_index : ℕ
  pub address : Text
  pub topic0 : Text
  pub topic0_hex : Text
  pub topic1 : Option Text
  pub topic1_hex : Option Text
  pub topic2 : Option Text
  pub topic2_hex : Option Text
  pub topic3 : Option Text
  pub topic3_hex : Option Text
  pub data_text : Option Text
  pub data_hex : Option (List ℕ)
  pub removed : Bool
  pub status : EventStatus
  pub name : Text
  pub signature : Text
  pub indexed_params : Params
  pub non_indexed_params : Params
  pub failed_reason : Option Error

pub record ProcessedBlockHeight : Type 0 where
  pub contract_type : ℕ
  pub contract_address : Text
  pub event : ℕ
  pub block_height : ℕ

pub record Account : Type 0 where
  pub id : ℕ
  pub cosmos_address : Option Text
  pub evm_address : Text
  pub likeid : Option Text

-- A class of tokens; `owner` is the edge to its account.
pub record NftClass : Type 0 where
  pub id : ℕ
  pub address : Text
  pub name : Text
  pub symbol : Text
  pub owner_address : Option Text
  pub total_supply : ℕ
  pub max_supply : ℕ
  pub metadata : Text
  pub deployer_address : Text
  pub deployed_block_number : ℕ
  pub minted_at : ℕ
  pub owner : ℕ
  pub updated_at : ℕ

-- The metadata of a token.
pub record Erc721Metadata : Type 0 where
  pub image : Text
  pub image_data : Text
  pub external_url : Text
  pub description : Text
  pub name : Text
  pub attributes : Text
  pub background_color : Text
  pub animation_url : Text
  pub youtube_url : Text

-- A token; its columns of metadata are one field, `owner` and `nft_class` are its edges.
pub record Nft : Type 0 where
  pub id : ℕ
  pub contract_address : Text
  pub token_id : ℕ
  pub token_uri : Text
  pub metadata : Erc721Metadata
  pub owner_address : Text
  pub minted_at : ℕ
  pub updated_at : ℕ
  pub owner : ℕ
  pub nft_class : ℕ

pub record TransactionMemo : Type 0 where
  pub id : ℕ
  pub transaction_hash : Text
  pub book_nft_id : Text
  pub from : Text
  pub to : Text
  pub token_id : ℕ
  pub memo : Text
  pub block_number : ℕ

-- The tables that the processors of events write, and the next value of their ids.
pub record Book : Type 0 where
  pub accounts : List Account
  pub classes : List NftClass
  pub nfts : List Nft
  pub memos : List TransactionMemo
  pub next : ℕ

-- The two tables of the pipeline, with the next value of the id of an event, and the other tables.
pub record Tables : Type 0 where
  pub events : List EvmEvent
  pub heights : List ProcessedBlockHeight
  pub next_event : ℕ
  pub book : Book

-- The ids of the events whose task was put into the queue, the newest first.
abbrev pub Queue : Type 0
Queue = List ℕ

abbrev pub Action : Type 0 → Type 0
Action A = Exec Tables Queue A

abbrev pub State : Type 0
State = World Tables Queue
