-- ===== src/Indexer/Repos.antt =====
-- The repositories of accounts, classes, tokens and memos. Addresses are compared by their lower case.
-- (likenft-indexer/internal/database/account.go, nft.go, nftclass.go, transactionmemo.go)
pub mod Kept
use likecoin_op.Base.{
  ℕ, suc, ◌%◌, ◌^◌, Bool, true, false, ◌&&◌, ◌||◌, Option, none, some, List, [], ◌∷◌, ◌==◌,
  if◌then◌else◌, any, keep, replace, Text,
}
use likecoin_op.Exec.{
  Error, Result, ok, err, unique_violation, validation_failed, pure, raise, check, db_call,
  begin_tx, ◌>>=◌,
}
use likecoin_op.Indexer.Model.{
  Account, NftClass, Erc721Metadata, Nft, TransactionMemo, Book, Tables, Action, State,
}
use likecoin_op.Indexer.Db.{only, is_not_found, finish_tx, with_tx}

-- A statement on the tables that the processors write.
abbrev pub book_call : {A : Type 0} → (Book → Result A × Book) → Tables → Result A × Tables
book_call f t = ((f t.book).0, record t { book = (f t.book).1 })

abbrev pub same_likeid : Option Text → Option Text → Bool
same_likeid (some a) (some b) = a == b
same_likeid _ _ = false

-- `Account.Create`, with the unique columns `evm_address` and `likeid`.
unfoldable pub insert_account : Account → Book → Result (Unit {0}) × Book
insert_account a b =
    if any (λ (x : Account). (x.evm_address == a.evm_address) || same_likeid x.likeid a.likeid)
      b.accounts
    then (err unique_violation, b)
    else (ok tt, record b { accounts = record a { id = b.next } ∷ b.accounts; next = suc b.next })

-- `NFTClass.Create`, with the unique column `address`.
unfoldable pub insert_class : NftClass → Book → Result (Unit {0}) × Book
insert_class c b =
    if any (λ (x : NftClass). x.address == c.address) b.classes
    then (err unique_violation, b)
    else (ok tt, record b { classes = record c { id = b.next } ∷ b.classes; next = suc b.next })

-- `NFT.Create`, with the unique index on the contract and the token.
unfoldable pub insert_nft : Nft → Book → Result (Unit {0}) × Book
insert_nft n b =
    if any (λ (x : Nft). (x.contract_address == n.contract_address) && (x.token_id == n.token_id))
      b.nfts
    then (err unique_violation, b)
    else (ok tt, record b { nfts = record n { id = b.next } ∷ b.nfts; next = suc b.next })

-- `TransactionMemo.Create`, with its unique index.
unfoldable pub insert_memo : TransactionMemo → Book → Result (Unit {0}) × Book
insert_memo m b =
    if any
      (λ (x : TransactionMemo).
        (x.transaction_hash == m.transaction_hash)
        && ((x.book_nft_id == m.book_nft_id) && (x.token_id == m.token_id)))
      b.memos
    then (err unique_violation, b)
    else (ok tt, record b { memos = record m { id = b.next } ∷ b.memos; next = suc b.next })

-- `big.Int.Uint64`
abbrev pub uint64 : ℕ → ℕ
uint64 n = n % 2 ^ 64

-- The database fails as `fault` says; `fold` gives the lower case of a text.
module _ (fault : ℕ → Bool) (fold : Text → Text) where
  abbrev pub equal_fold : Text → Text → Bool
  equal_fold a b = fold a == fold b

  -- `WithTx` around statements that the body sends outside the transaction: neither a rollback nor a
  -- commit that fails takes them back.
  unfoldable pub with_tx_outside : {A : Type 0} → Action A → Action A
  with_tx_outside body =
      check (begin_tx fault) raise λ _ w. finish_tx fault (body w).1.db (body w).0 (body w).1

  unfoldable pub query_account : Text → Book → Result Account × Book
  query_account address b =
      (only (keep (λ (a : Account). equal_fold a.evm_address address) b.accounts), b)

  -- `GetAccountByEvmAddress`
  abbrev pub get_account_by_evm_address : Text → Action Account
  get_account_by_evm_address address = db_call fault (book_call (query_account address))

  -- `GetOrCreateAccount`
  unfoldable pub get_or_create_account : Account → Action Account
  get_or_create_account acct = with_tx_outside (
      check (get_account_by_evm_address acct.evm_address)
        (λ e.
          if is_not_found e
          then check (db_call fault (book_call (insert_account acct))) raise
              (λ _. get_account_by_evm_address acct.evm_address)
          else raise e)
        pure)

  -- The token of a contract, by the number that the column can hold.
  abbrev pub is_nft : Text → ℕ → Nft → Bool
  is_nft contract_address token_id n =
      equal_fold n.contract_address contract_address && (n.token_id == uint64 token_id)

  unfoldable pub query_nft : Text → ℕ → Book → Result Nft × Book
  query_nft contract_address token_id b = (only (keep (is_nft contract_address token_id) b.nfts), b)

  -- `GetOrCreate` of a token: the row that it creates is `n` with the address, the number of the column
  -- and the time.
  unfoldable pub get_or_create_nft : (ℕ → ℕ) → Text → ℕ → Nft → Action Nft
  get_or_create_nft now contract_address token_id n =
      let row : ℕ → Nft = λ t. record n {
        contract_address = contract_address;
        token_id = uint64 token_id;
        minted_at = now t;
        updated_at = now t;
      } in
      let query = db_call fault (book_call (query_nft contract_address token_id)) in
      with_tx fault (
        check query
          (λ e.
            if is_not_found e
            then check (λ w. db_call fault (book_call (insert_nft (row w.tick))) w) raise
                (λ _. query)
            else raise e)
          pure)

  unfoldable pub set_nft_owner : Text → ℕ → Text → ℕ → Book → Result (Unit {0}) × Book
  set_nft_owner contract_address token_id new_owner_address new_owner b = (
    ok tt,
    record b {
      nfts =
          replace (is_nft contract_address token_id)
            (λ (n : Nft). record n { owner_address = new_owner_address; owner = new_owner }) b.nfts;
    },
  )

  -- `UpdateOwner` of a token
  unfoldable pub update_nft_owner : Text → ℕ → Text → Account → Action (Unit {0})
  update_nft_owner contract_address token_id new_owner_address new_owner = with_tx fault (
      check (db_call fault (book_call (query_nft contract_address token_id))) raise λ _.
        db_call fault
          (book_call (set_nft_owner contract_address token_id new_owner_address new_owner.id)))

  abbrev pub is_class : Text → NftClass → Bool
  is_class address c = equal_fold c.address address

  unfoldable pub query_class : Text → Book → Result NftClass × Book
  query_class address b = (only (keep (is_class address) b.classes), b)

  -- `QueryNFTClassByAddress`
  abbrev pub query_nft_class_by_address : Text → Action NftClass
  query_nft_class_by_address address = db_call fault (book_call (query_class address))

  unfoldable pub set_class : Text → (NftClass → NftClass) → Book → Result (Unit {0}) × Book
  set_class address f b = (ok tt, record b { classes = replace (is_class address) f b.classes })

  -- The body that the three updates of a class share.
  unfoldable pub update_class_by : Text → (NftClass → NftClass) → Action (Unit {0})
  update_class_by address f = with_tx_outside (
      check (query_nft_class_by_address address) raise
        λ _. db_call fault (book_call (set_class address f)))

  -- `UpdateMetadata`
  abbrev pub update_metadata : Text → Text → Action (Unit {0})
  update_metadata address metadata =
      update_class_by address λ (c : NftClass). record c { metadata = metadata }

  -- `UpdateOwner` of a class: the column `owner_address` stays.
  abbrev pub update_class_owner : Text → Account → Action (Unit {0})
  update_class_owner address new_owner =
      update_class_by address λ (c : NftClass). record c { owner = new_owner.id }

  -- `UpdateTotalSupply`
  abbrev pub update_total_supply : Text → ℕ → Action (Unit {0})
  update_total_supply address new_total_supply =
      update_class_by address λ (c : NftClass). record c { total_supply = new_total_supply }

  -- `InsertNFTClass`: ent refuses an empty name or symbol.
  unfoldable pub insert_nft_class : (Text → Bool) → (ℕ → ℕ) → NftClass → Action (Unit {0})
  insert_nft_class is_empty now c = with_tx fault (
      if is_empty c.name || is_empty c.symbol then raise validation_failed else λ w.
      db_call fault (book_call (insert_class (record c { updated_at = now w.tick }))) w)

  unfoldable pub query_memo : TransactionMemo → Book → Result TransactionMemo × Book
  query_memo m b = (
    only (
        keep
          (λ (x : TransactionMemo).
            equal_fold x.transaction_hash m.transaction_hash
            && (equal_fold x.book_nft_id m.book_nft_id && (x.token_id == m.token_id)))
          b.memos),
    b,
  )

  -- `InsertTransactionMemo`
  unfoldable pub insert_transaction_memo : TransactionMemo → Action (Unit {0})
  insert_transaction_memo m = with_tx fault (
      check (db_call fault (book_call (query_memo m)))
        (λ e. if is_not_found e then db_call fault (book_call (insert_memo m)) else raise e)
        λ _. pure tt)
