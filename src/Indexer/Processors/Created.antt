-- ===== src/Indexer/Processors/Created.antt =====
-- What the event of a new class stores.
-- (likenft-indexer/internal/logic/evmeventprocessor/new_book_nft.go)
use likecoin_op.Base.{
  ℕ, suc, ◌≡◌, refl, sym, ap, ◌∙◌, ◌==◌, ◌||◌, Bool, false, Option, none, some, List, ◌∷◌, any,
  arith, Text,
}
use mathlib.Core.Path.{subst}
use likecoin_op.Exec.{exec, Result, ok, outside, Error}
use likecoin_op.Exec.Steps.{check-eq-ok}
use likecoin_op.Indexer.Model.{Account, NftClass, EvmEvent, Tables, State}
use likecoin_op.Indexer.Db.{with_tx}
use likecoin_op.Indexer.Logs.{Log, convert_evm_event_to_log}
use likecoin_op.Indexer.Repos.{
  insert_account, insert_class, with_tx_outside, query_account, get_or_create_account,
  insert_nft_class,
}
use likecoin_op.Indexer.Processors.{
  EventProcessorDeps, LikeProtocolNewBookNft, account_of, of_result, unpacked, store_new_book_nft,
  process_new_book_nft,
}

outside-db :
    {A : Type 0} (answer : ℕ → Option A) (e : Error) (w v : State) {a : A}
    → outside answer e w ≡ (ok a, v)
    → v.db ≡ w.db
unfolding exec
outside-db answer e w v h = ground arith

of_result-eq-ok :
    {A : Type 0} (r : Result A) (w u : State) {a : A}
    → of_result r w ≡ (ok a, u)
    → (r ≡ ok a) × (u ≡ w)
unfolding of_result
of_result-eq-ok r w u h = (ground arith, ground arith)

module _ (fault : ℕ → Bool) (fold : Text → Text) where
  get_or_create_account-classes :
      (acct : Account) (w : State)
      → (get_or_create_account fault fold acct w).1.db.book.classes ≡ w.db.book.classes
  unfolding get_or_create_account with_tx_outside query_account insert_account exec
  get_or_create_account-classes acct w = ground arith

  account-classes :
      (acct account : Account) (w v : State)
      → get_or_create_account fault fold acct w ≡ (ok account, v)
      → v.db.book.classes ≡ w.db.book.classes
  account-classes acct account w v e =
      sym (ap (λ (s : Result Account × State). s.1.db.book.classes) e)
      ∙ get_or_create_account-classes acct w

  -- An insertion that returns has found no class with the address, and has named the new one.
  insert_nft_class-stores :
      (is_empty : Text → Bool) (now : ℕ → ℕ) (c : NftClass) (w v : State) {a : Unit {0}}
      → insert_nft_class fault fold is_empty now c w ≡ (ok a, v)
      → (any (λ (x : NftClass). x.address == c.address) w.db.book.classes ≡ false)
        × ((is_empty c.name || is_empty c.symbol) ≡ false)
        × ((row : NftClass) × (v.db.book.classes ≡ row ∷ w.db.book.classes)
            × (row.address ≡ c.address)
            × (row.owner ≡ c.owner))
  unfolding insert_nft_class with_tx insert_class exec
  insert_nft_class-stores is_empty now c w v h = (
    ground arith,
    ground arith,
    (record c { id = w.db.book.next; updated_at = now (suc w.tick) }, ground arith, refl, refl),
  )

-- Some class has the address.
abbrev pub has_class : Text → List NftClass → Bool
has_class address classes = any (λ (x : NftClass). x.address == address) classes

module _ (d : EventProcessorDeps) where
  -- The class is new, and is stored in front of the others with its address.
  abbrev pub Stored : Text → State → State → Type 0
  Stored address w v =
      (has_class address w.db.book.classes ≡ false)
      × (row : NftClass) × (v.db.book.classes ≡ row ∷ w.db.book.classes)
      × (row.address ≡ address)

  Stored-at :
      (address : Text) (w u v : State)
      → u.db.book.classes ≡ w.db.book.classes
      → Stored address u v
      → Stored address w v
  Stored-at address w u v same (free, row, new, named) = (
    subst (λ cs. has_class address cs ≡ false) same free,
    row,
    new ∙ ap (λ cs. row ∷ cs) same,
    named,
  )

  event-Stored :
      (e : EvmEvent) (event : LikeProtocolNewBookNft) (w v : State) {a : Unit {0}}
      → store_new_book_nft d e event w ≡ (ok a, v)
      → Stored (d.like_protocol_abi.address_hex event.book_nft) w v
  unfolding store_new_book_nft
  event-Stored e event w v {a} h =
      let (metadata, w1, p1, h1) = check-eq-ok _ _ w v {b = a} h in
      let (owner, w2, p2, h2) = check-eq-ok _ _ w1 v {b = a} h1 in
      let (account, w3, p3, h3) = check-eq-ok _ _ w2 v {b = a} h2 in
      let (supply, w4, p4, h4) = check-eq-ok _ _ w3 v {b = a} h3 in
      let same : w4.db.book.classes ≡ w.db.book.classes =
        ap (λ (t : Tables). t.book.classes) (outside-db _ _ w3 w4 p4)
        ∙ (account-classes d.fault d.fold (account_of (d.like_protocol_abi.address_hex owner))
              account w2 w3 p3
            ∙ (ap (λ (t : Tables). t.book.classes) (outside-db _ _ w1 w2 p2)
                ∙ ap (λ (t : Tables). t.book.classes) (outside-db _ _ w w1 p1))) in
      let (free, named, (row, new, address, kept)) =
        insert_nft_class-stores d.fault d.fold d.is_empty d.now _ w4 v h4 in
      Stored-at _ w w4 v same (free, row, new, address)

  unpacked-Stored :
      (e : EvmEvent) (o : Option LikeProtocolNewBookNft) (w v : State) {a : Unit {0}}
      → unpacked o (store_new_book_nft d e) w ≡ (ok a, v)
      → (event : LikeProtocolNewBookNft) × (o ≡ some event)
        × Stored (d.like_protocol_abi.address_hex event.book_nft) w v
  unfolding exec
  unpacked-Stored e none w v h = cc
  unpacked-Stored e (some event) w v {a} h = (event, refl, event-Stored e event w v {a = a} h)

  -- A run for the event of a new class that returns has found no class with its address, and has stored
  -- one in front of the others.
  pub new_book_nft-Stored :
      (e : EvmEvent) (w v : State) {a : Unit {0}}
      → process_new_book_nft d e w ≡ (ok a, v)
      → (log : Log) × (event : LikeProtocolNewBookNft) × (convert_evm_event_to_log
            d.like_protocol_abi e
          ≡ ok log)
        × (d.unpack_new_book_nft log ≡ some event)
        × Stored (d.like_protocol_abi.address_hex event.book_nft) w v
  unfolding process_new_book_nft
  new_book_nft-Stored e w v {a} h =
      let (log, u, got, rest) = check-eq-ok _ _ w v {b = a} h in
      let (event, found, stored) = unpacked-Stored e (d.unpack_new_book_nft log) u v {a = a} rest in
      let (converted, same) =
        of_result-eq-ok (convert_evm_event_to_log d.like_protocol_abi e) w u {a = log} got in
      (
        log,
        event,
        converted,
        found,
        subst (λ x. Stored (d.like_protocol_abi.address_hex event.book_nft) x v) same stored,
      )
