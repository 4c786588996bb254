-- ===== src/Indexer/Repos/Kept.antt =====
-- What the repositories keep: a relation on the tables that holds along their statements holds along
-- their operations. (likenft-indexer/internal/database)
use likecoin_op.Base.{ℕ, ◌≡◌, refl, ap, ◌⊎◌, inl, inr, Bool, arith, ◌||◌, Text}
use likecoin_op.Exec.{exec, Result, ok, err, stop, raise, bump, db_call, validation_failed}
use likecoin_op.Exec.Frame.{
  Frame, Keeps, Keeps-pure, Keeps-raise, Keeps-check, Keeps-if, Keeps-db_call,
}
use likecoin_op.Indexer.Model.{Account, NftClass, TransactionMemo, Nft, Book, Tables, Action, State}
use likecoin_op.Indexer.Db.{with_tx, is_not_found}
use likecoin_op.Indexer.Db.Laws.{with_tx_atomic, with_tx-eq-ok}
use likecoin_op.Indexer.Repos.{
  uint64, book_call, insert_account, insert_class, insert_nft, insert_memo, with_tx_outside,
  query_account, get_or_create_account, query_nft, get_or_create_nft, set_nft_owner,
  update_nft_owner, query_class, query_nft_class_by_address, set_class, update_class_by,
  insert_nft_class, query_memo, insert_transaction_memo,
}

-- A relation between worlds that looks at their events and their tokens only.
pub record DbFrame (R : State → State → Type 0) : Type 0 where
  pub frame : Frame R
  pub same_rows :
      (w v : State) → v.db.events ≡ w.db.events → v.db.book.nfts ≡ w.db.book.nfts → R w v

module _ {A : Type 0} (fault : ℕ → Bool) (fold : Text → Text) (body : Action A) (w : State) where
  -- Outside the transaction, what the body has written stays.
  with_tx_outside-db :
      ((with_tx_outside fault fold body w).1.db ≡ w.db)
      ⊎ ((with_tx_outside fault fold body w).1.db ≡ (body (bump w)).1.db)
  unfolding with_tx_outside exec
  with_tx_outside-db = ground arith

module _ {R : State → State → Type 0} (F : DbFrame R) (fault : ℕ → Bool) where
  same_db : (w v : State) → v.db ≡ w.db → R w v
  same_db w v same =
      F.same_rows w v (ap (λ (t : Tables). t.events) same) (ap (λ (t : Tables). t.book.nfts) same)

  -- A statement that leaves the tokens alone.
  quiet :
      {A : Type 0} (f : Book → Result A × Book)
      → ((b : Book) → (f b).1.nfts ≡ b.nfts)
      → Keeps R (db_call fault (book_call f))
  quiet f h = Keeps-db_call F.frame fault (book_call f) λ w. F.same_rows w _ refl (h w.db.book)

  Keeps-with_tx_at :
      {A : Type 0} (body : Action A) (w v : State) (r : Result A)
      → Keeps R body
      → with_tx fault body w ≡ (r, v)
      → R w v
  Keeps-with_tx_at body w v (ok a) k h =
      let (e, same, net) = with_tx-eq-ok fault body w v {a = a} h in
      F.frame.trans w (body (bump w)).1 v
        (F.frame.trans w (bump w) (body (bump w)).1 (F.frame.tick w) (k.at (bump w)))
        (same_db _ v same)
  Keeps-with_tx_at body w v (err e) k h =
      same_db w v (with_tx_atomic fault body w v {r = err e} h tt)
  Keeps-with_tx_at body w v (stop s) k h =
      same_db w v (with_tx_atomic fault body w v {r = stop s} h tt)

  pub Keeps-with_tx : {A : Type 0} (body : Action A) → Keeps R body → Keeps R (with_tx fault body)
  Keeps-with_tx body k = record {
    at = λ w. Keeps-with_tx_at body w (with_tx fault body w).1 (with_tx fault body w).0 k refl;
  }

  module _ (fold : Text → Text) where
    pub Keeps-with_tx_outside :
        {A : Type 0} (body : Action A) → Keeps R body → Keeps R (with_tx_outside fault fold body)
    Keeps-with_tx_outside body k = record {
      at = λ w. elim (with_tx_outside-db fault fold body w) [
        | inl same ↦ same_db w _ same
        | inr same ↦
            F.frame.trans w (body (bump w)).1 _
              (F.frame.trans w (bump w) (body (bump w)).1 (F.frame.tick w) (k.at (bump w)))
              (same_db _ _ same)
      ];
    }

    query_account-Keeps :
        (address : Text) → Keeps R (db_call fault (book_call (query_account fault fold address)))
    unfolding query_account
    query_account-Keeps address = quiet _ λ b. refl

    insert_account-nfts : (a : Account) (b : Book) → (insert_account a b).1.nfts ≡ b.nfts
    unfolding insert_account
    insert_account-nfts a b = ground arith

    insert_class-nfts : (c : NftClass) (b : Book) → (insert_class c b).1.nfts ≡ b.nfts
    unfolding insert_class
    insert_class-nfts c b = ground arith

    insert_memo-nfts : (m : TransactionMemo) (b : Book) → (insert_memo m b).1.nfts ≡ b.nfts
    unfolding insert_memo
    insert_memo-nfts m b = ground arith

    pub get_or_create_account-Keeps : (a : Account) → Keeps R (get_or_create_account fault fold a)
    unfolding get_or_create_account
    get_or_create_account-Keeps a = Keeps-with_tx_outside _ (
        Keeps-check F.frame _ _ _ (query_account-Keeps a.evm_address)
          (λ e.
            Keeps-if F.frame (is_not_found e) _ _
              (Keeps-check F.frame _ _ _ (quiet (insert_account a) (insert_account-nfts a))
                (Keeps-raise F.frame) (λ _. query_account-Keeps a.evm_address))
              (Keeps-raise F.frame e))
          (Keeps-pure F.frame))

    pub query_class-Keeps :
        (address : Text) → Keeps R (query_nft_class_by_address fault fold address)
    unfolding query_class
    query_class-Keeps address = quiet _ λ b. refl

    set_class-Keeps :
        (address : Text) (f : NftClass → NftClass)
        → Keeps R (db_call fault (book_call (set_class fault fold address f)))
    unfolding set_class
    set_class-Keeps address f = quiet _ λ b. refl

    pub update_class_by-Keeps :
        (address : Text) (f : NftClass → NftClass) → Keeps R (update_class_by fault fold address f)
    unfolding update_class_by
    update_class_by-Keeps address f = Keeps-with_tx_outside _ (
        Keeps-check F.frame _ _ _ (query_class-Keeps address) (Keeps-raise F.frame)
          (λ _. set_class-Keeps address f))

    pub insert_nft_class-Keeps :
        (is_empty : Text → Bool) (now : ℕ → ℕ) (c : NftClass)
        → Keeps R (insert_nft_class fault fold is_empty now c)
    unfolding insert_nft_class
    insert_nft_class-Keeps is_empty now c =
        let insert : Action (Unit {0}) =
          λ w. db_call fault (book_call (insert_class (record c { updated_at = now w.tick }))) w in
        Keeps-with_tx _ (
          Keeps-if F.frame (is_empty c.name || is_empty c.symbol) (raise validation_failed) insert
            (Keeps-raise F.frame validation_failed)
            (record {
              at = λ w.
                  (quiet (insert_class (record c { updated_at = now w.tick }))
                      (insert_class-nfts (record c { updated_at = now w.tick }))).at
                    w;
            }))

    query_memo-Keeps :
        (m : TransactionMemo) → Keeps R (db_call fault (book_call (query_memo fault fold m)))
    unfolding query_memo
    query_memo-Keeps m = quiet _ λ b. refl

    pub insert_memo-Keeps : (m : TransactionMemo) → Keeps R (insert_transaction_memo fault fold m)
    unfolding insert_transaction_memo
    insert_memo-Keeps m = Keeps-with_tx _ (
        Keeps-check F.frame _ _ _ (query_memo-Keeps m)
          (λ e.
            Keeps-if F.frame (is_not_found e) _ _ (quiet (insert_memo m) (insert_memo-nfts m))
              (Keeps-raise F.frame e))
          (λ _. Keeps-pure F.frame tt))

    query_nft-Keeps :
        (c : Text) (t : ℕ) → Keeps R (db_call fault (book_call (query_nft fault fold c t)))
    unfolding query_nft
    query_nft-Keeps c t = quiet _ λ b. refl

    -- Of the tokens, the insertion and the update are the relation's own.
    pub get_or_create_nft-Keeps :
        (now : ℕ → ℕ) (c : Text) (t : ℕ) (n : Nft)
        → ((row : Nft)
            → row.contract_address ≡ c
            → row.token_id ≡ uint64 t
            → row.owner_address ≡ n.owner_address
            → Keeps R (db_call fault (book_call (insert_nft row))))
        → Keeps R (get_or_create_nft fault fold now c t n)
    unfolding get_or_create_nft
    get_or_create_nft-Keeps now c t n inserted = Keeps-with_tx _ (
        Keeps-check F.frame _ _ _ (query_nft-Keeps c t)
          (λ e.
            Keeps-if F.frame (is_not_found e) _ _
              (Keeps-check F.frame _ _ _ (record { at = λ w. (inserted _ refl refl refl).at w })
                (Keeps-raise F.frame) (λ _. query_nft-Keeps c t))
              (Keeps-raise F.frame e))
          (Keeps-pure F.frame))

    pub update_nft_owner-Keeps :
        (c : Text) (t : ℕ) (to : Text) (owner : Account)
        → Keeps R (db_call fault (book_call (set_nft_owner fault fold c t to owner.id)))
        → Keeps R (update_nft_owner fault fold c t to owner)
    unfolding update_nft_owner
    update_nft_owner-Keeps c t to owner updated =
        Keeps-with_tx _
          (Keeps-check F.frame _ _ _ (query_nft-Keeps c t) (Keeps-raise F.frame) (λ _. updated))
