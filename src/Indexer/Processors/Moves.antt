-- ===== src/Indexer/Processors/Moves.antt =====
-- A processor's run as one step of the ledger of owners.
-- (likenft-indexer/internal/logic/evmeventprocessor)
use likecoin_op.Base.{
  ℕ, ◌≡◌, refl, sym, ap, ◌∙◌, ◌⊎◌, inl, inr, ◌==◌, ◌&&◌, Bool, true, Option, none, some, List, [],
  ◌∷◌, find, keep, replace, map_option, find-replace_same, find-keep, arith, Bool-cases, eq_of_test,
  Text,
}
use likecoin_op.Exec.{exec, Result, ok, err, stop, raise, check, db_call, bump}
use likecoin_op.Exec.Steps.{Ends, check-eq-ok, db_call-eq-ok, db_call-result}
use likecoin_op.Indexer.Model.{Account, Nft, Tables, State}
use likecoin_op.Indexer.Db.{only}
use likecoin_op.Indexer.Db.Laws.{with_tx-eq-ok}
use likecoin_op.Indexer.Repos.{uint64, book_call, query_nft, set_nft_owner, update_nft_owner}
use likecoin_op.Indexer.Processors.Ledger.{Ledger, Move, owner_in, owner_of, moves, moved, Toward}

only-found :
    {A : Type 0} (p : A → Bool) (xs : List A) {a : A} → only (keep p xs) ≡ ok a → find p xs ≡ some a
only-found {A} p xs {a} h = go (keep p xs) refl h
  where
    go : (ys : List A) → keep p xs ≡ ys → only ys ≡ ok a → find p xs ≡ some a
    go [] e q = cc
    go (b ∷ []) e q = find-keep p xs {a = a} {rest = []} (ground (arith, e, q))
    go (b ∷ c ∷ ys) e q = cc

-- The event asks for no move, or for one.
abbrev pub after : (Text → Text) → Option Move → Ledger → Ledger
after fold none l = l
after fold (some m) l = moved fold m l

module _ (fold : Text → Text) where
  abbrev pub ledger : State → Ledger
  ledger w = owner_of fold w.db.book.nfts

  abbrev pub SameLedger : Ledger → Ledger → Type 0
  SameLedger l k = (c : Text) (t : ℕ) → k c t ≡ l c t

  -- A call that returns has made the step of the ledger. Another one has made it or changed nothing.
  abbrev pub StepsFrom : {A : Type 0} → Option Move → List Nft → Result A × State → Type 0
  StepsFrom o old (ok _, v) = SameLedger (after fold o (owner_of fold old)) (ledger v)
  StepsFrom o old (err _, v) =
      SameLedger (owner_of fold old) (ledger v)
      ⊎ SameLedger (after fold o (owner_of fold old)) (ledger v)
  StepsFrom o old (stop _, v) =
      SameLedger (owner_of fold old) (ledger v)
      ⊎ SameLedger (after fold o (owner_of fold old)) (ledger v)

  abbrev pub Steps : {A : Type 0} → Option Move → State → Result A × State → Type 0
  Steps o w s = StepsFrom o w.db.book.nfts s

  spelled :
      (m : Move) (nfts : List Nft) (c : Text) (t : ℕ)
      → moves fold m c t ≡ true
      → owner_of fold nfts c t ≡ owner_of fold nfts m.contract_address m.token_id
  spelled m nfts c t h =
      let same_c : fold m.contract_address ≡ fold c = eq_of_test _ _ (ground arith) in
      let same_t : uint64 m.token_id ≡ uint64 t = eq_of_test _ _ (ground arith) in
      rw (same_c, same_t) refl

  moved_to :
      (m : Move) (w v : State)
      → Toward fold m w v
      → ledger v m.contract_address m.token_id ≡ some m.to
      → SameLedger (moved fold m (ledger w)) (ledger v)
  moved_to m w v (others, _) owned c t = elim (Bool-cases (moves fold m c t)) [
    | inl hit ↦ spelled m v.db.book.nfts c t hit ∙ (owned ∙ rw hit refl)
    | inr miss ↦ others c t miss ∙ rw miss refl
  ]

  unmoved :
      (m : Move) (w v : State)
      → Toward fold m w v
      → ledger v m.contract_address m.token_id ≡ ledger w m.contract_address m.token_id
      → SameLedger (ledger w) (ledger v)
  unmoved m w v (others, _) kept c t = elim (Bool-cases (moves fold m c t)) [
    | inl hit ↦ spelled m v.db.book.nfts c t hit ∙ (kept ∙ sym (spelled m w.db.book.nfts c t hit))
    | inr miss ↦ others c t miss
  ]

  Toward-cases :
      (m : Move) (w v : State)
      → Toward fold m w v
      → SameLedger (ledger w) (ledger v) ⊎ SameLedger (moved fold m (ledger w)) (ledger v)
  Toward-cases m w v (others, inl kept) = inl (unmoved m w v (others, inl kept) kept)
  Toward-cases m w v (others, inr owned) = inr (moved_to m w v (others, inr owned) owned)

  pub Toward-Steps :
      (m : Move) (w v : State) (r : Result (Unit {0}))
      → Toward fold m w v
      → ((a : Unit {0}) → r ≡ ok a → ledger v m.contract_address m.token_id ≡ some m.to)
      → Steps (some m) w (r, v)
  Toward-Steps m w v (ok a) h e = moved_to m w v h (e a refl)
  Toward-Steps m w v (err x) h e = Toward-cases m w v h
  Toward-Steps m w v (stop x) h e = Toward-cases m w v h

  pub quiet-Steps :
      {A : Type 0} (w v : State) (r : Result A)
      → v.db.book.nfts ≡ w.db.book.nfts
      → Steps none w (r, v)
  quiet-Steps w v (ok a) h = λ c t. ap (λ nfts. owner_of fold nfts c t) h
  quiet-Steps w v (err x) h = inl λ c t. ap (λ nfts. owner_of fold nfts c t) h
  quiet-Steps w v (stop x) h = inl λ c t. ap (λ nfts. owner_of fold nfts c t) h

  -- An update of the owner that returns has found the token.
  pub update_nft_owner-Ends :
      (fault : ℕ → Bool) (c : Text) (t : ℕ) (to : Text) (owner : Account)
      → Ends (λ v. ledger v c t ≡ some to) (update_nft_owner fault fold c t to owner)
  unfolding update_nft_owner query_nft set_nft_owner exec
  update_nft_owner-Ends fault c t to owner = record {
    at = λ w v a e.
        let test : Nft → Bool =
          λ n. (fold n.contract_address == fold c) && (n.token_id == uint64 t) in
        let change : Nft → Nft = λ n. record n { owner_address = to; owner = owner.id } in
        let query = book_call (query_nft fault fold c t) in
        let set = book_call (set_nft_owner fault fold c t to owner.id) in
        let (done, same, net) = with_tx-eq-ok fault _ w v {a = a} e in
        let (n, u, asked, written) =
          check-eq-ok (db_call fault query) (λ _. db_call fault set) (bump w) _ {b = a}
            (ap (λ r. (r, (check (db_call fault query) raise (λ _. db_call fault set) (bump w)).1))
              done) in
        let found : find test w.db.book.nfts ≡ some n =
          only-found test w.db.book.nfts {a = n}
            (db_call-result fault query (bump w) u {a = n} asked) in
        let kept : u.db.book.nfts ≡ w.db.book.nfts =
          ap (λ (x : State). x.db.book.nfts) (db_call-eq-ok fault query (bump w) u {a = n} asked) in
        let new : v.db.book.nfts ≡ replace test change w.db.book.nfts =
          ap (λ (x : Tables). x.book.nfts) same
          ∙ (ap (λ (x : State). x.db.book.nfts) (db_call-eq-ok fault set u _ {a = a} written)
              ∙ ap (replace test change) kept) in
        ap (λ nfts. owner_of fold nfts c t) new
        ∙ ap owner_in (
            find-replace_same test change w.db.book.nfts (λ x. refl)
            ∙ ap (map_option change) found);
  }
