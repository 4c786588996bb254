-- ===== src/Indexer/Processors/Ledger.antt =====
-- Who owns which token, and how one statement changes it.
-- (likenft-indexer/internal/database/nft.go)
use likecoin_op.Base.{
  ℕ, ◌≡◌, refl, sym, ap, ◌∙◌, ◌⊎◌, inl, inr, ◌==◌, ◌&&◌, Bool, true, false, Option, none, some,
  List, ◌∷◌, find, replace, map_option, find-replace_same, find-replace_apart, arith, Option-cases,
  if◌then◌else◌, Text,
}
use mathlib.Core.Path.{subst}
use likecoin_op.Exec.{db_call}
use likecoin_op.Exec.Frame.{Keeps, Keeps-db_call}
use likecoin_op.Indexer.Model.{Nft, Book, State}
use likecoin_op.Indexer.Repos.{uint64, book_call, insert_nft, set_nft_owner}
use likecoin_op.Indexer.Repos.Kept.{DbFrame}

-- The abstract state: the address of the owner of a token of a contract.
abbrev pub Ledger : Type 0
Ledger = Text → ℕ → Option Text

-- One transfer of a token.
pub record Move : Type 0 where
  pub contract_address : Text
  pub token_id : ℕ
  pub to : Text

abbrev pub owner_in : Option Nft → Option Text
owner_in none = none
owner_in (some n) = some n.owner_address

eq_refl : (a : ℕ) → (a == a) ≡ true
eq_refl a = ground arith

module _ (fold : Text → Text) where
  -- The owner of the row that the repository finds.
  abbrev pub owner_of : List Nft → Ledger
  owner_of nfts c t =
      owner_in
        (find (λ (n : Nft). (fold n.contract_address == fold c) && (n.token_id == uint64 t)) nfts)

  -- The move is one of this token.
  abbrev pub moves : Move → Text → ℕ → Bool
  moves m c t = (fold m.contract_address == fold c) && (uint64 m.token_id == uint64 t)

  -- The abstract step.
  abbrev pub moved : Move → Ledger → Ledger
  moved m l c t = if moves m c t then some m.to else l c t

  -- From one table to the next, no token has changed its owner but that of the move, and that one only
  -- to the owner that the move gives it.
  abbrev pub TowardRows : Move → List Nft → List Nft → Type 0
  TowardRows m old new =
      ((c : Text) (t : ℕ) → moves m c t ≡ false → owner_of new c t ≡ owner_of old c t)
      × ((owner_of new m.contract_address m.token_id ≡ owner_of old m.contract_address m.token_id)
          ⊎ (owner_of new m.contract_address m.token_id ≡ some m.to))

  abbrev pub Toward : Move → State → State → Type 0
  Toward m w v = TowardRows m w.db.book.nfts v.db.book.nfts

  Toward-trans : (m : Move) (u v w : State) → Toward m u v → Toward m v w → Toward m u w
  Toward-trans m u v w (p, inl x) (q, inl y) = (λ c t h. q c t h ∙ p c t h, inl (y ∙ x))
  Toward-trans m u v w (p, inr x) (q, inl y) = (λ c t h. q c t h ∙ p c t h, inr (y ∙ x))
  Toward-trans m u v w (p, _) (q, inr y) = (λ c t h. q c t h ∙ p c t h, inr y)

  same_nfts : (m : Move) (old new : List Nft) → new ≡ old → TowardRows m old new
  same_nfts m old new same = (
    λ c t h. ap (λ nfts. owner_of nfts c t) same,
    inl (ap (λ nfts. owner_of nfts m.contract_address m.token_id) same),
  )

  pub toward : (m : Move) → DbFrame (Toward m)
  toward m = record {
    frame = record {
      same = λ w. same_nfts m w.db.book.nfts w.db.book.nfts refl;
      trans = Toward-trans m;
      tick = λ w. same_nfts m w.db.book.nfts w.db.book.nfts refl;
    };
    same_rows = λ w v events nfts. same_nfts m w.db.book.nfts v.db.book.nfts nfts;
  }

  module _ (m : Move) where
    -- A new row of the token belongs to the new owner.
    added :
        (n : Nft) (old : List Nft)
        → n.contract_address ≡ m.contract_address
        → n.token_id ≡ uint64 m.token_id
        → n.owner_address ≡ m.to
        → TowardRows m old (n ∷ old)
    added n old hc ht ho = (
      λ c t h. rw hc (rw ht (rw h refl)),
      inr (
          rw (hc, ht, eq_refl (fold m.contract_address), eq_refl (uint64 m.token_id)) (ap some ho)),
    )

    apart :
        (c : Text) (t : ℕ) (n : Nft)
        → moves m c t ≡ false
        → ((fold n.contract_address == fold m.contract_address)
            && (n.token_id == uint64 m.token_id))
          ≡ true
        → ((fold n.contract_address == fold c) && (n.token_id == uint64 t)) ≡ false
    apart c t n h q = ground arith

    -- An update of the token's rows gives it the new owner, where it has a row.
    updated :
        (owner : ℕ) (old : List Nft)
        → TowardRows m old (
            replace
              (λ (n : Nft).
                (fold n.contract_address == fold m.contract_address)
                && (n.token_id == uint64 m.token_id))
              (λ (n : Nft). record n { owner_address = m.to; owner = owner })
              old)
    updated owner old =
        let test : Nft → Bool = λ n.
          (fold n.contract_address == fold m.contract_address)
          && (n.token_id == uint64 m.token_id) in
        let change : Nft → Nft = λ n. record n { owner_address = m.to; owner = owner } in
        let found = find-replace_same test change old (λ n. refl) in
        (
          λ c t h. ap owner_in (
              find-replace_apart
                (λ (n : Nft). (fold n.contract_address == fold c) && (n.token_id == uint64 t)) test
                change old (λ n. apart c t n h) (λ n. refl)),
          elim (Option-cases (find test old)) [
            | inl none_there ↦ inl (
                ap owner_in (found ∙ ap (map_option change) none_there)
                ∙ sym (ap owner_in none_there))
            | inr (n, there) ↦ inr (ap owner_in (found ∙ ap (map_option change) there))
          ],
        )

  module _ (fault : ℕ → Bool) (m : Move) where
    insert_nft-rows :
        (n : Nft) (b : Book)
        → ((insert_nft n b).1.nfts ≡ b.nfts)
          ⊎ ((insert_nft n b).1.nfts ≡ record n { id = b.next } ∷ b.nfts)
    unfolding insert_nft
    insert_nft-rows n b = ground arith

    pub insert_nft-Toward :
        (n : Nft)
        → n.contract_address ≡ m.contract_address
        → n.token_id ≡ uint64 m.token_id
        → n.owner_address ≡ m.to
        → Keeps (Toward m) (db_call fault (book_call (insert_nft n)))
    insert_nft-Toward n hc ht ho =
        Keeps-db_call (toward m).frame fault (book_call (insert_nft n)) λ w.
          elim (insert_nft-rows n w.db.book) [
            | inl same ↦ same_nfts m w.db.book.nfts _ same
            | inr more ↦
                subst (TowardRows m w.db.book.nfts) (sym more)
                  (added m (record n { id = w.db.book.next }) w.db.book.nfts hc ht ho)
          ]

    pub set_nft_owner-Toward :
        (owner : ℕ)
        → Keeps (Toward m) (
            db_call fault
              (book_call (set_nft_owner fault fold m.contract_address m.token_id m.to owner)))
    unfolding set_nft_owner
    set_nft_owner-Toward owner =
        Keeps-db_call (toward m).frame fault
          (book_call (set_nft_owner fault fold m.contract_address m.token_id m.to owner))
          λ w. updated m owner w.db.book.nfts
