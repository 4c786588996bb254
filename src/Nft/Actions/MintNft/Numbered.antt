-- ===== src/Nft/Actions/MintNft/Numbered.antt =====
-- Minting a numbered token: what is sent. (migration-backend/pkg/logic/likenft/do_mint_nft_action.go)
use likecoin_op.Base.{
  ℕ, suc, zero, ◌+◌, ◌^◌, ◌<◌, ◌≡◌, refl, sym, ap, ◌∙◌, max, Option, none, some, List, [], ◌∷◌,
  ◌++◌, length, find, All, arith, Text,
}
use mathlib.Core.Path.{subst}
use likecoin_op.Exec.{exec, Result, ok, check, raise, pure, outside, rpc_error}
use likecoin_op.Exec.Frame.{keeps_rules, Keeps}
use likecoin_op.Exec.Steps.{check-eq-ok}
use likecoin_op.Nft.Amount.{pos, int64, get_desire_batch_mint_amount, mint_reaches}
use likecoin_op.Nft.Actions.Model.{
  LikeNftMigrationActionMintNft, Request, new_book_nft, transfer_ownership, safe_mint_with_token_id,
  transfer_from, submit_evm_book_migrated, Action, State,
}
use likecoin_op.Ethereum.{send}
use likecoin_op.Nft.Actions.Calls.{Env, Class, CosmosNft, mint_nfts}
use likecoin_op.Ethereum.Quiet.{SameNet, same_net, send-net}
use likecoin_op.Nft.Actions.NewClass.{lift}
use likecoin_op.Nft.Actions.MintNft.{
  Batch, add, describe, described, make_batch, mint_batch, mint_numbered,
}

-- As many tokens as given, all for one owner, each with a memo and with metadata.
abbrev pub IsBatch : Text → ℕ → List Text → List Text → List Text → Type 0
IsBatch to n tos memos metadata_list =
    (length tos ≡ n)
    × (length memos ≡ n)
    × (length metadata_list ≡ n)
    × All (λ (t : Text). t ≡ to) tos

-- The requests that bring a supply up to a token: none if it is there, and else one batch that begins at
-- the supply and ends with the token.
abbrev pub ReachesToken : Text → Text → ℕ → ℕ → List Request → Type 0
ReachesToken class to total number [] = number < total
ReachesToken class to total number (safe_mint_with_token_id c from tos memos ms ∷ []) =
    (c ≡ class) × (from ≡ total) × ((n : ℕ) × (total + n ≡ number + 1) × IsBatch to n tos memos ms)
ReachesToken class to total number (safe_mint_with_token_id c from tos memos ms ∷ r ∷ rs) = ⊥
ReachesToken class to total number (new_book_nft m ∷ rs) = ⊥
ReachesToken class to total number (transfer_ownership a b ∷ rs) = ⊥
ReachesToken class to total number (transfer_from a b c d ∷ rs) = ⊥
ReachesToken class to total number (submit_evm_book_migrated a b ∷ rs) = ⊥

int64-small : (n : ℕ) → n + 1 < 2 ^ 63 → int64 n ≡ pos n
int64-small n h = ground (arith, h)

module _ (env : Env) where
  lift-SameNet : {A : Type 0} (r : Result A) → Keeps SameNet (lift r)
  lift-SameNet r = record { at = same_net.same }

  describe-SameNet :
      (class : Class) (iscn : Text) (nft : CosmosNft) → Keeps SameNet (describe env class iscn nft)
  unfolding describe
  describe-SameNet class iscn nft = search (keeps_rules, same_net, lift-SameNet)

  described-SameNet :
      (class : Class) (iscn : Text) (nft : Option CosmosNft)
      → Keeps SameNet (described env class iscn nft)
  described-SameNet class iscn none = search (keeps_rules, same_net)
  described-SameNet class iscn (some nft) = describe-SameNet class iscn nft

  make_batch-IsBatch :
      (class : Class) (iscn : Text) (nfts : List CosmosNft) (to : Text) (rounds number : ℕ)
      (w v : State) {batch : Batch}
      → make_batch env class iscn nfts to rounds number w ≡ (ok batch, v)
      → IsBatch to rounds batch.tos batch.memos batch.metadata_list × (v.net ≡ w.net)
  unfolding make_batch exec
  make_batch-IsBatch class iscn nfts to zero number w v {batch} h =
      let nothing : Batch = record { tos = []; memos = []; metadata_list = [] } in
      let eq : nothing ≡ batch = ground (arith, h) in
      (
        subst (λ (b : Batch). IsBatch to 0 b.tos b.memos b.metadata_list) eq (refl, refl, refl, tt),
        ground (arith, h),
      )
  make_batch-IsBatch class iscn nfts to (suc rounds) number w v {batch} h =
      let nft = find (λ (n : CosmosNft). env.has_number number n.id) nfts in
      let ((metadata, memo), u, p, q) =
        check-eq-ok (described env class iscn nft)
          (λ (metadata, memo).
            check (make_batch env class iscn nfts to rounds (suc number)) raise
              λ batch. pure (add to memo metadata batch))
          w v {b = batch} h in
      let (others, u2, p2, q2) =
        check-eq-ok (make_batch env class iscn nfts to rounds (suc number))
          (λ batch. pure (add to memo metadata batch)) u v {b = batch} q in
      let ih = make_batch-IsBatch class iscn nfts to rounds (suc number) u u2 {batch = others} p2 in
      let eq : add to memo metadata others ≡ batch = ground (arith, q2) in
      let at : u2.net ≡ v.net = ground (arith, q2) in
      (
        subst (λ (b : Batch). IsBatch to (suc rounds) b.tos b.memos b.metadata_list) eq
            (ap suc ih.0.0, ap suc ih.0.1, ap suc ih.0.2, (refl, ih.0.3)),
        sym at ∙ ih.1 ∙ net w u (described-SameNet class iscn nft) p,
      )
    where
      net :
          {A : Type 0} {m : Action A} {r : Result A} (w u : State)
          → Keeps SameNet m
          → m w ≡ (r, u)
          → u.net ≡ w.net
      net {A} {m} {r} w u k p = ap (λ (s : Result A × State). s.1.net) (sym p) ∙ k.at w

  -- The batch sends what brings the supply up to the token.
  mint_batch-ReachesToken :
      (a : LikeNftMigrationActionMintNft) (class : Class) (iscn cosmos_class_id : Text)
      (total number n : ℕ) (w v : State)
      → total + n ≡ max total (number + 1)
      → mint_batch env a class iscn cosmos_class_id total (pos n) w ≡ (ok tt, v)
      → (sent : List Request) × (v.net ≡ sent ++ w.net)
        × ReachesToken
            (env.hex_to_address a.evm_class_id)
            (env.hex_to_address a.initial_batch_mint_owner)
            total
            number
            sent
  unfolding mint_batch exec
  mint_batch-ReachesToken a class iscn cosmos_class_id total number zero w v reach h =
      ([], ground (arith, h), omega (arith, reach))
  mint_batch-ReachesToken a class iscn cosmos_class_id total number (suc n) w v reach h =
      let to = env.hex_to_address a.initial_batch_mint_owner in
      let (nfts, u, p, q) =
        check-eq-ok (outside (env.query_nfts_of_class cosmos_class_id) rpc_error)
          (λ nfts. check (make_batch env class iscn nfts to (suc n) total) raise λ batch.
            check
              (mint_nfts env (env.hex_to_address a.evm_class_id) total batch.tos batch.memos
                batch.metadata_list)
              raise λ _. pure tt)
          w v {b = tt} h in
      let (batch, u2, p2, q2) =
        check-eq-ok (make_batch env class iscn nfts to (suc n) total)
          (λ batch.
            check
              (mint_nfts env (env.hex_to_address a.evm_class_id) total batch.tos batch.memos
                batch.metadata_list)
              raise λ _. pure tt)
          u v {b = tt} q in
      let (x, u3, p3, q3) =
        check-eq-ok
          (mint_nfts env (env.hex_to_address a.evm_class_id) total batch.tos batch.memos
            batch.metadata_list)
          (λ _. pure tt) u2 v {b = tt} q2 in
      let (made, kept) =
        make_batch-IsBatch class iscn nfts to (suc n) total u u2 {batch = batch} p2 in
      let r =
        safe_mint_with_token_id (env.hex_to_address a.evm_class_id) total batch.tos batch.memos
          batch.metadata_list in
      let at : u3.net ≡ v.net = ground (arith, q3) in
      let start : u.net ≡ w.net = ground (arith, p) in
      (
        r ∷ [],
        sym at ∙ send-net env.chain r u2 u3 {x = x} p3 ∙ ap (λ net. r ∷ net) (kept ∙ start),
        (refl, refl, (suc n, omega (arith, reach), made)),
      )

  -- A numbered token that was minted and handed over: what was sent are the transfer of just that token
  -- from the owner of the batches to the owner of the action, and before it the requests that bring the
  -- supply, as the node has given it, up to the token. For numbers below 2 ^ 63 - 1.
  pub mint_numbered-ReachesToken :
      (a : LikeNftMigrationActionMintNft) (class : Class) (iscn cosmos_class_id : Text)
      (total number : ℕ) (w v : State) {hash : Text}
      → number + 1 < 2 ^ 63
      → mint_numbered env a class iscn cosmos_class_id total number w ≡ (ok hash, v)
      → (sent : List Request) × (v.net
          ≡ transfer_from
                (env.hex_to_address a.evm_class_id)
                (env.hex_to_address a.initial_batch_mint_owner)
                (env.hex_to_address a.evm_owner)
                (pos number)
              ∷ sent
            ++ w.net)
        × ReachesToken
            (env.hex_to_address a.evm_class_id)
            (env.hex_to_address a.initial_batch_mint_owner)
            total
            number
            sent
  unfolding mint_numbered exec
  mint_numbered-ReachesToken a class iscn cosmos_class_id total number w v {hash} small h =
      let (n, amount, reach) = mint_reaches total number small in
      let to = env.hex_to_address a.evm_owner in
      let r =
        transfer_from (env.hex_to_address a.evm_class_id)
          (env.hex_to_address a.initial_batch_mint_owner) to (int64 number) in
      let (_, u, p, q) =
        check-eq-ok
          (mint_batch env a class iscn cosmos_class_id total
            (get_desire_batch_mint_amount total number))
          (λ _. check (send env.chain r) raise λ (hash, _). pure hash) w v {b = hash} h in
      let (x, u2, p2, q2) =
        check-eq-ok (send env.chain r) (λ (hash, _). pure hash) u v {b = hash} q in
      let (sent, net, reaches) =
        mint_batch-ReachesToken a class iscn cosmos_class_id total number n w u reach (
          subst (λ i. mint_batch env a class iscn cosmos_class_id total i w ≡ (ok tt, u)) amount
            p) in
      let at : u2.net ≡ v.net = ground (arith, q2) in
      (
        sent,
        sym at
            ∙ send-net env.chain r u u2 {x = x} p2
            ∙ ap (λ l. r ∷ l) net
            ∙ ap
                (λ i.
                  transfer_from (env.hex_to_address a.evm_class_id)
                      (env.hex_to_address a.initial_batch_mint_owner) to i
                    ∷ sent
                  ++ w.net)
                (int64-small number small),
        reaches,
      )
