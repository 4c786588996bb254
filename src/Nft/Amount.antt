-- ===== src/Nft/Amount.antt =====
-- How many tokens to mint. (migration-backend/pkg/logic/likenft/do_mint_nft_action.go)
use likecoin_op.Base.{ℕ, ◌+◌, ◌-◌, ◌%◌, ◌^◌, ◌<◌, ◌≡◌, max, ltb, ◌==◌, if◌then◌else◌, arith}

-- A number of `big.Int`.
pub data Integer : Type 0 where
  pos neg : ℕ → Integer

-- The conversion `int64(...)` of an unsigned word.
abbrev pub int64 : ℕ → Integer
int64 n = let low = n % 2 ^ 64 in if ltb low (2 ^ 63) then pos low else neg (2 ^ 64 - low)

-- `Sub` of a number that is not negative.
abbrev pub sub_total : Integer → ℕ → Integer
sub_total (pos d) total = if ltb d total then neg (total - d) else pos (d - total)
sub_total (neg d) total = neg (d + total)

-- The branches of `GetDesireBatchMintAmount`, by the desired amount as a signed number.
abbrev pub mint_amount : ℕ → Integer → Integer → Integer
mint_amount total (neg d) next = pos 0
mint_amount total (pos d) next =
    if total == d then pos 1 else (if ltb d total then pos 0 else sub_total next total)

-- `GetDesireBatchMintAmount`, for a total supply, which is not negative
unfoldable pub get_desire_batch_mint_amount : ℕ → ℕ → Integer
get_desire_batch_mint_amount total_supply desire_amount =
    mint_amount total_supply (int64 desire_amount) (int64 ((desire_amount + 1) % 2 ^ 64))

-- Token ids are counted from 0. After minting the amount, the supply holds the token of the desired id:
-- it is the old supply or one more than the id, whichever is greater. For ids below 2 ^ 63 - 1.
pub mint_reaches :
    (total desire : ℕ)
    → desire + 1 < 2 ^ 63
    → (n : ℕ) × (get_desire_batch_mint_amount total desire ≡ pos n)
      × (total + n ≡ max total (desire + 1))
unfolding get_desire_batch_mint_amount
mint_reaches total desire h = (desire + 1 - total, ground (arith, h), ground (arith, h))
