-- ===== src/Coin/Convert.antt =====
-- Converting an amount between decimals. (migration-backend/pkg/likecoin/util/convert.go)
use likecoin_op.Base.{
  ℕ, suc, ◌+◌, ◌-◌, ◌*◌, zero, ◌/◌, ◌%◌, ◌^◌, ◌≤◌, ◌<◌, ◌≡◌, ap, sym, ◌∙◌, inl, inr, Bool, true,
  false, refl, Bool-cases, leb, ltb, if◌then◌else◌, arith,
}
use mathlib.Core.Path.{subst}
use native.Mathlib.Omega.{pow_step}
use native.Mathlib.Nat.{
  mul_assoc, mul-lt-mul_of_pos_right, pow-le-pow_right, mul-pos, div-eq-sub-div,
}
use likecoin_op.Exec.{Result, ok, err, stop, panicked, amount_too_small}

-- `cosmosmath.NewInt(div.Int64())` lies above the amount, which is not negative: the low 64 bits of `div`
-- as a signed number, which is negative from 2 ^ 63 on.
abbrev pub lt_int64 : ℕ → ℕ → Bool
lt_int64 amount div = let low = div % 2 ^ 64 in if ltb low (2 ^ 63) then ltb amount low else false

-- `pow`, a signed word, which is negative from 2 ^ 63 on: `original_decimals` is below 2 ^ 64 and
-- `new_decimals` below 2 ^ 8.
abbrev pub decimals_pow : ℕ → ℕ → ℕ
decimals_pow original_decimals new_decimals = (new_decimals + 2 ^ 64 - original_decimals) % 2 ^ 64

-- No memory holds 10 ^ 2 ^ 53 or more: `Exp` panics there. Below it, `float64` keeps the exponent.
abbrev pub multiplied : ℕ → ℕ → Result ℕ
multiplied original_amount pow =
    if ltb pow (2 ^ 53) then ok (original_amount * 10 ^ pow) else stop panicked

abbrev pub divided : ℕ → ℕ → Result ℕ
divided original_amount pow =
    if ltb pow (2 ^ 53)
    then (let div = 10 ^ pow in
        if lt_int64 original_amount div then err amount_too_small else ok (original_amount / div))
    else stop panicked

-- `ConvertAmountByDecimals`, for an amount that is not negative
unfoldable pub convert_amount_by_decimals : ℕ → ℕ → ℕ → Result ℕ
convert_amount_by_decimals original_amount original_decimals new_decimals =
    let pow = decimals_pow original_decimals new_decimals in
    if ltb pow (2 ^ 63)
    then multiplied original_amount pow
    else divided original_amount (2 ^ 64 - pow)

module _ (amount od nd : ℕ) (small : nd < 2 ^ 8) where
  convert-up :
      leb od nd ≡ true → convert_amount_by_decimals amount od nd ≡ ok (amount * 10 ^ (nd - od))
  unfolding convert_amount_by_decimals
  convert-up up =
      let pow : decimals_pow od nd ≡ nd - od = ground (arith, up, small) in
      let positive : ltb (nd - od) (2 ^ 63) ≡ true = ground (arith, small) in
      let held : ltb (nd - od) (2 ^ 53) ≡ true = ground (arith, small) in
      rw (pow, positive, held) refl

  convert-down :
      leb od nd ≡ false
      → od < 2 ^ 63
      → convert_amount_by_decimals amount od nd ≡ divided amount (od - nd)
  unfolding convert_amount_by_decimals
  convert-down down word =
      let negative : ltb (decimals_pow od nd) (2 ^ 63) ≡ false = ground (arith, down, word) in
      let pow : 2 ^ 64 - decimals_pow od nd ≡ od - nd = ground (arith, down, word) in
      rw (negative, pow) refl

pow_add : (k n : ℕ) → 10 ^ (k + n) ≡ 10 ^ k * 10 ^ n
pow_add zero n = grind arith
pow_add (suc k) n =
    let sum : suc k + n ≡ suc (k + n) = omega arith in
    let step : 10 ^ (suc k + n) ≡ 10 * 10 ^ (k + n) = ap (λ m. 10 ^ m) sum ∙ pow_step 10 (k + n) in
    let back : 10 ^ suc k * 10 ^ n ≡ 10 * (10 ^ k * 10 ^ n) =
      ap (λ m. m * 10 ^ n) (pow_step 10 k) ∙ mul_assoc 10 (10 ^ k) (10 ^ n) in
    step ∙ ap (λ m. 10 * m) (pow_add k n) ∙ sym back

pow_pos : (k : ℕ) → 0 < 10 ^ k
pow_pos zero = omega arith
pow_pos (suc k) = omega (arith, pow_pos k, pow_step 10 k)

-- The number is the amount in the new decimals, rounded down.
abbrev pub IsFloor : ℕ → ℕ → ℕ → ℕ → Type 0
IsFloor amount od nd n = (n * 10 ^ od ≤ amount * 10 ^ nd) × (amount * 10 ^ nd < suc n * 10 ^ od)

pow_small : (k : ℕ) → k ≤ 18 → 10 ^ k < 2 ^ 63
pow_small k h = omega (arith, pow-le-pow_right {n = 10} (omega arith) h)

abbrev pub Judged : ℕ → ℕ → ℕ → Result ℕ → Type 0
Judged amount od nd (ok n) = 1 ≤ n
Judged amount od nd (err e) = amount * 10 ^ nd < 10 ^ od
Judged amount od nd (stop s) = ⊥

lt_int64-eq : (amount d : ℕ) → d < 2 ^ 63 → lt_int64 amount d ≡ ltb amount d
lt_int64-eq amount d h = let low : d % 2 ^ 64 ≡ d = omega (arith, h) in ground (arith, low, h)

down-Judged : (amount nd k : ℕ) → k ≤ 18 → 1 ≤ amount → Judged amount (k + nd) nd (divided amount k)
down-Judged amount nd k h p =
    let d = 10 ^ k in
    let plain = lt_int64-eq amount d (pow_small k h) in
    let held : ltb k (2 ^ 53) ≡ true = ground (arith, h) in
    elim (Bool-cases (ltb amount d)) [
      | inl less ↦
          let below : amount < d = ground (arith, less) in
          let high : amount * 10 ^ nd < d * 10 ^ nd =
            mul-lt-mul_of_pos_right {k = 10 ^ nd} below (pow_pos nd) in
          let refused : amount * 10 ^ nd < 10 ^ (k + nd) = omega (arith, high, pow_add k nd) in
          rw (held, plain, less) refused
      | inr enough ↦
          let above : d ≤ amount = ground (arith, enough) in
          let kept : 1 ≤ amount / d =
            omega (arith, div-eq-sub-div {m = d} {n = amount} (pow_pos k) above) in
          rw (held, plain, enough) kept
    ]

-- Where at most 18 decimals are dropped, and the new decimals are a byte, an amount is refused just when
-- less than one unit would be left: a refused amount is not worth one unit, and what is returned for an
-- amount is not 0. From 19 dropped decimals on, the divisor no longer fits the signed word that the
-- amount is compared with.
pub convert_refuses :
    (amount od nd : ℕ)
    → nd < 2 ^ 8
    → od ≤ nd + 18
    → 1 ≤ amount
    → Judged amount od nd (convert_amount_by_decimals amount od nd)
convert_refuses amount od nd small h p = elim (Bool-cases (leb od nd)) [
  | inl up ↦
      let positive : 1 ≤ amount * 10 ^ (nd - od) = mul-pos p (pow_pos (nd - od)) in
      subst (Judged amount od nd) (sym (convert-up amount od nd small up)) positive
  | inr down ↦
      let same : od ≡ od - nd + nd = ground (arith, down) in
      let few : od - nd ≤ 18 = omega (arith, h) in
      let word : od < 2 ^ 63 = omega (arith, h, small) in
      subst (Judged amount od nd) (sym (convert-down amount od nd small down word)) (
        subst (λ m. Judged amount m nd (divided amount (od - nd))) (sym same)
          (down-Judged amount nd (od - nd) few p))
]
