-- ===== src/Amount.antt =====
-- react-app/src/utils/coin.ts and models/coin.ts: amounts in the display denomination and in the
-- chain's minimal one.
use likedao.Common.{ℕ, ◌≡◌, String, ap, sym, ◌∙◌, arith}
use mathlib.Core.Path.{subst}
use likedao.Common.Int.{pos, negate}
use likedao.BigNumber.{BigNumberLib}

-- `BigNumberCoin`
pub record BigNumberCoin (B : Type 0) : Type 0 where
  pub denom : String
  pub amount : B

negate-negate : (n : ℕ) → negate (negate (pos n)) ≡ pos n
negate-negate n = ground arith

module _ (N : BigNumberLib) (decimals : ℕ) where
  open N use {
    BigNumber, shifted_by, is_less_than, sum, shifted_by_negate, is_less_than-shifted_by,
    shifted_by-sum,
  }

  unfoldable pub convert_minimal_token_to_token : BigNumber → BigNumber
  convert_minimal_token_to_token = shifted_by (negate (pos decimals))

  unfoldable pub convert_token_to_minimal_token : BigNumber → BigNumber
  convert_token_to_minimal_token = shifted_by (pos decimals)

  -- Converting an amount to minimal units and back, or the other way round, gives it unchanged.
  pub convert_round_trip :
      (x : BigNumber)
      → (convert_minimal_token_to_token (convert_token_to_minimal_token x) ≡ x)
        × (convert_token_to_minimal_token (convert_minimal_token_to_token x) ≡ x)
  unfolding convert_minimal_token_to_token convert_token_to_minimal_token
  convert_round_trip x = (
    shifted_by_negate (pos decimals) x,
    subst (λ k. shifted_by k (shifted_by (negate (pos decimals)) x) ≡ x) (negate-negate decimals)
        (shifted_by_negate (negate (pos decimals)) x),
  )

  -- A balance in tokens is below an amount exactly when the same is so in minimal units.
  pub is_less_than-convert :
      (raw amount : BigNumber)
      → is_less_than (convert_minimal_token_to_token raw) amount
        ≡ is_less_than raw (convert_token_to_minimal_token amount)
  unfolding convert_minimal_token_to_token convert_token_to_minimal_token
  is_less_than-convert raw amount =
      sym (is_less_than-shifted_by (pos decimals) (convert_minimal_token_to_token raw) amount)
      ∙ ap (λ r. is_less_than r (convert_token_to_minimal_token amount)) (convert_round_trip raw).1

  pub convert_minimal_token_to_token-sum :
      (x y : BigNumber)
      → convert_minimal_token_to_token (sum x y)
        ≡ sum (convert_minimal_token_to_token x) (convert_minimal_token_to_token y)
  unfolding convert_minimal_token_to_token
  convert_minimal_token_to_token-sum = shifted_by-sum (negate (pos decimals))
