-- ===== src/Examples/Figures.antt =====
-- The rows of two stakes. The figures are kept as decimals, and a division leaves its dividend.
use likedao.Common.{◌≡◌, refl, All, ok, [], ◌∷◌, List, map, String, Result}
use likedao.Common.Int.{pos, ◌-ℤ◌}
use likedao.Chain.{Pool}
use likedao.BigNumber.Decimal.{Decimal}
use likedao.Api.Staking.{get_pool, get_validator, get_validators}
use likedao.Api.Distribution.{get_delegation_rewards_by_validators, reward_coin}
use likedao.Api.Rates.{RateOps}
use likedao.Stakes.Rows.{stake_of, IsAligned}
use likedao.Stakes.Sorting.{StakeRow}
use likedao.Stakes.Figures.{HasFigures, stake_rows, rows_of, rows_of-IsAligned}
use likedao.Examples.Fixtures.{validator_of, total_rewards, nanolike, session}
use likedao.Examples.Submissions.{delegation, two_stakes, two_stakes_named}

abbrev rates : RateOps session.numbers.BigNumber
rates = record {
  Number = Decimal;
  one_minus = λ x. x;
  quotient = λ m n. record { coefficient = m -ℤ n; exponent = pos 0 };
  to_number = λ x. x;
  of_number = λ x. x;
  one = record { coefficient = pos 1; exponent = pos 0 };
  times = session.numbers.sum;
  minus = λ x y. x;
  div = λ x y. x;
}

abbrev pool : Pool
pool = record { bonded_tokens = "100"; not_bonded_tokens = "1" }

abbrev given_provisions : Result String
given_provisions = ok "100"

abbrev figured_rows : List (StakeRow session.numbers.BigNumber Decimal)
figured_rows =
    stake_rows session rates "100" pool (delegation "val1" ∷ delegation "val2" ∷ [])
      (validator_of "val1" ∷ validator_of "val2" ∷ [])
      (reward_coin session (nanolike "2000000000000000000000000000" ∷ [])
        ∷ reward_coin session (nanolike "1000000000000000000000000000" ∷ [])
        ∷ [])

figured_rows_fetched :
    rows_of session rates given_provisions "like1" (ok two_stakes) ≡ ok figured_rows
unfolding rows_of get_pool get_validators get_validator get_delegation_rewards_by_validators
figured_rows_fetched = refl

rows_of-IsAligned_example :
    (map (λ row. stake_of session row.info) figured_rows
      ≡ delegation "val1" ∷ delegation "val2" ∷ [])
    × All
        (λ row.
          IsAligned session total_rewards.rewards row.info
          × HasFigures session rates given_provisions row)
        figured_rows
rows_of-IsAligned_example =
    rows_of-IsAligned session rates given_provisions "like1" two_stakes
      (delegation "val1" ∷ delegation "val2" ∷ []) total_rewards figured_rows two_stakes_named refl
      refl figured_rows_fetched
