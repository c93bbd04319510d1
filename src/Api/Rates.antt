-- ===== src/Api/Rates.antt =====
-- The figures that the app computes with floating-point numbers: getParams and getAPR of
-- react-app/src/api/distributionAPI.ts, and the three figures of a validator of
-- react-app/src/models/staking.ts. JavaScript's numbers and the rounding of bignumber.js are
-- parameters.
use likedao.Common.{ℕ, Bool, Option, none, some, String, Result, ok, ◌>>=◌, or_throw}
use likedao.Common.Int.{ℤ, pos, negsuc, ◌-ℤ◌}
use likedao.Chain.{CommissionRates, Pool, Validator, SigningInfo, Session}
use likedao.Api.Bank.{get_total_supply}
use likedao.Api.Staking.{get_pool}

-- `1 - x` on numbers, a quotient of two integers as a number, and the operations of bignumber.js
pub record RateOps (B : Type 0) : Type 1 where
  pub Number : Type 0
  pub one_minus : Number → Number
  pub quotient : ℤ → ℤ → Number
  pub to_number : B → Number
  pub of_number : Number → B
  pub one : B
  pub times : B → B → B
  pub minus : B → B → B
  pub div : B → B → B

-- the parameters as the chain sends them
pub record DistributionParams : Type 0 where
  pub community_tax : String
  pub base_proposer_reward : String
  pub bonus_proposer_reward : String
  pub withdraw_addr_enabled : Bool

pub record DistributionParam (N : Type 0) : Type 0 where
  pub community_tax : N
  pub base_proposer_reward : N
  pub bonus_proposer_reward : N
  pub withdraw_addr_enabled : Bool

module _ (s : Session) (ops : RateOps s.numbers.BigNumber) where
  open s.numbers use {BigNumber, of_string, big_zero, shifted_by}
  open ops use {Number, one_minus, quotient, to_number, of_number, one, times, minus, div}

  -- the rates carry 18 decimals
  abbrev pub rate_number : String → Number
  rate_number rate = to_number (shifted_by (negsuc 17) (of_string rate))

  -- `params` and `inflation` are what `query.distribution.params()` and `query.mint.inflation()`,
  -- as a text, come to
  unfoldable pub get_params : Result (Option DistributionParams) → Result (DistributionParam Number)
  get_params params = do
    params_res ← params
    p ← or_throw params_res "Failed to fetch distribution parameters"
    ok (record {
      community_tax = rate_number p.community_tax;
      base_proposer_reward = rate_number p.base_proposer_reward;
      bonus_proposer_reward = rate_number p.bonus_proposer_reward;
      withdraw_addr_enabled = p.withdraw_addr_enabled;
    })

  unfoldable pub get_apr : Result (Option DistributionParams) → Result String → Result Number
  unfolding get_params
  get_apr distribution_params mint_inflation = do
    params ← get_params distribution_params
    inflation ← mint_inflation
    pool ← get_pool s
    total_supply ← get_total_supply s
    ok (
        to_number (
          div
            (times (times total_supply.amount (of_number (one_minus params.community_tax)))
              (of_string inflation))
            (of_string pool.bonded_tokens)))

  unfoldable pub calculate_validator_uptime : SigningInfo → ℕ → Number
  calculate_validator_uptime signing_info current_block_height = one_minus (
      quotient (pos signing_info.missed_blocks_counter)
        (pos current_block_height -ℤ pos signing_info.start_height))

  -- `validator.commission?.commissionRates?.rate ?? 0`
  abbrev pub commission_rate : Option CommissionRates → BigNumber
  commission_rate none = big_zero
  commission_rate (some rates) = elim rates.rate [ none ↦ big_zero | some rate ↦ of_string rate ]

  unfoldable pub calculate_validator_expected_return : String → Pool → Validator → Number
  calculate_validator_expected_return annual_provisions staking_pool validator =
      let pct_commission =
        minus one (shifted_by (negsuc 17) (commission_rate validator.commission)) in
      let bonded = of_string staking_pool.bonded_tokens in
      to_number (times pct_commission (div (of_string annual_provisions) bonded))

  unfoldable pub calculate_validator_voting_power : Pool → BigNumber → Number
  calculate_validator_voting_power staking_pool delegated_tokens =
      to_number (div delegated_tokens (of_string staking_pool.bonded_tokens))
