-- ===== src/Api/Distribution.antt =====
-- react-app/src/api/distributionAPI.ts
use likedao.Common.{
  Bool, Option, none, some, List, [], ◌∷◌, map, String, str_eq, filter, any, Result, ok, err, error,
  ◌>>=◌,
}
use likedao.Common.Int.{negsuc}
use likedao.Message.{Coin, EncodeObject, new_withdraw_delegator_reward_message}
use likedao.Amount.{BigNumberCoin}
use likedao.Chain.{Bytes, DelegatorReward, Session, connected_address}
use likedao.Api.Cosmos.{sign_tx, translate_address}
use likedao.Api.Bank.{to_token, amount_or_zero, find_minimal}
use likedao.Api.Staking.{null_on}

-- `BigNumberCoinDelegatorReward`
pub record CoinDelegatorReward (B : Type 0) : Type 0 where
  pub validator_address : String
  pub reward : BigNumberCoin B

module _ (s : Session) where
  open s.numbers use {BigNumber, shifted_by}
  open s.chain.currency use {coin_denom, coin_minimal_denom}

  -- the rewards of the chain carry 18 decimals below the minimal unit
  abbrev pub reward_coin : List Coin → BigNumberCoin BigNumber
  reward_coin coins = record {
    denom = coin_denom;
    amount = to_token s (shifted_by (negsuc 17) (amount_or_zero s (find_minimal s coins)));
  }

  -- `r.reward.some((rr) => rr.denom === CoinMinimalDenom)`
  abbrev pub is_related : DelegatorReward → Bool
  is_related r = any (λ c. str_eq c.denom coin_minimal_denom) r.reward

  abbrev pub withdraw_request : String → DelegatorReward → EncodeObject
  withdraw_request address r = new_withdraw_delegator_reward_message address r.validator_address

  -- the check for an empty list, and the signing of the requests
  unfoldable pub sign_requests : String → List DelegatorReward → Option String → Result Bytes
  sign_requests address [] memo = err (error "No rewards to withdraw")
  sign_requests address (r ∷ rs) memo = sign_tx s (map (withdraw_request address) (r ∷ rs)) memo

  unfoldable pub sign_withdraw_delegation_rewards_tx : Option String → Result Bytes
  unfolding connected_address sign_requests
  sign_withdraw_delegation_rewards_tx memo = do
    address ← connected_address s.wallet
    rewards ← s.query.delegation_total_rewards address
    sign_requests address (filter is_related rewards.rewards) memo

  unfoldable pub get_address_total_delegation_rewards : String → Result (BigNumberCoin BigNumber)
  get_address_total_delegation_rewards address = do
    rewards ← s.query.delegation_total_rewards address
    ok (reward_coin rewards.total)

  unfoldable pub get_total_delegation_rewards : Result (BigNumberCoin BigNumber)
  unfolding connected_address
  get_total_delegation_rewards = do
    address ← connected_address s.wallet
    rewards ← s.query.delegation_total_rewards address
    ok (reward_coin rewards.total)

  unfoldable pub get_all_delegator_delegation_rewards :
      String → Result (List (CoinDelegatorReward BigNumber))
  get_all_delegator_delegation_rewards delegator = do
    rewards ← s.query.delegation_total_rewards delegator
    ok (
        map (λ r. record { validator_address = r.validator_address; reward = reward_coin r.reward })
          (filter is_related rewards.rewards))

  -- the `try` block of `getDelegationRewardsByValidator`
  unfoldable pub query_rewards : String → String → Result (Option (BigNumberCoin BigNumber))
  query_rewards delegator validator = do
    rewards ← s.query.delegation_rewards delegator validator
    ok (some (reward_coin rewards))

  unfoldable pub get_delegation_rewards_by_validator :
      String → String → Result (Option (BigNumberCoin BigNumber))
  unfolding query_rewards null_on
  get_delegation_rewards_by_validator delegator validator =
      null_on "delegation does not exist" (query_rewards delegator validator)

  -- `validatorAddresses.includes(address)`
  abbrev pub is_among : List String → String → Bool
  is_among addresses address = any (λ a. str_eq a address) addresses

  unfoldable pub get_delegation_rewards_by_validators :
      String → List String → Result (List (BigNumberCoin BigNumber))
  get_delegation_rewards_by_validators delegator validators = do
    total ← s.query.delegation_total_rewards delegator
    ok (
        map (λ r. reward_coin r.reward)
          (filter (λ r. is_among validators r.validator_address) total.rewards))

  -- `convertMinimalTokenToToken(0)` where the chain answers no commission
  abbrev pub commission_coin : Option (List Coin) → BigNumberCoin BigNumber
  commission_coin none = record { denom = coin_denom; amount = to_token s s.numbers.big_zero }
  commission_coin (some coins) = reward_coin coins

  unfoldable pub get_address_total_commission : String → Result (BigNumberCoin BigNumber)
  unfolding translate_address
  get_address_total_commission address = do
    translated ← translate_address s.bech32 address s.chain.bech32_config.prefix_val_addr
    commission ← s.query.validator_commission translated
    ok (commission_coin commission)

  unfoldable pub get_total_commission : Result (BigNumberCoin BigNumber)
  unfolding connected_address translate_address
  get_total_commission = do
    address ← connected_address s.wallet
    translated ← translate_address s.bech32 address s.chain.bech32_config.prefix_val_addr
    commission ← s.query.validator_commission translated
    ok (commission_coin commission)
