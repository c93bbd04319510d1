-- ===== src/ValidatorDetail.antt =====
-- react-app/src/components/ValidatorDetailScreen/ValidatorDetailScreenAPI.tsx, with the commission of
-- models/staking.ts and `pubKeyToBech32` of utils/address.ts. The three floating-point figures
-- (expected return, uptime, voting power) and what is passed on unchanged are left out.
pub mod Stake
use mathlib.Core.Option
use likedao.Common.{
  ℕ, Option, none, some, List, [], ◌∷◌, String, Thrown, error, other, Result, ok, err, ◌>>=◌,
  or_throw,
}
use likedao.Common.Int.{negsuc}
use likedao.Amount.{BigNumberCoin}
use likedao.Chain.{
  Bytes, CommissionRates, Delegation, SigningInfo, Validator, Session, Wallet, connecting, idle,
  connected,
}
use likedao.Api.Cosmos.{translate_address}
use likedao.Api.Bank.{to_token}
use likedao.Api.Staking.{get_pool, get_validator, get_delegation}
use likedao.Api.Distribution.{get_delegation_rewards_by_validator}
use likedao.Api.Gov.{get_signing_info}
use likedao.Request.{RequestState, loading, loaded}
use likedao.Portfolio.{settle}

-- what `PublicKey.decode` gives
pub data PublicKey : Type 0 where
  ed25519 secp256k1 : Bytes → PublicKey
  unknown_key : PublicKey

-- `PublicKey.decode` of cosmjs-types, and `pubkeyToRawAddress` of tendermint-rpc
pub record KeyCodec : Type 0 where
  pub decode : Bytes → Result PublicKey
  pub pubkey_to_raw_address : String → Bytes → Result Bytes

module _ (s : Session) (keys : KeyCodec) where
  open s.numbers use {BigNumber, of_string, big_zero, shifted_by}
  open s.bech32 use {to_bech32}

  unfoldable pub bech32_of : PublicKey → String → Result String
  bech32_of (ed25519 key) prefix = do
    raw ← keys.pubkey_to_raw_address "ed25519" key
    ok (to_bech32 prefix raw)
  bech32_of (secp256k1 key) prefix = do
    raw ← keys.pubkey_to_raw_address "ed25519" key
    ok (to_bech32 prefix raw)
  bech32_of unknown_key prefix = err (error "invalid pubkey type")

  unfoldable pub pub_key_to_bech32 : Bytes → String → Result String
  unfolding bech32_of
  pub_key_to_bech32 pub_key prefix = do decoded ← keys.decode pub_key; bech32_of decoded prefix

  unfoldable pub convert_pub_key_to_consensus_address : Bytes → Result String
  unfolding pub_key_to_bech32
  convert_pub_key_to_consensus_address consensus_pubkey =
      pub_key_to_bech32 consensus_pubkey s.chain.bech32_config.prefix_cons_addr

  -- the rates have 18 decimals
  abbrev pub rate_of : Option String → BigNumber
  rate_of none = shifted_by (negsuc 17) big_zero
  rate_of (some rate) = shifted_by (negsuc 17) (of_string rate)

  pub record ValidatorCommission : Type 0 where
    pub rate : BigNumber
    pub max_rate : BigNumber
    pub max_change_rate : BigNumber

  unfoldable pub convert_commission : Option CommissionRates → ValidatorCommission
  convert_commission none = record {
    rate = rate_of none;
    max_rate = rate_of none;
    max_change_rate = rate_of none;
  }
  convert_commission (some rates) = record {
    rate = rate_of rates.rate;
    max_rate = rate_of rates.max_rate;
    max_change_rate = rate_of rates.max_change_rate;
  }

  abbrev pub Stake : Type 0
  Stake = Delegation × BigNumberCoin BigNumber

  pub record ValidatorDetail : Type 0 where
    pub operator_address : String
    pub consensus_pub_addr : String
    pub tokens : BigNumberCoin BigNumber
    pub commission : ValidatorCommission
    pub min_self_delegation : BigNumberCoin BigNumber
    pub self_delegation : Option (BigNumberCoin BigNumber)
    pub self_delegation_address : String
    pub signing_info : SigningInfo
    -- the delegation of the connected wallet, with its reward
    pub stake : Option (Stake × BigNumberCoin BigNumber)

  -- `walletConnected ? … : Promise.resolve(null)`
  unfoldable pub wallet_stake : Wallet → String → Result (Option Stake)
  wallet_stake connecting validator = ok none
  wallet_stake idle validator = ok none
  wallet_stake (connected address) validator = get_delegation s address validator

  unfoldable pub wallet_reward : Wallet → String → Result (Option (BigNumberCoin BigNumber))
  wallet_reward connecting validator = ok none
  wallet_reward idle validator = ok none
  wallet_reward (connected address) validator =
      get_delegation_rewards_by_validator s address validator

  -- `stake !== null && reward !== null ? { ...stake, reward } : null`
  abbrev pub both :
      Option Stake → Option (BigNumberCoin BigNumber) → Option (Stake × BigNumberCoin BigNumber)
  both none reward = none
  both (some stake) none = none
  both (some stake) (some reward) = some (stake, reward)

  abbrev pub in_tokens : String → BigNumberCoin BigNumber
  in_tokens amount = record {
    denom = s.chain.currency.coin_denom;
    amount = to_token s (of_string amount);
  }

  -- the `try` block after `Promise.all`
  unfoldable pub detail_of :
      Validator → Option Stake → Option (BigNumberCoin BigNumber) → Result ValidatorDetail
  unfolding convert_pub_key_to_consensus_address convert_commission
  detail_of validator stake reward = do
    pub_key ← or_throw validator.consensus_pubkey "Validator has no consensus pubkey"
    consensus_address ← convert_pub_key_to_consensus_address pub_key
    signing_info ← get_signing_info s consensus_address
    self_address ←
        translate_address s.bech32 validator.operator_address s.chain.bech32_config.prefix_acc_addr
    self_delegation ← get_delegation s self_address validator.operator_address
    ok (record {
      operator_address = validator.operator_address;
      consensus_pub_addr = consensus_address;
      tokens = in_tokens validator.tokens;
      commission = convert_commission validator.commission;
      min_self_delegation = in_tokens validator.min_self_delegation;
      self_delegation = Option.map (λ d. d.1) self_delegation;
      self_delegation_address = self_address;
      signing_info = signing_info;
      stake = both stake reward;
    })

  -- `height` and `provisions` are what `getHeight()` and `annualProvisions()` come to
  module _ {P : Type 0} (height : Result ℕ) (provisions : Result P) where
    unfoldable pub detail : String → Result ValidatorDetail
    unfolding wallet_stake wallet_reward detail_of
    detail address = do
      current_block_height ← height
      annual_provision ← provisions
      staking_pool ← get_pool s
      validator ← get_validator s address
      stake ← wallet_stake s.wallet address
      reward ← wallet_reward s.wallet address
      detail_of validator stake reward

    -- the request states that `fetch` sets, in order
    unfoldable pub fetch_validator : String → List (RequestState ValidatorDetail)
    unfolding detail
    fetch_validator address = loading ∷ settle (detail address)
