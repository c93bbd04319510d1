-- ===== src/Chain.antt =====
-- What the app is given by cosmjs: the answers of the chain's query client and the wallet's signing
-- client, as records of functions. Each answer is taken at the moment of the call.
use likedao.Common.{ℕ, Option, List, String, Result, ok, err, error}
use likedao.BigNumber.{BigNumberLib}
use likedao.Config.{ChainInfo}
use likedao.Message.{Coin, EncodeObject, SignDoc}

abbrev pub Bytes : Type 0
Bytes = List ℕ

pub record Delegation : Type 0 where
  pub delegator_address : String
  pub validator_address : String
  pub shares : String

pub record DelegationResponse : Type 0 where
  pub delegation : Option Delegation
  pub balance : Option Coin

pub record UnbondingEntry : Type 0 where
  pub balance : String

pub record UnbondingDelegation : Type 0 where
  pub validator_address : String
  pub entries : List UnbondingEntry

pub record DelegatorReward : Type 0 where
  pub validator_address : String
  pub reward : List Coin

pub record TotalRewards : Type 0 where
  pub rewards : List DelegatorReward
  pub total : List Coin

pub record Pool : Type 0 where
  pub bonded_tokens : String
  pub not_bonded_tokens : String

-- `commissionRates`, each as the chain's text
pub record CommissionRates : Type 0 where
  pub rate : Option String
  pub max_rate : Option String
  pub max_change_rate : Option String

pub record Description : Type 0 where
  pub moniker : String

pub record Validator : Type 0 where
  -- the encoded key
  pub consensus_pubkey : Option Bytes
  pub min_self_delegation : String
  pub operator_address : String
  pub description : Option Description
  pub tokens : String
  pub commission : Option CommissionRates

pub record SigningInfo : Type 0 where
  pub start_height : ℕ
  pub missed_blocks_counter : ℕ

-- one page of an answer; `next_key` is `pagination?.nextKey`
pub record Page {ℓ} (A : Type ℓ) : Type ℓ where
  pub responses : List A
  pub next_key : Option Bytes

-- `depositParams`, and the three rates of `tallyParams` as the bytes that the chain sends
pub record RawDepositParams : Type 0 where
  pub min_deposit : List Coin
  pub max_deposit_period : ℕ

pub record RawTallyParams : Type 0 where
  pub quorum : Bytes
  pub threshold : Bytes
  pub veto_threshold : Bytes

pub record QueryClient : Type 0 where
  pub bank_balance : String → String → Result Coin
  pub bank_total_supply : Result (List Coin)
  pub staking_delegation : String → String → Result (Option DelegationResponse)
  pub staking_delegator_delegations : String → Option Bytes → Result (Page DelegationResponse)
  pub staking_delegator_unbonding : String → Option Bytes → Result (Page UnbondingDelegation)
  pub staking_pool : Result (Option Pool)
  pub staking_validator : String → Result (Option Validator)
  pub delegation_total_rewards : String → Result TotalRewards
  pub delegation_rewards : String → String → Result (List Coin)
  pub validator_commission : String → Result (Option (List Coin))
  pub gov_deposit_params : Result (Option RawDepositParams)
  pub gov_tally_params : Result (Option RawTallyParams)
  pub gov_voting_params : Result (Option ℕ)
  pub signing_info : String → Result (Option SigningInfo)
  pub auth_account : String → Result (Option String)

pub record DeliverTxResponse : Type 0 where
  pub code : ℕ
  pub raw_log : String

pub record SignDataMessageResponse : Type 0 where
  pub signed : SignDoc
  pub signature : String

pub record WalletClient : Type 1 where
  pub Fee : Type 0
  pub TxRaw : Type 0
  pub calculate_fee : ℕ → String → Fee
  pub simulate : String → List EncodeObject → Option String → Result ℕ
  pub sign : String → List EncodeObject → Fee → String → Result TxRaw
  pub encode_tx : TxRaw → Bytes
  pub broadcast_tx : Bytes → Result DeliverTxResponse
  pub sign_arbitrary : String → String → Result SignDataMessageResponse
  pub get_balance_staked : String → Result (Option Coin)

-- the bech32 codec of @cosmjs/encoding
pub record Bech32 : Type 0 where
  pub normalize : String → Result String
  pub from_bech32 : String → Result Bytes
  pub to_bech32 : String → Bytes → String

-- the status that `useWallet` reports, with the account's address
pub data Wallet : Type 0 where
  connecting idle : Wallet
  connected : (address : String) → Wallet

-- what the hooks of one render give to the API functions
pub record Session : Type 1 where
  pub numbers : BigNumberLib
  pub chain : ChainInfo
  pub query : QueryClient
  pub signer : WalletClient
  pub bech32 : Bech32
  pub wallet : Wallet

-- `if (wallet.status !== Connected) throw …`, and the account's address otherwise
unfoldable pub connected_address : Wallet → Result String
connected_address connecting = err (error "Wallet not connected")
connected_address idle = err (error "Wallet not connected")
connected_address (connected address) = ok address
