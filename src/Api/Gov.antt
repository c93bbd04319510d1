-- ===== src/Api/Gov.antt =====
-- react-app/src/api/govAPI.ts, api/slashingAPI.ts, and `convertUInt8ArrayToDecimal` of
-- utils/number.ts.
use likedao.Common.{
  ℕ, Option, none, some, List, [], ◌∷◌, String, str_append, Result, ok, ◌>>=◌, ◌>>◌, throw_if,
  or_throw, length, if◌then◌else◌,
}
use likedao.Message.{
  Coin, ProposalType, VoteOption, ProposalContentBody, make_submit_proposal_message,
  make_vote_message, make_deposit_message,
}
use likedao.Amount.{BigNumberCoin}
use likedao.Chain.{Bytes, SigningInfo, RawDepositParams, Session, connected_address}
use likedao.Api.Cosmos.{sign_tx}
use likedao.Api.Bank.{to_token, amount_or_zero, find_minimal, minimal_coin, get_balance}

-- What `Decimal` of @cosmjs/math holds: atomics / 10^fractional_digits.
pub record CosmosDecimal : Type 0 where
  pub atomics : ℕ
  pub fractional_digits : ℕ

-- `to_utf8` is the text of the bytes, and `from_atomics` the checks of `Decimal.fromAtomics`
module _ (to_utf8 : Bytes → String) (from_atomics : String → ℕ → Result CosmosDecimal) where
  unfoldable pub convert_uint8_array_to_decimal : Bytes → Result CosmosDecimal
  convert_uint8_array_to_decimal n = from_atomics (to_utf8 n) (length n)

pub record DepositParams (B : Type 0) : Type 0 where
  pub min_deposit : BigNumberCoin B
  pub max_deposit_period : ℕ

pub record TallyParams : Type 0 where
  pub quorum : CosmosDecimal
  pub threshold : CosmosDecimal
  pub veto_threshold : CosmosDecimal

pub record GovParams (B : Type 0) : Type 0 where
  pub deposit : DepositParams B
  pub tally : TallyParams
  pub voting_period : ℕ

module _ (s : Session) where
  open s.numbers use {BigNumber, big_zero, is_less_than, is_zero}
  open s.chain.currency use {coin_denom}

  abbrev pub get_min_deposit_from_all : Option (List Coin) → BigNumberCoin BigNumber
  get_min_deposit_from_all none = record { denom = coin_denom; amount = to_token s big_zero }
  get_min_deposit_from_all (some coins) = record {
    denom = coin_denom;
    amount = to_token s (amount_or_zero s (find_minimal s coins));
  }

  unfoldable pub sign_submit_proposal_tx :
      {P : Type 0} (encode : ProposalType → P → List ℕ)
      → ProposalContentBody P
      → BigNumber
      → Option String
      → Result Bytes
  unfolding connected_address make_submit_proposal_message
  sign_submit_proposal_tx encode proposal initial_deposit memo = do
    address ← connected_address s.wallet
    balance ← get_balance s
    throw_if (is_less_than balance.amount initial_deposit) "Insufficient funds"
    let deposit : List Coin =
        if is_zero initial_deposit then [] else minimal_coin s initial_deposit ∷ []
    sign_tx s (make_submit_proposal_message encode proposal deposit address ∷ []) memo

  unfoldable pub sign_vote_proposal_tx : ℕ → VoteOption → Option String → Result Bytes
  unfolding connected_address make_vote_message
  sign_vote_proposal_tx proposal_id option memo = do
    address ← connected_address s.wallet
    sign_tx s (make_vote_message proposal_id address option ∷ []) memo

  unfoldable pub sign_deposit_proposal_tx : ℕ → BigNumber → Option String → Result Bytes
  unfolding connected_address make_deposit_message
  sign_deposit_proposal_tx proposal_id amount memo = do
    address ← connected_address s.wallet
    balance ← get_balance s
    throw_if (is_less_than balance.amount amount) "Insufficient funds"
    sign_tx s (make_deposit_message proposal_id address (minimal_coin s amount ∷ []) ∷ []) memo

  abbrev pub min_deposit_of : Option RawDepositParams → Option (List Coin)
  min_deposit_of none = none
  min_deposit_of (some params) = some params.min_deposit

  unfoldable pub get_min_deposit_params : Result (BigNumberCoin BigNumber)
  get_min_deposit_params = do
    params ← s.query.gov_deposit_params
    ok (get_min_deposit_from_all (min_deposit_of params))

  unfoldable pub get_deposit_params : Result (DepositParams BigNumber)
  get_deposit_params = do
    found ← s.query.gov_deposit_params
    params ← or_throw found "Failed to fetch all governance params: deposit."
    ok (record {
      max_deposit_period = params.max_deposit_period;
      min_deposit = get_min_deposit_from_all (some params.min_deposit);
    })

  unfoldable pub get_voting_params : Result ℕ
  get_voting_params = do
    found ← s.query.gov_voting_params
    or_throw found "Failed to fetch all governance params: voting."

  module _ (to_utf8 : Bytes → String) (from_atomics : String → ℕ → Result CosmosDecimal) where
    unfoldable pub get_tally_params : Result TallyParams
    unfolding convert_uint8_array_to_decimal
    get_tally_params = do
      found ← s.query.gov_tally_params
      params ← or_throw found "Failed to fetch all governance params: tally."
      quorum ← convert_uint8_array_to_decimal to_utf8 from_atomics params.quorum
      threshold ← convert_uint8_array_to_decimal to_utf8 from_atomics params.threshold
      veto_threshold ← convert_uint8_array_to_decimal to_utf8 from_atomics params.veto_threshold
      ok (record { quorum = quorum; threshold = threshold; veto_threshold = veto_threshold })

    -- `Promise.all` of the three
    unfoldable pub get_all_params : Result (GovParams BigNumber)
    unfolding get_deposit_params get_tally_params get_voting_params
    get_all_params = do
      deposit ← get_deposit_params
      tally ← get_tally_params
      voting_period ← get_voting_params
      ok (record { deposit = deposit; tally = tally; voting_period = voting_period })

  unfoldable pub get_signing_info : String → Result SigningInfo
  get_signing_info consensus_address = do
    found ← s.query.signing_info consensus_address
    or_throw found (str_append "Failed to fetch signing info for " consensus_address)
