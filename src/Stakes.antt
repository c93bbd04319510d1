-- ===== src/Stakes.antt =====
-- react-app/src/components/StakesTablePanel/StakesTablePanelAPI.tsx: the rows of the table of stakes.
-- The two floating-point columns are added in Stakes.Figures, and the sorting is in Stakes.Sorting.
pub mod Rows
pub mod Sorting
pub mod Order
pub mod Figures
use mathlib.Core.Option
use likedao.Common.{
  ℕ, Bool, true, false, Option, none, some, List, [], ◌∷◌, map, String, str_eq, Thrown, error,
  Result, ok, err, ◌>>=◌,
}
use likedao.Amount.{BigNumberCoin}
use likedao.Chain.{Delegation, Pool, Validator, Session, Wallet, connecting, idle, connected}
use likedao.Api.Staking.{get_delegator_stakes, get_pool, get_validators}
use likedao.Api.Distribution.{get_delegation_rewards_by_validators}
use likedao.Portfolio.{is_valid_address}
use likedao.Request.{RequestState, loading, loaded, failed}

-- `reward` is `rewards[i]`, which may be undefined
pub record StakedValidatorInfo (B : Type 0) : Type 0 where
  pub delegation : Delegation
  pub balance : BigNumberCoin B
  pub reward : Option (BigNumberCoin B)
  pub validator : Validator

module _ {B : Type 0} where
  -- the delegations with their addresses; the read of a field of undefined throws
  unfoldable pub delegations_of :
      List (Option Delegation × BigNumberCoin B) → Result (List (Delegation × BigNumberCoin B))
  delegations_of [] = ok []
  delegations_of ((none, balance) ∷ stakes) =
      err (error "Cannot read properties of undefined (reading 'validatorAddress')")
  delegations_of ((some d, balance) ∷ stakes) = do
    rest ← delegations_of stakes
    ok ((d, balance) ∷ rest)

  abbrev pub address_of : Delegation × BigNumberCoin B → String
  address_of stake = stake.0.validator_address

  -- `rewards[0]`, and the rewards from the next index on
  abbrev pub first_of : List (BigNumberCoin B) → Option (BigNumberCoin B)
  first_of [] = none
  first_of (r ∷ rs) = some r

  abbrev pub rest_of : List (BigNumberCoin B) → List (BigNumberCoin B)
  rest_of [] = []
  rest_of (r ∷ rs) = rs

  -- the `map` over the delegations, whose index runs over the three lists
  unfoldable pub stake_entries :
      List (Delegation × BigNumberCoin B)
      → List Validator
      → List (BigNumberCoin B)
      → List (StakedValidatorInfo B)
  stake_entries [] validators rewards = []
  stake_entries (stake ∷ stakes) [] rewards = []
  stake_entries (stake ∷ stakes) (v ∷ validators) rewards =
      record { delegation = stake.0; balance = stake.1; reward = first_of rewards; validator = v }
      ∷ stake_entries stakes validators (rest_of rewards)

module _ (s : Session) where
  open s.numbers use {BigNumber}

  -- `provisions` is what `query.mint.annualProvisions()` comes to
  module _ {P : Type 0} (provisions : Result P) where
    -- the rest of `fetchStakes`, after the stakes have come
    unfoldable pub entries_of :
        String
        → Result (List (Option Delegation × BigNumberCoin BigNumber))
        → Result (List (StakedValidatorInfo BigNumber))
    unfolding delegations_of stake_entries
    entries_of address loaded_stakes = do
      stakes ← loaded_stakes
      delegations ← delegations_of stakes
      annual_provisions ← provisions
      staking_pool ← get_pool s
      rewards ← get_delegation_rewards_by_validators s address (map address_of delegations)
      validators ← get_validators s (map address_of delegations)
      ok (stake_entries delegations validators rewards)

    unfoldable pub fetch_stakes :
        ℕ → String → Option (Result (List (StakedValidatorInfo BigNumber)))
    unfolding entries_of
    fetch_stakes fuel address =
        Option.map (entries_of address) (get_delegator_stakes s fuel address)

    fetch_wallet_stakes : ℕ → Wallet → Option (Result (List (StakedValidatorInfo BigNumber)))
    fetch_wallet_stakes fuel connecting = some (err (error "Wallet not connected."))
    fetch_wallet_stakes fuel idle = some (err (error "Wallet not connected."))
    fetch_wallet_stakes fuel (connected address) = fetch_stakes fuel address

    unfoldable pub fetch_given_stakes :
        ℕ → String → Bool → Option (Result (List (StakedValidatorInfo BigNumber)))
    fetch_given_stakes fuel address true = fetch_stakes fuel address
    fetch_given_stakes fuel address false = some (err (error "Invalid address"))

    unfoldable pub stakes_for :
        ℕ → Option String → Option (Result (List (StakedValidatorInfo BigNumber)))
    unfolding fetch_wallet_stakes fetch_given_stakes
    stakes_for fuel none = fetch_wallet_stakes fuel s.wallet
    stakes_for fuel (some address) = elim (str_eq address "") [
      | true ↦ fetch_wallet_stakes fuel s.wallet
      | false ↦ fetch_given_stakes fuel address (is_valid_address s address)
    ]

    -- the request states that `fetch` sets, in order
    unfoldable pub stakes_states :
        ℕ → Option String → Option (List (RequestState (List (StakedValidatorInfo BigNumber))))
    unfolding stakes_for
    stakes_states fuel address =
        Option.map
          (elim [ ok stakes ↦ loading ∷ loaded stakes ∷ [] | err e ↦ loading ∷ failed e ∷ [] ])
          (stakes_for fuel address)
