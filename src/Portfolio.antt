-- ===== src/Portfolio.antt =====
-- react-app/src/components/PortfolioScreen/PortfolioScreenAPI.ts: the portfolio of an address, or of
-- the connected wallet.
pub mod Fetch
pub mod Screen
pub mod Ended
pub mod Shown
use mathlib.Core.Option
use likedao.Common.{
  ℕ, Bool, true, false, not, Option, none, some, List, [], ◌∷◌, ◌++◌, String, str_eq, Thrown, error,
  other, Result, ok, err, ◌>>=◌, ◌>>◌, throw_if,
}
use likedao.Amount.{BigNumberCoin}
use likedao.Chain.{Session, Wallet, connecting, idle, connected}
use likedao.Api.Bank.{get_address_balance}
use likedao.Api.Staking.{get_address_staked_balance, get_unstaking_amount}
use likedao.Api.Distribution.{get_address_total_commission, get_address_total_delegation_rewards}
use likedao.Request.{RequestState, loading, loaded, failed}

pub record Portfolio (B : Type 0) : Type 0 where
  pub balance : BigNumberCoin B
  pub staked_balance : BigNumberCoin B
  pub unstaking_balance : BigNumberCoin B
  pub available_balance : BigNumberCoin B
  pub commission : BigNumberCoin B
  pub reward : BigNumberCoin B
  pub address : String

-- `account != null`, and false where the request failed
abbrev pub is_account : Result (Option String) → Bool
is_account (ok (some account)) = true
is_account (ok none) = false
is_account (err e) = false

-- the states that are set for what a fetch comes to; a thrown value that is no Error sets none
abbrev pub settle : {A : Type 0} → Result A → List (RequestState A)
settle (ok a) = loaded a ∷ []
settle (err (error message)) = failed (error message) ∷ []
settle (err other) = []

module _ (s : Session) where
  open s.numbers use {BigNumber, sum}

  unfoldable pub is_valid_address : String → Bool
  is_valid_address address = is_account (s.query.auth_account address)

  -- the five answers of `Promise.all`, added up
  unfoldable pub portfolio_of :
      String
      → Result (BigNumberCoin BigNumber)
      → Result (BigNumberCoin BigNumber)
      → Result (BigNumberCoin BigNumber)
      → Result (BigNumberCoin BigNumber)
      → Result (BigNumberCoin BigNumber)
      → Result (Portfolio BigNumber)
  portfolio_of address available staked unstaking found_commission found_reward = do
    available_balance ← available
    staked_balance ← staked
    unstaking_balance ← unstaking
    commission ← found_commission
    reward ← found_reward
    ok (record {
      balance = record {
        amount =
            sum (sum (sum available_balance.amount staked_balance.amount) unstaking_balance.amount)
              reward.amount;
        denom = available_balance.denom;
      };
      staked_balance = staked_balance;
      unstaking_balance = unstaking_balance;
      available_balance = available_balance;
      commission = commission;
      reward = reward;
      address = address;
    })

  -- `fuel` bounds the pages of the two paginated answers
  unfoldable pub fetch_address_portfolio : ℕ → String → Option (Result (Portfolio BigNumber))
  unfolding portfolio_of
  fetch_address_portfolio fuel address =
      Option.bind (get_address_staked_balance s fuel address) (λ staked.
        Option.map
          (λ unstaking.
            portfolio_of address (get_address_balance s address) staked unstaking
              (get_address_total_commission s address)
              (get_address_total_delegation_rewards s address))
          (get_unstaking_amount s fuel address))

  -- the two branches of the `try` block; an empty address counts as none
  pub fetch_wallet : ℕ → Wallet → Option (Result (Portfolio BigNumber))
  fetch_wallet fuel connecting = some (err (error "Wallet not connected."))
  fetch_wallet fuel idle = some (err (error "Wallet not connected."))
  fetch_wallet fuel (connected address) = fetch_address_portfolio fuel address

  unfoldable pub fetch_given : ℕ → String → Bool → Option (Result (Portfolio BigNumber))
  fetch_given fuel address true = fetch_address_portfolio fuel address
  fetch_given fuel address false = some (err (error "Invalid address"))

  unfoldable pub fetch_for : ℕ → Option String → Option (Result (Portfolio BigNumber))
  unfolding fetch_wallet fetch_given is_valid_address
  fetch_for fuel none = fetch_wallet fuel s.wallet
  fetch_for fuel (some address) = elim (str_eq address "") [
    | true ↦ fetch_wallet fuel s.wallet
    | false ↦ fetch_given fuel address (is_valid_address address)
  ]

  -- the request states that `fetch` sets, in order
  unfoldable pub fetch_portfolio :
      ℕ → Option String → Option (List (RequestState (Portfolio BigNumber)))
  unfolding fetch_for
  fetch_portfolio fuel address = Option.map (λ r. loading ∷ settle r) (fetch_for fuel address)
