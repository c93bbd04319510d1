-- ===== src/Portfolio/Fetch.antt =====
-- How the fetch of a portfolio ends.
use mathlib.Core.Option
use likedao.Common.{
  ℕ, ◌≤◌, ◌≡◌, refl, true, false, Option, none, some, List, [], ◌∷◌, String, str_eq, Result, ok,
  All, arith,
}
use likedao.Amount.{BigNumberCoin}
use likedao.Chain.{UnbondingDelegation, Delegation, DelegationResponse, Session}
use likedao.Api.Bank.{to_token, get_address_balance}
use likedao.Api.Paging.{Serves, load_pages_iff}
use likedao.Api.Staking.{
  add_unbondings, get_address_staked_balance, get_unstaking_amount, get_delegator_stakes,
}
use likedao.Api.Distribution.{get_address_total_commission, get_address_total_delegation_rewards}
use likedao.Api.Balances.{HasBalance, add_stakes, staked_balance-eq-stakes}
use likedao.Request.{loading, loaded}
use likedao.Portfolio.{
  Portfolio, is_valid_address, portfolio_of, fetch_address_portfolio, fetch_for, fetch_given,
  fetch_portfolio,
}

module _ (s : Session) (fuel : ℕ) where
  open s.numbers use {BigNumber, sum, big_zero}

  unstaking_served :
      (address : String) (m : ℕ) (us : List UnbondingDelegation)
      → m ≤ fuel
      → Serves (s.query.staking_delegator_unbonding address) none m us
      → get_unstaking_amount s fuel address
        ≡ some (
            ok (record {
              denom = s.chain.currency.coin_denom;
              amount = to_token s (add_unbondings s big_zero us);
            }))
  unfolding get_unstaking_amount
  unstaking_served address m us within served =
      simp (
        (load_pages_iff (s.query.staking_delegator_unbonding address) fuel us).1
          (m, within, served))

  pub fetch_for-given :
      (address : String)
      → str_eq address "" ≡ false
      → is_valid_address s address ≡ true
      → fetch_for s fuel (some address) ≡ fetch_address_portfolio s fuel address
  unfolding fetch_for fetch_given
  fetch_for-given address given valid = ground (arith, given, valid)

  fetch_address_portfolio-answered :
      (address : String) (staked unstaking : Result (BigNumberCoin BigNumber))
      → get_address_staked_balance s fuel address ≡ some staked
      → get_unstaking_amount s fuel address ≡ some unstaking
      → fetch_address_portfolio s fuel address
        ≡ some (
            portfolio_of s address
              (get_address_balance s address)
              staked
              unstaking
              (get_address_total_commission s address)
              (get_address_total_delegation_rewards s address))
  unfolding fetch_address_portfolio Option.bind
  fetch_address_portfolio-answered address staked unstaking a b = rw (a, b)

  -- If the address has an account, the server answers the two paginated requests in at most `fuel`
  -- pages with a balance for each delegation, and the three other requests are answered, then the
  -- portfolio is shown for that address, and its balance is the sum of what is available, staked,
  -- being unstaked, and the rewards, in the denomination of the available balance.
  pub fetch_portfolio-loaded :
      (address : String) (n m : ℕ) (ds : List DelegationResponse) (us : List UnbondingDelegation)
      (available commission reward : BigNumberCoin BigNumber)
      → str_eq address "" ≡ false
      → is_valid_address s address ≡ true
      → n ≤ fuel
      → Serves (s.query.staking_delegator_delegations address) none n ds
      → All HasBalance ds
      → m ≤ fuel
      → Serves (s.query.staking_delegator_unbonding address) none m us
      → get_address_balance s address ≡ ok available
      → get_address_total_commission s address ≡ ok commission
      → get_address_total_delegation_rewards s address ≡ ok reward
      → (p : Portfolio BigNumber) × (stakes : List (Option Delegation × BigNumberCoin BigNumber))
        × (fetch_portfolio s fuel (some address) ≡ some (loading ∷ loaded p ∷ []))
        × (get_delegator_stakes s fuel address ≡ some (ok stakes))
        × (p.address ≡ address)
        × (p.balance.denom ≡ available.denom)
        × (p.balance.amount
            ≡ sum
                (sum
                  (sum available.amount (add_stakes s (to_token s big_zero) stakes))
                  (to_token s (add_unbondings s big_zero us)))
                reward.amount)
  unfolding fetch_portfolio portfolio_of
  fetch_portfolio-loaded address n m ds us available commission reward given valid within served
        balanced within' served' a c r =
      let (stakes, listed, staked) =
        staked_balance-eq-stakes s fuel address n ds within served balanced in
      let staked_balance : BigNumberCoin BigNumber = record {
        denom = s.chain.currency.coin_denom;
        amount = add_stakes s (to_token s big_zero) stakes;
      } in
      let unstaking_balance : BigNumberCoin BigNumber = record {
        denom = s.chain.currency.coin_denom;
        amount = to_token s (add_unbondings s big_zero us);
      } in
      (
        record {
          balance = record {
            amount =
                sum (sum (sum available.amount staked_balance.amount) unstaking_balance.amount)
                  reward.amount;
            denom = available.denom;
          };
          staked_balance = staked_balance;
          unstaking_balance = unstaking_balance;
          available_balance = available;
          commission = commission;
          reward = reward;
          address = address;
        },
        stakes,
        simp (
          fetch_for-given address given valid,
          fetch_address_portfolio-answered address _ _ staked
              (unstaking_served address m us within' served'),
          a,
          c,
          r,
        ),
        listed,
        refl,
        refl,
        refl,
      )
