-- ===== src/Api/Balances.antt =====
-- The staking API's totals against its lists, over all the pages of an answer.
use likedao.Common.{
  ℕ, ◌≤◌, ◌≡◌, refl, ap, ◌∙◌, ◌≢◌, Option, none, some, List, [], ◌∷◌, map, String, ok, All,
  Option-cases, inl, inr,
}
use likedao.Amount.{BigNumberCoin, convert_minimal_token_to_token-sum}
use likedao.Chain.{Delegation, DelegationResponse, Session}
use likedao.Api.Bank.{to_token, amount_or_zero}
use likedao.Api.Paging.{Serves, load_pages_iff}
use likedao.Api.Staking.{stake_of, add_balances, get_address_staked_balance, get_delegator_stakes}

abbrev pub HasBalance : DelegationResponse → Type 0
HasBalance d = d.balance ≢ none

module _ (s : Session) where
  open s.numbers use {BigNumber, big_zero, of_string, sum, shifted_by-sum}

  -- the amounts of a list of stakes added to `acc`, in order
  abbrev pub add_stakes : BigNumber → List (Option Delegation × BigNumberCoin BigNumber) → BigNumber
  add_stakes acc [] = acc
  add_stakes acc (x ∷ xs) = add_stakes (sum x.1.amount acc) xs

  to_token-sum : (x y : BigNumber) → to_token s (sum x y) ≡ sum (to_token s x) (to_token s y)
  to_token-sum x y = convert_minimal_token_to_token-sum s.numbers s.chain.currency.coin_decimals x y

  -- the raw total that the reduction computes where every balance is there
  raw_total : BigNumber → List DelegationResponse → BigNumber
  raw_total acc [] = acc
  raw_total acc (d ∷ ds) = raw_total (sum (amount_or_zero s d.balance) acc) ds

  add_balances-raw_total :
      (address : String) (acc : BigNumber) (ds : List DelegationResponse)
      → All HasBalance ds
      → add_balances s address acc ds ≡ ok (raw_total acc ds)
  unfolding add_balances raw_total
  add_balances-raw_total address acc [] h = refl
  add_balances-raw_total address acc (d ∷ ds) h = elim (Option-cases d.balance) [
    | inl missing ↦ absurd (h.0 missing)
    | inr (balance, found) ↦
        rw found (add_balances-raw_total address (sum (of_string balance.amount) acc) ds h.1)
  ]

  to_token-raw_total :
      (acc : BigNumber) (ds : List DelegationResponse)
      → to_token s (raw_total acc ds) ≡ add_stakes (to_token s acc) (map (stake_of s) ds)
  unfolding raw_total
  to_token-raw_total acc [] = refl
  to_token-raw_total acc (d ∷ ds) =
      to_token-raw_total (sum (amount_or_zero s d.balance) acc) ds
      ∙ ap (λ t. add_stakes t (map (stake_of s) ds)) (to_token-sum (amount_or_zero s d.balance) acc)

  -- If the server answers in at most `fuel` pages, and every delegation has its balance, the staked
  -- balance is the sum of the amounts that the list of stakes shows, in the display denomination.
  pub staked_balance-eq-stakes :
      (fuel : ℕ) (address : String) (n : ℕ) (ds : List DelegationResponse)
      → n ≤ fuel
      → Serves (s.query.staking_delegator_delegations address) none n ds
      → All HasBalance ds
      → (stakes : List (Option Delegation × BigNumberCoin BigNumber)) × (get_delegator_stakes s fuel
            address
          ≡ some (ok stakes))
        × (get_address_staked_balance s fuel address
            ≡ some (
                ok (record {
                  denom = s.chain.currency.coin_denom;
                  amount = add_stakes (to_token s big_zero) stakes;
                })))
  unfolding get_delegator_stakes get_address_staked_balance
  staked_balance-eq-stakes fuel address n ds within served h =
      let loaded =
        (load_pages_iff (s.query.staking_delegator_delegations address) fuel ds).1
          (n, within, served) in
      (
        map (stake_of s) ds,
        simp loaded,
        simp (loaded, add_balances-raw_total address big_zero ds h, to_token-raw_total big_zero ds),
      )
