-- ===== src/Stakes/Figures.antt =====
-- The rows of the table of stakes with their two figures: `fetchStakes` of
-- react-app/src/components/StakesTablePanel/StakesTablePanelAPI.tsx as a whole.
use likedao.Common.{
  ◌≡◌, refl, sym, ◌∙◌, Option, List, [], ◌∷◌, map, String, Result, ok, ◌>>=◌, >>=-eq-ok,
  ok-injective, All,
}
use mathlib.Core.Path.{subst}
use likedao.Amount.{BigNumberCoin}
use likedao.Chain.{Delegation, Pool, TotalRewards, Validator, Session}
use likedao.Api.Staking.{get_pool, get_validators}
use likedao.Api.Distribution.{get_delegation_rewards_by_validators}
use likedao.Api.Rates.{
  RateOps, calculate_validator_expected_return, calculate_validator_voting_power,
}
use likedao.Stakes.{
  StakedValidatorInfo, delegations_of, address_of, first_of, rest_of, stake_entries, entries_of,
}
use likedao.Stakes.Rows.{stake_of, IsAligned, entries_of-IsAligned}
use likedao.Stakes.Sorting.{StakeRow}

module _ (s : Session) (ops : RateOps s.numbers.BigNumber) where
  open s.numbers use {BigNumber, of_string}
  open ops use {Number}

  module _ (provisions : String) (pool : Pool) where
    -- the row of index `i`, with the figures at that index
    unfoldable pub row_of : StakedValidatorInfo BigNumber → StakeRow BigNumber Number
    row_of info = record {
      info = info;
      expected_return = calculate_validator_expected_return s ops provisions pool info.validator;
      voting_power = calculate_validator_voting_power s ops pool (of_string info.validator.tokens);
    }

    -- the two `map`s, of which the second reads the figures of the first at its index
    unfoldable pub stake_rows :
        List (Delegation × BigNumberCoin BigNumber)
        → List Validator
        → List (BigNumberCoin BigNumber)
        → List (StakeRow BigNumber Number)
    unfolding row_of
    stake_rows [] validators rewards = []
    stake_rows (stake ∷ stakes) [] rewards = []
    stake_rows (stake ∷ stakes) (v ∷ validators) rewards =
        row_of (record {
          delegation = stake.0;
          balance = stake.1;
          reward = first_of rewards;
          validator = v;
        })
        ∷ stake_rows stakes validators (rest_of rewards)

    stake_rows-entries :
        (stakes : List (Delegation × BigNumberCoin BigNumber)) (validators : List Validator)
        (rewards : List (BigNumberCoin BigNumber))
        → stake_rows stakes validators rewards
          ≡ map row_of (stake_entries stakes validators rewards)
    unfolding stake_rows stake_entries
    stake_rows-entries [] validators rewards = refl
    stake_rows-entries (x ∷ stakes) [] rewards = refl
    stake_rows-entries (x ∷ stakes) (v ∷ validators) rewards =
        rw (stake_rows-entries stakes validators (rest_of rewards))

  -- the rest of `fetchStakes`, after the stakes have come
  unfoldable pub rows_of :
      Result String
      → String
      → Result (List (Option Delegation × BigNumberCoin BigNumber))
      → Result (List (StakeRow BigNumber Number))
  unfolding delegations_of stake_rows
  rows_of provisions address loaded_stakes = do
    stakes ← loaded_stakes
    delegations ← delegations_of stakes
    annual_provisions ← provisions
    staking_pool ← get_pool s
    rewards ← get_delegation_rewards_by_validators s address (map address_of delegations)
    validators ← get_validators s (map address_of delegations)
    ok (stake_rows annual_provisions staking_pool delegations validators rewards)

  -- the figures of a row are those of its own validator, for the chain's provisions and pool
  pub record HasFigures (provisions : Result String) (row : StakeRow BigNumber Number)
      : Type 0 where
    pub annual_provisions : String
    pub staking_pool : Pool
    pub provisions_given : provisions ≡ ok annual_provisions
    pub pool_given : get_pool s ≡ ok staking_pool
    pub return_shown :
        row.expected_return
        ≡ calculate_validator_expected_return s ops annual_provisions staking_pool
            row.info.validator
    pub power_shown :
        row.voting_power
        ≡ calculate_validator_voting_power s ops staking_pool (of_string row.info.validator.tokens)

  All-map :
      {A B : Type 0} (P : A → Type 0) (Q : B → Type 0) (f : A → B) (xs : List A)
      → ((a : A) → P a → Q (f a))
      → All P xs
      → All Q (map f xs)
  All-map P Q f [] g h = tt
  All-map P Q f (x ∷ xs) g h = (g x h.0, All-map P Q f xs g h.1)

  entries_listed :
      (provisions : Result String) (address : String)
      (stakes : List (Option Delegation × BigNumberCoin BigNumber))
      (delegations : List (Delegation × BigNumberCoin BigNumber)) (p : String) (pool : Pool)
      (coins : List (BigNumberCoin BigNumber)) (validators : List Validator)
      → delegations_of stakes ≡ ok delegations
      → provisions ≡ ok p
      → get_pool s ≡ ok pool
      → get_delegation_rewards_by_validators s address (map address_of delegations) ≡ ok coins
      → get_validators s (map address_of delegations) ≡ ok validators
      → entries_of s provisions address (ok stakes)
        ≡ ok (stake_entries delegations validators coins)
  unfolding entries_of
  entries_listed provisions address stakes delegations p pool coins validators named a b c d =
      simp (named, a, b, c, d)

  shown_stakes :
      (p : String) (pool : Pool) (entries : List (StakedValidatorInfo BigNumber))
      → map (λ row. stake_of s row.info) (map (row_of p pool) entries) ≡ map (stake_of s) entries
  unfolding row_of
  shown_stakes p pool [] = refl
  shown_stakes p pool (x ∷ xs) = rw (shown_stakes p pool xs)

  own_figures :
      (provisions : Result String) (p : String) (pool : Pool) (info : StakedValidatorInfo BigNumber)
      → provisions ≡ ok p
      → get_pool s ≡ ok pool
      → HasFigures provisions (row_of p pool info)
  unfolding row_of
  own_figures provisions p pool info a b = record {
    annual_provisions = p;
    staking_pool = pool;
    provisions_given = a;
    pool_given = b;
    return_shown = refl;
    power_shown = refl;
  }

  -- If the chain lists the rewards of an address by validator in the order of its delegations, then
  -- the table shows all the delegations in their order, each with the validator that the chain has
  -- for it and the one of these rewards that comes from that validator; and the expected return and
  -- the voting power of a row are that validator's, for the provisions and the pool that the chain
  -- answered.
  pub rows_of-IsAligned :
      (provisions : Result String) (address : String)
      (stakes : List (Option Delegation × BigNumberCoin BigNumber))
      (delegations : List (Delegation × BigNumberCoin BigNumber)) (total : TotalRewards)
      (rows : List (StakeRow BigNumber Number))
      → delegations_of stakes ≡ ok delegations
      → s.query.delegation_total_rewards address ≡ ok total
      → map (λ r. r.validator_address) total.rewards ≡ map address_of delegations
      → rows_of provisions address (ok stakes) ≡ ok rows
      → (map (λ row. stake_of s row.info) rows ≡ delegations)
        × All (λ row. IsAligned s total.rewards row.info × HasFigures provisions row) rows
  unfolding rows_of
  rows_of-IsAligned provisions address stakes delegations total rows named answered ordered h =
      let names = map address_of delegations in
      let h = simp named at h in
      let (p, has_provisions, h) = >>=-eq-ok provisions _ h in
      let (pool, has_pool, h) = >>=-eq-ok (get_pool s) _ h in
      let (coins, rewarded, h) =
        >>=-eq-ok (get_delegation_rewards_by_validators s address names) _ h in
      let (validators, found, h) = >>=-eq-ok (get_validators s names) _ h in
      let entries = stake_entries delegations validators coins in
      let listed =
        entries_listed provisions address stakes delegations p pool coins validators named
          has_provisions has_pool rewarded found in
      let e : map (row_of p pool) entries ≡ rows =
        sym (stake_rows-entries p pool delegations validators coins) ∙ ok-injective _ _ h in
      let Shown : StakeRow BigNumber Number → Type 0 =
        λ row. IsAligned s total.rewards row.info × HasFigures provisions row in
      let (shown, all) =
        entries_of-IsAligned s provisions address stakes delegations total entries named answered
          ordered listed in
      subst (λ xs. (map (λ row. stake_of s row.info) xs ≡ delegations) × All Shown xs) e
        (
          shown_stakes p pool entries ∙ shown,
          All-map (IsAligned s total.rewards) Shown (row_of p pool) entries
              (λ info aligned.
                (aligned, own_figures provisions p pool info has_provisions has_pool))
              all,
        )
