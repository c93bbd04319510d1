-- ===== src/Stakes/Sorting.antt =====
-- `requestStateSorted` of react-app/src/components/StakesTablePanel/StakesTablePanelAPI.tsx: the
-- rows of the table in the order that the user chose.
use Prim.Native.Nat.{Ordering}
use likedao.Common.{Option, none, some, List, String, Thrown, error, Result, ok, err, ◌>>=◌}
use likedao.Common.Sort.{sort_by, opposite}
use likedao.Amount.{BigNumberCoin}
use likedao.Chain.{Description}
use likedao.Request.{RequestState, initial, loading, loaded, failed}
use likedao.Proposal.{Direction, asc, desc, ColumnOrder}
use likedao.Stakes.{StakedValidatorInfo}

-- the `id`s of the columns
pub data StakeColumn : Type 0 where
  name_column staked_column rewards_column expected_returns_column voting_power_column : StakeColumn

-- The signs of what the comparison computes, before the direction: of `a.localeCompare(b)`, of
-- `a.minus(b).toNumber()`, and of a difference of doubles. That of NaN counts as 0.
pub record Comparisons (B D : Type 0) : Type 0 where
  pub locale_compare : String → String → Ordering
  pub compare_amounts : B → B → Ordering
  pub compare_doubles : D → D → Ordering

-- a row with its two figures
pub record StakeRow (B D : Type 0) : Type 0 where
  pub info : StakedValidatorInfo B
  pub expected_return : D
  pub voting_power : D

-- `* direction`
unfoldable pub directed : Direction → Ordering → Ordering
directed asc order = order
directed desc order = opposite order

abbrev pub no_reward : Thrown
no_reward = error "Cannot read properties of undefined (reading 'amount')"

abbrev pub no_description : Thrown
no_description = error "Cannot read properties of undefined (reading 'moniker')"

module _ {B D : Type 0} (signs : Comparisons B D) where
  open signs use {locale_compare, compare_amounts, compare_doubles}

  -- `a.reward.amount.minus(b.reward.amount)`, which reads both
  unfoldable pub compare_rewards :
      Option (BigNumberCoin B) → Option (BigNumberCoin B) → Result Ordering
  compare_rewards none b = err no_reward
  compare_rewards (some a) none = err no_reward
  compare_rewards (some a) (some b) = ok (compare_amounts a.amount b.amount)

  -- `a.description!.moniker.localeCompare(b.description!.moniker)`, which reads both
  unfoldable pub compare_names : Option Description → Option Description → Result Ordering
  compare_names none b = err no_description
  compare_names (some a) none = err no_description
  compare_names (some a) (some b) = ok (locale_compare a.moniker b.moniker)

  unfoldable pub compare_stakes : StakeColumn → StakeRow B D → StakeRow B D → Result Ordering
  unfolding compare_rewards compare_names
  compare_stakes name_column a b =
      compare_names a.info.validator.description b.info.validator.description
  compare_stakes staked_column a b =
      ok (compare_amounts a.info.balance.amount b.info.balance.amount)
  compare_stakes rewards_column a b = compare_rewards a.info.reward b.info.reward
  compare_stakes expected_returns_column a b =
      ok (compare_doubles a.expected_return b.expected_return)
  compare_stakes voting_power_column a b = ok (compare_doubles a.voting_power b.voting_power)

  -- the comparison that is given to `sort`
  unfoldable pub stake_comparison :
      ColumnOrder StakeColumn → StakeRow B D → StakeRow B D → Result Ordering
  unfolding compare_stakes directed
  stake_comparison order a b = do
    sign ← compare_stakes order.id a b
    ok (directed order.direction sign)

  -- What is rendered, or what the rendering throws. The array is sorted in its place, so that the
  -- next sort starts from this one's result.
  unfoldable pub request_state_sorted :
      ColumnOrder StakeColumn
      → RequestState (List (StakeRow B D))
      → Result (RequestState (List (StakeRow B D)))
  unfolding stake_comparison sort_by
  request_state_sorted order (loaded rows) = do
    sorted ← sort_by (stake_comparison order) rows
    ok (loaded sorted)
  request_state_sorted order initial = ok initial
  request_state_sorted order loading = ok loading
  request_state_sorted order (failed reason) = ok (failed reason)
