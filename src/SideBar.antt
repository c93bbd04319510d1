-- ===== src/SideBar.antt =====
-- react-app/src/components/AppSideBar/AppSideBarAPI.ts: the chain's health and the community pool.
pub mod Health
use likedao.Common.{
  ℕ, suc, ◌-◌, ◌≡◌, ◌≤◌, Bool, true, false, Option, none, some, List, String, str_eq, find, Result,
  ok, ◌>>=◌, ltb, if◌then◌else◌,
}
use likedao.Common.Int.{ℤ, pos, ◌≤ℤ◌, ltb_ℤ, scale_ℤ}
use likedao.Message.{Coin}
use likedao.Amount.{BigNumberCoin}
use likedao.Chain.{Session}
use likedao.Api.Bank.{to_token, amount_or_zero, find_minimal}
use likedao.Request.{RequestState, initial, loading, loaded, failed, map_request_data}

-- The package date-fns: `differenceInSeconds(left, right)` is the seconds from `right` to `left`,
-- so not above 0 unless `isAfter(left, right)`.
pub record DateFns : Type 1 where
  pub Time : Type 0
  pub is_after : Time → Time → Bool
  pub difference_in_seconds : Time → Time → ℤ
  pub difference_in_seconds_le :
      (left right : Time) → is_after left right ≡ false → difference_in_seconds left right ≤ℤ pos 0

pub data ChainStatus : Type 0 where
  online congested halted : ChainStatus

pub record ChainHealth : Type 0 where
  pub chain_status : ChainStatus
  pub latest_height : ℕ

pub record Block (Time : Type 0) : Type 0 where
  pub height : ℕ
  pub time : Time

-- a number of seconds, as a fraction
pub record Seconds : Type 0 where
  pub numerator : ℤ
  pub denominator : ℕ

-- `diff > 3 * average`
abbrev pub is_above_triple : ℤ → Seconds → Bool
is_above_triple diff average =
    ltb_ℤ (scale_ℤ 3 average.numerator) (scale_ℤ average.denominator diff)

-- the status from the two differences
unfoldable pub status_of : ℤ → ℤ → Seconds → ChainStatus
status_of now_to_latest_block_diff latest_to_previous_block_diff average_block_time =
    if ltb_ℤ (pos 60) now_to_latest_block_diff
    then halted
    else if is_above_triple latest_to_previous_block_diff average_block_time
    then congested
    else online

module _ (dates : DateFns) where
  open dates use {Time, difference_in_seconds}

  -- `get_block none` is the latest block; `now` is the time of both `new Date()`
  module _ (get_block : Option ℕ → Result (Block Time)) (now : Time) where
    unfoldable pub health_from : Seconds → Result (RequestState ChainHealth)
    unfolding status_of
    health_from average_block_time = do
      latest_block ← get_block none
      if ltb latest_block.height 2
          then ok (loaded (record { chain_status = online; latest_height = latest_block.height }))
          else (do
            previous_block ← get_block (some (latest_block.height - 1))
            ok (
                loaded (record {
                  chain_status =
                      status_of (difference_in_seconds latest_block.time now)
                        (difference_in_seconds previous_block.time latest_block.time)
                        average_block_time;
                  latest_height = latest_block.height;
                })))

    -- What `fetchChainHealth` sets. An error of `getBlock` is not caught, and nothing is set then.
    unfoldable pub fetch_chain_health : RequestState Seconds → Result (RequestState ChainHealth)
    unfolding health_from
    fetch_chain_health (failed reason) = ok (failed reason)
    fetch_chain_health initial = ok loading
    fetch_chain_health loading = ok loading
    fetch_chain_health (loaded average_block_time) = health_from average_block_time

-- `communityStatus` of the answer
pub record CommunityStatusData : Type 0 where
  pub inflation : String
  pub bonded_ratio : String
  pub community_pool : List Coin

pub record CommunityStatus (B : Type 0) : Type 0 where
  pub inflation : B
  pub bonded_ratio : B
  pub community_pool : BigNumberCoin B

module _ (s : Session) where
  open s.numbers use {BigNumber, of_string}

  unfoldable pub community_status :
      RequestState CommunityStatusData → RequestState (CommunityStatus BigNumber)
  unfolding map_request_data
  community_status state = map_request_data state (λ r. record {
    inflation = of_string r.inflation;
    bonded_ratio = of_string r.bonded_ratio;
    community_pool = record {
      denom = s.chain.currency.coin_minimal_denom;
      amount = to_token s (amount_or_zero s (find_minimal s r.community_pool));
    };
  })
