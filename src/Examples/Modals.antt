-- ===== src/Examples/Modals.antt =====
-- Two wallets, one after the other: the first has rewards, the second has none.
use likedao.Common.{◌≡◌, refl, ok, [], String, str_eq, if◌then◌else◌}
use likedao.Amount.{BigNumberCoin}
use likedao.Chain.{Session, connected}
use likedao.Api.Distribution.{get_total_delegation_rewards, reward_coin}
use likedao.Transaction.Modals.{
  ProviderState, collect_rewards_shown, shown_modal, Run, stays, Answered, initial_provider,
}
use likedao.Transaction.Rewards.{IsAnswered, rewards_lem}
use likedao.Examples.Fixtures.{query, total_rewards, session}

-- either of the two
abbrev IsOwn : String → Type 0
IsOwn address = if str_eq address "like1" then Unit else (address ≡ "like2")

abbrev two_wallets : Session
two_wallets = record session {
  query = record query {
    delegation_total_rewards = λ address.
        if str_eq address "like1"
        then ok total_rewards
        else ok (record { rewards = []; total = [] });
  };
}

abbrev zero : session.numbers.BigNumber
zero = session.numbers.big_zero

abbrev first_rewards : BigNumberCoin session.numbers.BigNumber
first_rewards = reward_coin two_wallets total_rewards.total

abbrev second_rewards : BigNumberCoin session.numbers.BigNumber
second_rewards = reward_coin two_wallets []

first_answered : Answered two_wallets "like1" (ok first_rewards)
unfolding Answered get_total_delegation_rewards
first_answered = refl

second_answered : Answered two_wallets "like2" (ok second_rewards)
unfolding Answered get_total_delegation_rewards
second_answered = refl

rewards_lem_example :
    IsAnswered (Answered two_wallets) zero IsOwn zero
    × ((u : ProviderState session.numbers.BigNumber) × Run
          (Answered two_wallets)
          IsOwn
          (initial_provider zero)
          u
        × (u.wallet ≡ connected "like2")
        × (u.asked ≡ [])
        × (shown_modal zero zero u ≡ collect_rewards_shown first_rewards.amount))
rewards_lem_example =
    rewards_lem (Answered two_wallets) zero IsOwn zero "like1" "like2" first_rewards second_rewards
      tt refl first_answered second_answered (initial_provider zero) stays
