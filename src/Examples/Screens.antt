-- ===== src/Examples/Screens.antt =====
-- The screens over the APIs, on the same session.
use likedao.Common.{
  ℕ, ◌+◌, ◌*◌, ◌<◌, ◌≡◌, refl, ◌↔◌, true, false, Option, none, some, List, [], ◌∷◌, String, Result,
  ok, arith, suc, ltb,
}
use likedao.Common.Int.{ℤ, pos, sub_ℕ}
use likedao.Message.{Coin}
use likedao.Amount.{BigNumberCoin}
use likedao.Chain.{Delegation, UnbondingDelegation}
use likedao.Api.Bank.{to_token, get_address_balance, sign_send_token_tx}
use likedao.Api.Paging.{last, more}
use likedao.Api.Staking.{add_unbondings, get_delegator_stakes}
use likedao.Api.Distribution.{
  sign_withdraw_delegation_rewards_tx, get_address_total_commission,
  get_address_total_delegation_rewards, commission_coin, reward_coin,
}
use likedao.Api.Balances.{add_stakes}
use likedao.Request.{loading, loaded}
use likedao.Request.ServerError.{
  ApolloError, parse_graphql_request_error, server_error, first, first_code, api_code, not_found,
  network, parse_graphql_request_error_iff,
}
use likedao.Transaction.{submit_send_request, submit_collect_rewards_request}
use likedao.Transaction.Outcome.{Ends, submit-Ends}
use likedao.Auth.{HttpRequest, HttpResponse, SignInPage, sign_in_with_cosmos}
use likedao.Auth.SignIn.{SignInOutcome, sign_in_with_cosmos_iff}
use likedao.Portfolio.{Portfolio, fetch_portfolio, is_valid_address}
use likedao.Portfolio.Fetch.{fetch_portfolio-loaded}
use likedao.Proposal.{ProposalVote, ProposalDeposit, string_object, validator, unknown_voter}
use likedao.SideBar.{DateFns, Block, online, fetch_chain_health}
use likedao.SideBar.Health.{fetch_chain_health-online}
use likedao.Page.{offset_based, on_next_click, on_previous_click, current_page_of, on_page_change}
use likedao.Page.Laws.{pages_lem}
use likedao.Examples.Fixtures.{nanolike, delegation_to, session}

parse_graphql_request_error_iff_example :
    let e : ApolloError = record {
      has_network_error = false;
      graphql_error_codes = some "NOT_FOUND" ∷ [];
    } in
    ((parse_graphql_request_error e ≡ server_error not_found first) ↔ (
      (e.has_network_error ≡ false)
      × ((code : String) × (first_code e.graphql_error_codes ≡ some code)
          × (api_code not_found ≡ some code))))
    × (((parse_graphql_request_error e).type ≡ network) ↔ (e.has_network_error ≡ true))
parse_graphql_request_error_iff_example =
    parse_graphql_request_error_iff
      (record { has_network_error = false; graphql_error_codes = some "NOT_FOUND" ∷ [] }) not_found

submit-Ends_example :
    Ends session
      (ok tt)
      (sign_send_token_tx session "like2" "3" none)
      (submit_send_request session (ok tt) "like2" "3" none)
    × Ends session
        (ok tt)
        (sign_withdraw_delegation_rewards_tx session none)
        (submit_collect_rewards_request session (ok tt))
submit-Ends_example = submit-Ends session (ok tt) "like1" refl "like2" "3" none

-- a server that answers every request with the status 401
abbrev send : HttpRequest → Result HttpResponse
send request = ok (record { status = 401; text = "nonce" })

abbrev page : SignInPage
page = record {
  host = "dao.like.co";
  origin = "https://dao.like.co";
  now = "2022-11-11T00:00:00.000Z";
}

sign_in_with_cosmos_iff_example :
    (sign_in_with_cosmos session "/auth" send page ≡ ok tt)
    ↔ SignInOutcome session "/auth" send page "like1" (ok tt)
sign_in_with_cosmos_iff_example =
    sign_in_with_cosmos_iff session "/auth" send page "like1" refl (ok tt)

abbrev reward : BigNumberCoin session.numbers.BigNumber
reward = reward_coin session (nanolike "3000000000000000000000000000" ∷ [])

abbrev available : BigNumberCoin session.numbers.BigNumber
available = record {
  denom = "LIKE";
  amount = to_token session (session.numbers.of_string "5000000000");
}

abbrev us : List UnbondingDelegation
us = record { validator_address = "val1"; entries = record { balance = "1000000000" } ∷ [] } ∷ []

available_answered : get_address_balance session "like1" ≡ ok available
unfolding get_address_balance
available_answered = refl

commission_answered :
    get_address_total_commission session "like1" ≡ ok (commission_coin session none)
unfolding get_address_total_commission
commission_answered = refl

reward_answered : get_address_total_delegation_rewards session "like1" ≡ ok reward
unfolding get_address_total_delegation_rewards
reward_answered = refl

account_found : is_valid_address session "like1" ≡ true
unfolding is_valid_address
account_found = refl

fetch_portfolio-loaded_example :
    (p : Portfolio session.numbers.BigNumber) × (stakes : List
      (Option Delegation × BigNumberCoin session.numbers.BigNumber))
    × (fetch_portfolio session 2 (some "like1") ≡ some (loading ∷ loaded p ∷ []))
    × (get_delegator_stakes session 2 "like1" ≡ some (ok stakes))
    × (p.address ≡ "like1")
    × (p.balance.denom ≡ "LIKE")
    × (p.balance.amount
        ≡ session.numbers.sum
            (session.numbers.sum
              (session.numbers.sum available.amount
                (add_stakes session (to_token session session.numbers.big_zero) stakes))
              (to_token session (add_unbondings session session.numbers.big_zero us)))
            reward.amount)
fetch_portfolio-loaded_example =
    fetch_portfolio-loaded session 2 "like1" 2 1
      (delegation_to "val1" "7000000000" ∷ delegation_to "val2" "2000000000" ∷ []) us available
      (commission_coin session none) reward refl account_found (omega arith)
      (more refl refl (last refl refl)) (λ e. absurd cc, (λ e. absurd cc, tt)) (omega arith)
      (last refl refl) available_answered commission_answered reward_answered

abbrev votes : List ProposalVote
votes =
    record { voter = string_object "like3"; option = "yes" }
    ∷ record { voter = validator (some "val1"); option = "no" }
    ∷ record { voter = unknown_voter; option = "yes" }
    ∷ []

abbrev deposits : List (ProposalDeposit (List Coin))
deposits =
    record { depositor = some (validator (some "val1")); amount = nanolike "1000000000" ∷ [] }
    ∷ record { depositor = none; amount = [] }
    ∷ []

-- times in seconds; a later `left` gives the seconds between
abbrev seconds : DateFns
seconds = record {
  Time = ℕ;
  is_after = λ left right. ltb right left;
  difference_in_seconds = sub_ℕ;
  difference_in_seconds_le = λ left right h. ground arith;
}

abbrev blocks : Option ℕ → Result (Block ℕ)
blocks none = ok (record { height = 10; time = 1000 })
blocks (some height) = ok (record { height = height; time = 900 })

-- the chain stopped for an hour
fetch_chain_health-online_example :
    fetch_chain_health seconds blocks 4600 (loaded (record { numerator = pos 6; denominator = 1 }))
    ≡ ok (loaded (record { chain_status = online; latest_height = 10 }))
fetch_chain_health-online_example =
    fetch_chain_health-online seconds blocks 4600 (record { numerator = pos 6; denominator = 1 })
      (record { height = 10; time = 1000 }) (record { height = 9; time = 900 }) refl refl refl refl
      (omega arith)

pages_lem_example :
    let props = offset_based 10 25 (1 * 10) in
    ((z : ℤ) → (on_next_click props ≡ some z) ↔ ((z ≡ pos (suc 1 * 10)) × (suc 1 * 10 < 25)))
    × ((z : ℤ)
        → (on_previous_click props ≡ some z)
          ↔ ((o : ℕ) × (z ≡ pos o) × (o + 10 ≡ 1 * 10) × (0 < 25)))
    × ((offset : ℕ)
        → current_page_of (offset_based 10 25 (on_page_change (offset_based 10 25 offset) 1)) ≡ 1)
pages_lem_example = pages_lem 10 25 (omega arith) 1
