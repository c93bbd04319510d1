-- ===== src/Examples/Portfolios.antt =====
-- The pages of portfolios: one by its URL, one of the wallet, and one of an unknown address.
use mathlib.Core.Option
use likedao.Common.{ℕ, ◌≡◌, refl, none, some, List, [], String, ◌∷◌, Result, ok}
use likedao.Common.Int.{pos, ◌-ℤ◌}
use likedao.Chain.{Session, idle}
use likedao.Amount.{BigNumberCoin}
use likedao.Api.Bank.{to_token}
use likedao.Api.Distribution.{reward_coin, commission_coin}
use likedao.Request.{RequestState, loading}
use likedao.Portfolio.{Portfolio, is_valid_address, fetch_portfolio, fetch_for, fetch_given}
use likedao.Stakes.{StakedValidatorInfo, stakes_states, stakes_for, fetch_given_stakes}
use likedao.Location.{history_fetch, page_offset, selected_history}
use likedao.Location.Digits.{parse_int}
use likedao.Portfolio.Screen.{
  navigated, portfolio_asked, stakes_asked, history_asked, requests_of, page_address, page_for,
  page_after, effects_of, fetched_page, portfolio_page, connect_wallet_modal_opened,
}
use likedao.Examples.Fixtures.{query, nanolike, validator_of, session, session_of}

abbrev like : String → BigNumberCoin session.numbers.BigNumber
like raw = record { denom = "LIKE"; amount = to_token session (session.numbers.of_string raw) }

abbrev row : String → String → String → StakedValidatorInfo session.numbers.BigNumber
row validator amount reward = record {
  delegation = record {
    delegator_address = "like1";
    validator_address = validator;
    shares = amount;
  };
  balance = like amount;
  reward = some (reward_coin session (nanolike reward ∷ []));
  validator = validator_of validator;
}

abbrev rows : List (StakedValidatorInfo session.numbers.BigNumber)
rows =
    row "val1" "7000000000" "2000000000000000000000000000"
    ∷ row "val2" "2000000000" "1000000000000000000000000000"
    ∷ []

abbrev provisions : Result ℕ
provisions = ok 1

abbrev reward : BigNumberCoin session.numbers.BigNumber
reward = reward_coin session (nanolike "3000000000000000000000000000" ∷ [])

-- 5, 9 and 1 LIKE, and the rewards
abbrev portfolio : Portfolio session.numbers.BigNumber
portfolio =
    let sum = session.numbers.sum in
    record {
      balance = record {
        amount =
            sum
              (sum (sum (like "5000000000").amount (like "9000000000").amount)
                (like "1000000000").amount)
              reward.amount;
        denom = "LIKE";
      };
      staked_balance = like "9000000000";
      unstaking_balance = like "1000000000";
      available_balance = like "5000000000";
      commission = commission_coin session none;
      reward = reward;
      address = "like1";
    }

abbrev waiting : RequestState ℕ
waiting = loading

-- no account has the address
abbrev unknown : Session
unknown = record session { query = record query { auth_account = λ address. ok none } }

unknown_address :
    Option.map (λ page. page.effects) (portfolio_page unknown provisions 2 waiting (some "like9"))
    ≡ some (navigated "/invalid-address" ∷ navigated "/invalid-address" ∷ [])
unfolding portfolio_page fetched_page page_for page_after effects_of page_address fetch_portfolio
    fetch_for fetch_given is_valid_address stakes_states stakes_for fetch_given_stakes Option.bind
unknown_address = refl

-- no wallet is connected, and the URL has no address
idle_wallet :
    Option.map (λ page. page.effects) (portfolio_page (session_of idle) provisions 2 waiting none)
    ≡ some (connect_wallet_modal_opened ∷ [])
unfolding portfolio_page fetched_page page_after effects_of page_address
idle_wallet = refl

asked :
    requests_of (some "like1") (("page", "3") ∷ [])
    ≡ portfolio_asked "like1"
      ∷ stakes_asked "like1"
      ∷ history_asked "like1"
          (record { first = 2; after = some (pos 4); order = none; tab = "voted" })
      ∷ []
unfolding requests_of history_fetch page_offset selected_history parse_int ◌-ℤ◌
asked = refl
