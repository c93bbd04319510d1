-- ===== src/Examples/Submissions.antt =====
-- The table of stakes and the submissions of the screens, on the same session.
use likedao.Common.{
  any, ℕ, ◌≡◌, refl, ◌↔◌, true, Option, none, some, List, [], ◌∷◌, String, Result, ok,
}
use likedao.Amount.{BigNumberCoin}
use likedao.Chain.{Bytes, Delegation}
use likedao.Api.Bank.{to_token}
use likedao.Api.Distribution.{reward_coin}
use likedao.Api.Staking.{sign_delegate_token_tx, sign_undelegate_token_tx}
use likedao.Api.Gov.{sign_vote_proposal_tx, sign_deposit_proposal_tx, sign_submit_proposal_tx}
use likedao.Api.Signing.{Undelegates}
use likedao.Message.{ProposalType, signaling, vote_yes}
use likedao.Transaction.Screens.{
  handle_vote_submission, handle_deposit_submission, handle_stake_token, handle_unstake_token,
  on_submit_submit_proposal,
}
use likedao.Transaction.Chains.{
  is_broadcasting, is_navigated, screens-End, handle_unstake_token-broadcasts_iff,
}
use likedao.Transaction.Outcome.{Accepted, Ends}
use likedao.Api.Staking.{get_pool, get_validator, get_validators}
use likedao.Api.Distribution.{get_delegation_rewards_by_validators}
use likedao.Stakes.{StakedValidatorInfo, delegations_of, stake_entries, entries_of}
use likedao.Examples.Fixtures.{validator_of, nanolike, session}

abbrev available : BigNumberCoin session.numbers.BigNumber
available = record {
  denom = "LIKE";
  amount = to_token session (session.numbers.of_string "5000000000");
}

abbrev pub delegation : String → Delegation × BigNumberCoin session.numbers.BigNumber
delegation v =
    (record { delegator_address = "like1"; validator_address = v; shares = "1" }, available)

abbrev pub two_stakes : List (Option Delegation × BigNumberCoin session.numbers.BigNumber)
two_stakes = (some (delegation "val1").0, available) ∷ (some (delegation "val2").0, available) ∷ []

-- the two rows, with the rewards of 2 and 1 token
abbrev two_rows : List (StakedValidatorInfo session.numbers.BigNumber)
two_rows =
    stake_entries (delegation "val1" ∷ delegation "val2" ∷ [])
      (validator_of "val1" ∷ validator_of "val2" ∷ [])
      (reward_coin session (nanolike "2000000000000000000000000000" ∷ [])
        ∷ reward_coin session (nanolike "1000000000000000000000000000" ∷ [])
        ∷ [])

abbrev provisions : Result ℕ
provisions = ok 7

two_rows_fetched : entries_of session provisions "like1" (ok two_stakes) ≡ ok two_rows
unfolding entries_of get_pool get_validators get_validator get_delegation_rewards_by_validators
two_rows_fetched = refl

pub two_stakes_named : delegations_of two_stakes ≡ ok (delegation "val1" ∷ delegation "val2" ∷ [])
unfolding delegations_of
two_stakes_named = refl

abbrev encode_text : ProposalType → String × String → List ℕ
encode_text type text = 7 ∷ []

screens-End_example :
    Ends session
      (ok tt)
      (sign_vote_proposal_tx session 9 vote_yes none)
      (handle_vote_submission session (ok tt) 9 vote_yes none)
    × Ends session
        (ok tt)
        (sign_deposit_proposal_tx session 9 (session.numbers.of_string "3") none)
        (handle_deposit_submission session (ok tt) 9 "3" none)
    × Ends session
        (ok tt)
        (sign_delegate_token_tx session "val1" "3" none)
        (handle_stake_token session (ok tt) "val1" "3" none)
    × Ends session
        (ok tt)
        (sign_undelegate_token_tx session "val1" "3" none)
        (handle_unstake_token session (ok tt) "val1" "3" none)
    × ((any is_navigated (
            on_submit_submit_proposal session (ok tt) encode_text signaling "title" "text" "3" none)
          ≡ true)
        ↔ (Accepted session (ok tt) (
              sign_submit_proposal_tx session encode_text
                (record { type = signaling; proposal = ("title", "text") })
                (session.numbers.of_string "3")
                none)
            × (◌≡◌ {A = Result (Unit {0})} (ok tt) (ok tt))))
screens-End_example =
    screens-End session (ok tt) "like1" refl 9 vote_yes "val1" "3" none encode_text signaling
      "title" "text"

handle_unstake_token-broadcasts_iff_example :
    (any is_broadcasting (handle_unstake_token session (ok tt) "val1" "3" none) ≡ true)
    ↔ ((tx : Bytes) × Undelegates session "like1" refl "val1" "3" none tx)
handle_unstake_token-broadcasts_iff_example =
    handle_unstake_token-broadcasts_iff session (ok tt) "like1" refl "val1" "3" none
