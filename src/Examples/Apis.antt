-- ===== src/Examples/Apis.antt =====
-- The APIs and the screens over them, on a session with a connected wallet.
use likedao.Common.{
  ℕ, ◌≤◌, ◌≡◌, refl, ◌↔◌, ◌⊎◌, true, none, some, List, [], ◌∷◌, String, ok, err, error, Thrown,
  arith,
}
use likedao.Common.Int.{◌+ℤ◌, ◌-ℤ◌}
use likedao.Amount.{convert_minimal_token_to_token, convert_token_to_minimal_token}
use likedao.Message.{
  EncodeObject, new_send_message, new_delegate_message, make_deposit_message,
  make_submit_proposal_message, ProposalType, signaling, ProposalContentBody,
}
use likedao.Chain.{DelegationResponse}
use likedao.Api.Cosmos.{sign_tx}
use likedao.Api.Bank.{minimal_coin, sign_send_token_tx, to_token}
use likedao.Api.Paging.{Serves, last, more, load_pages, load_pages_iff}
use likedao.Api.Staking.{
  includes, sign_delegate_token_tx, sign_undelegate_token_tx, get_delegation, get_delegator_stakes,
  get_address_staked_balance,
}
use likedao.Api.Distribution.{sign_withdraw_delegation_rewards_tx}
use likedao.Api.Gov.{sign_deposit_proposal_tx, sign_submit_proposal_tx}
use likedao.Api.Guards.{spend, sign_tokens-eq-spend, sign_deposits-eq-spend}
use likedao.Api.Balances.{add_stakes, staked_balance-eq-stakes}
use likedao.Api.Signing.{SignOutcome, sign_tx_iff, Undelegates, sign_undelegate_token_tx_iff}
use likedao.Api.Withdrawals.{Withdraws, sign_withdraw_delegation_rewards_tx_iff}
use likedao.Api.Answers.{IsNotFound, IsIncomplete, get_delegation-eq-none_iff}
use likedao.Examples.Fixtures.{nanolike, delegation_to, delegations, session}

abbrev encode : ProposalType → ℕ → List ℕ
encode type n = n ∷ []

abbrev body : ProposalContentBody ℕ
body = record { type = signaling; proposal = 7 }

abbrev three : session.numbers.BigNumber
three = session.numbers.of_string "3"

sign_tokens-eq-spend_example :
    (sign_send_token_tx session "like2" "3" none
      ≡ spend session
          (nanolike "5000000000")
          three
          (new_send_message "like1" "like2" (minimal_coin session three ∷ []))
          none)
    × (sign_delegate_token_tx session "like2" "3" none
        ≡ spend session
            (nanolike "5000000000")
            three
            (new_delegate_message "like1" "like2" (minimal_coin session three))
            none)
sign_tokens-eq-spend_example =
    sign_tokens-eq-spend session "like1" (nanolike "5000000000") none refl refl "like2" "3"

sign_deposits-eq-spend_example :
    (sign_deposit_proposal_tx session 9 three none
      ≡ spend session
          (nanolike "5000000000")
          three
          (make_deposit_message 9 "like1" (minimal_coin session three ∷ []))
          none)
    × (sign_submit_proposal_tx session encode body three none
        ≡ spend session
            (nanolike "5000000000")
            three
            (make_submit_proposal_message encode body (minimal_coin session three ∷ []) "like1")
            none)
sign_deposits-eq-spend_example =
    sign_deposits-eq-spend session "like1" (nanolike "5000000000") none refl refl encode body 9
      three

-- what a spending comes to: 3 of 5 tokens are signed for, 6 are not
spend_signs : sign_send_token_tx session "like2" "3" none ≡ ok (130000 ∷ [])
unfolding sign_send_token_tx sign_tx convert_minimal_token_to_token convert_token_to_minimal_token
    ◌+ℤ◌ ◌-ℤ◌
spend_signs = refl

spend_refuses : sign_send_token_tx session "like2" "6" none ≡ err (error "Insufficient funds")
unfolding sign_send_token_tx sign_tx convert_minimal_token_to_token convert_token_to_minimal_token
    ◌+ℤ◌ ◌-ℤ◌
spend_refuses = refl

-- the two pages
abbrev two_pages : List DelegationResponse
two_pages = delegation_to "val1" "7000000000" ∷ delegation_to "val2" "2000000000" ∷ []

two_pages-Serves : Serves (delegations "like1") none 2 two_pages
two_pages-Serves = more refl refl (last refl refl)

load_pages_iff_example :
    (load_pages (delegations "like1") 2 ≡ some (ok two_pages))
    ↔ ((n : ℕ) × (n ≤ 2) × Serves (delegations "like1") none n two_pages)
load_pages_iff_example = load_pages_iff (delegations "like1") 2 two_pages

staked_balance-eq-stakes_example :
    (stakes : _) × (get_delegator_stakes session 2 "like1" ≡ some (ok stakes))
    × (get_address_staked_balance session 2 "like1"
        ≡ some (
            ok (record {
              denom = "LIKE";
              amount = add_stakes session (to_token session session.numbers.big_zero) stakes;
            })))
staked_balance-eq-stakes_example =
    staked_balance-eq-stakes session 2 "like1" 2 two_pages (omega arith) two_pages-Serves
      (λ e. absurd cc, (λ e. absurd cc, tt))

get_delegation-eq-none_iff_example :
    let answer = session.query.staking_delegation "like1" "val1" in
    ((get_delegation session "like1" "val1" ≡ ok none) ↔ (
      (answer ≡ ok none)
      ⊎ ((message : String) × (answer ≡ err (error message))
          × (includes message "NotFound" ≡ true))))
    × ((e : Thrown)
        → (get_delegation session "like1" "val1" ≡ err e) ↔ (
            ((answer ≡ err e) × (¬ IsNotFound e))
            ⊎ ((r : DelegationResponse) × (answer ≡ ok (some r))
                × IsIncomplete r
                × (e ≡ error "Failed to fetch delegation"))))
get_delegation-eq-none_iff_example = get_delegation-eq-none_iff session "like1" "val1"

abbrev sending : List EncodeObject
sending = new_send_message "like1" "like2" (nanolike "3" ∷ []) ∷ []

sign_tx_iff_example :
    (sign_tx session sending none ≡ ok (130000 ∷ []))
    ↔ SignOutcome session "like1" refl sending none (ok (130000 ∷ []))
sign_tx_iff_example = sign_tx_iff session "like1" refl sending none (ok (130000 ∷ []))

sign_undelegate_token_tx_iff_example :
    (sign_undelegate_token_tx session "val1" "3" none ≡ ok (130000 ∷ []))
    ↔ Undelegates session "like1" refl "val1" "3" none (130000 ∷ [])
sign_undelegate_token_tx_iff_example =
    sign_undelegate_token_tx_iff session "like1" refl "val1" "3" none (130000 ∷ [])

sign_withdraw_delegation_rewards_tx_iff_example :
    (sign_withdraw_delegation_rewards_tx session none ≡ ok (130000 ∷ []))
    ↔ Withdraws session "like1" refl none (130000 ∷ [])
sign_withdraw_delegation_rewards_tx_iff_example =
    sign_withdraw_delegation_rewards_tx_iff session "like1" refl none (130000 ∷ [])
