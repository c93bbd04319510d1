-- ===== src/Examples/Forms.antt =====
-- The forms, for a wallet that holds five tokens.
use Prim.Native.Char.{Char, code}
use likedao.Common.{ℕ, ◌≡◌, ◌↔◌, refl, true, none, List, [], ◌∷◌, String, Result, ok, if◌then◌else◌}
use likedao.Common.Int.{◌+ℤ◌, ◌-ℤ◌}
use likedao.Amount.{convert_minimal_token_to_token}
use likedao.BigNumber.Decimal.{Decimal, decimals}
use likedao.Message.{
  ProposalType, new_send_message, new_delegate_message, make_deposit_message,
  make_submit_proposal_message, ProposalContentBody, signaling,
}
use likedao.Api.Cosmos.{sign_tx}
use likedao.Api.Bank.{minimal_coin, sign_send_token_tx}
use likedao.Api.Staking.{sign_delegate_token_tx}
use likedao.Api.Gov.{sign_deposit_proposal_tx, sign_submit_proposal_tx}
use likedao.Form.ParseFloat.{parse_float, is_finite, is_positive}
use likedao.Form.Validators.{Passes, passed, failed_with, less_than, is_finite_validator}
use likedao.Form.Models.{
  send_token_form_model, stake_token_form_model, unstake_token_form_model,
  deposit_proposal_form_model, submit_proposal_form_model, is_less_than_max,
}
use likedao.Form.Amounts.{Affordable, Spendable, amounts_iff}
use likedao.Form.Spending.{shown_balance, accepted-sign_tx}
use likedao.Examples.Fixtures.{nanolike, session}

abbrev decode : String → Result (List ℕ)
decode address = ok (1 ∷ 2 ∷ [])

abbrev five : Decimal
five = decimals.of_string "5"

amounts_iff_example :
    (Passes (send_token_form_model decimals decode five).amount "3"
      ↔ Spendable decimals decode five "3")
    × (Passes (stake_token_form_model decimals decode five).amount "3"
        ↔ Spendable decimals decode five "3")
    × (Passes (unstake_token_form_model decimals decode five).amount "3"
        ↔ Spendable decimals decode five "3")
    × (Passes (deposit_proposal_form_model decimals decode five).amount "3"
        ↔ Spendable decimals decode five "3")
    × (Passes (submit_proposal_form_model decimals decode five).amount "3"
        ↔ ((is_finite (parse_float "3") ≡ true) × Affordable decimals decode five "3"))
    × ((c : Char) (rest : String)
        → code c ≡ b'-'
        → ◌≡◌ {A = String} "3" (String.◌∷◌ c rest)
        → ¬ Spendable decimals decode five "3")
amounts_iff_example = amounts_iff decimals decode five "3"

abbrev encode : ProposalType → ℕ → List ℕ
encode type n = n ∷ []

abbrev body : ProposalContentBody ℕ
body = record { type = signaling; proposal = 7 }

abbrev balance : Decimal
balance = shown_balance session decode "like1" (nanolike "5000000000") none refl refl

accepted-sign_tx_example :
    let three = decimals.of_string "3" in
    (Passes (send_token_form_model decimals decode balance).amount "3"
      → sign_send_token_tx session "like2" "3" none
        ≡ sign_tx session
            (new_send_message "like1" "like2" (minimal_coin session three ∷ []) ∷ [])
            none)
    × (Passes (stake_token_form_model decimals decode balance).amount "3"
        → sign_delegate_token_tx session "like2" "3" none
          ≡ sign_tx session
              (new_delegate_message "like1" "like2" (minimal_coin session three) ∷ [])
              none)
    × (Passes (deposit_proposal_form_model decimals decode balance).amount "3"
        → sign_deposit_proposal_tx session 9 three none
          ≡ sign_tx session
              (make_deposit_message 9 "like1" (minimal_coin session three ∷ []) ∷ [])
              none)
    × (Passes (submit_proposal_form_model decimals decode balance).amount "3"
        → sign_submit_proposal_tx session encode body three none
          ≡ sign_tx session
              (make_submit_proposal_message encode body
                  (if decimals.is_zero three then [] else minimal_coin session three ∷ [])
                  "like1"
                ∷ [])
              none)
accepted-sign_tx_example =
    accepted-sign_tx session decode "like1" (nanolike "5000000000") none refl refl encode body
      "like2" "3" 9

-- three tokens can be sent of five
three-Passes : Passes (send_token_form_model decimals decode balance).amount "3"
unfolding parse_float is_finite is_positive ◌+ℤ◌ ◌-ℤ◌ convert_minimal_token_to_token
three-Passes = (amounts_iff decimals decode balance "3").0.1 (refl, refl, refl)

-- the form of a new proposal reads a negative deposit as a number like any other
negative_deposit : is_finite_validator {B = Decimal} "-5" ≡ passed
unfolding is_finite_validator parse_float is_finite
negative_deposit = refl

too_many : is_less_than_max decimals balance "6" ≡ failed_with (less_than balance)
unfolding is_less_than_max ◌+ℤ◌ ◌-ℤ◌ convert_minimal_token_to_token
too_many = refl
