-- ===== src/Form/Amounts.antt =====
-- Which amounts the forms accept.
use Prim.Native.Char.{Char, code}
use likedao.Common.{ℕ, ◌≡◌, ◌≢◌, ◌↔◌, refl, ap, true, false, List, String, Result}
use likedao.BigNumber.{BigNumberLib}
use likedao.Form.ParseFloat.{parse_float, is_finite, is_positive, is_positive-minus}
use likedao.Form.Validators.{
  or_message-eq_passed, Passes, is_finite_validator, is_greater_than_zero,
}
use likedao.Form.Models.{
  is_less_than_max, amount_options, send_token_form_model, stake_token_form_model,
  unstake_token_form_model, deposit_proposal_form_model, submit_proposal_form_model,
}

no_number : is_finite (parse_float "") ≡ false
unfolding is_finite parse_float
no_number = refl

-- no text that a finite number is read of is empty
is_present : (v : String) → is_finite (parse_float v) ≡ true → v ≢ ""
is_present v h e = cc (ap (λ t. is_finite (parse_float t)) e, no_number)

module _ (N : BigNumberLib) (decode : String → Result (List ℕ)) (available : N.BigNumber) where
  open N use {of_string, is_less_than_or_equal}

  abbrev pub Affordable : String → Type 0
  Affordable v = is_less_than_or_equal (of_string v) available ≡ true

  abbrev pub Spendable : String → Type 0
  Spendable v =
      (is_finite (parse_float v) ≡ true) × (is_positive (parse_float v) ≡ true) × Affordable v

  amount_options_iff : (v : String) → Passes (amount_options N decode available) v ↔ Spendable v
  unfolding is_finite_validator is_greater_than_zero is_less_than_max
  amount_options_iff v = (
    λ (present, short, (finite, (positive, (affordable, rest)))). (
      or_message-eq_passed _ _ finite,
      or_message-eq_passed _ _ positive,
      or_message-eq_passed _ _ affordable,
    ),
    λ (finite, positive, affordable).
        (λ e. is_present v finite, tt, (rw finite, (rw positive, (rw affordable, tt)))),
  )

  proposal_amount_iff :
      (v : String)
      → Passes (submit_proposal_form_model N decode available).amount v
        ↔ ((is_finite (parse_float v) ≡ true) × Affordable v)
  unfolding submit_proposal_form_model is_finite_validator is_less_than_max
  proposal_amount_iff v = (
    λ (present, short, (finite, (affordable, rest))).
        (or_message-eq_passed _ _ finite, or_message-eq_passed _ _ affordable),
    λ (finite, affordable). (λ e. is_present v finite, tt, (rw finite, (rw affordable, tt))),
  )

  -- An amount is accepted by the forms that send, stake, unstake and deposit tokens exactly when it
  -- is read as a finite number above 0 and is at most the available amount, which no text that
  -- begins with a minus sign is. The form of a new proposal asks only for a finite number that is at
  -- most the available amount.
  pub amounts_iff :
      (v : String)
      → (Passes (send_token_form_model N decode available).amount v ↔ Spendable v)
        × (Passes (stake_token_form_model N decode available).amount v ↔ Spendable v)
        × (Passes (unstake_token_form_model N decode available).amount v ↔ Spendable v)
        × (Passes (deposit_proposal_form_model N decode available).amount v ↔ Spendable v)
        × (Passes (submit_proposal_form_model N decode available).amount v
            ↔ ((is_finite (parse_float v) ≡ true) × Affordable v))
        × ((c : Char) (rest : String) → code c ≡ b'-' → v ≡ String.◌∷◌ c rest → ¬ Spendable v)
  unfolding send_token_form_model stake_token_form_model unstake_token_form_model
      deposit_proposal_form_model
  amounts_iff v = (
    amount_options_iff v,
    amount_options_iff v,
    amount_options_iff v,
    amount_options_iff v,
    proposal_amount_iff v,
    λ c rest minus e accepted.
        cc (accepted.1, ap (λ t. is_positive (parse_float t)) e, is_positive-minus c rest minus),
  )
