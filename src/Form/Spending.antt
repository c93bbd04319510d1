-- ===== src/Form/Spending.antt =====
-- An amount that a form accepts is not refused by the API for insufficient funds.
use likedao.Common.{ℕ, ◌≡◌, ◌∙◌, sym, Option, List, [], ◌∷◌, String, Result, ok, if◌then◌else◌}
use likedao.Message.{
  Coin, EncodeObject, ProposalType, ProposalContentBody, new_send_message, new_delegate_message,
  make_deposit_message, make_submit_proposal_message,
}
use likedao.Amount.{is_less_than-convert}
use likedao.Chain.{Session, connected}
use likedao.Api.Cosmos.{sign_tx}
use likedao.Api.Bank.{to_token, minimal_coin, sign_send_token_tx}
use likedao.Api.Staking.{sign_delegate_token_tx}
use likedao.Api.Gov.{sign_deposit_proposal_tx, sign_submit_proposal_tx}
use likedao.Api.Guards.{spend, sign_tokens-eq-spend, sign_deposits-eq-spend}
use likedao.Form.Validators.{Passes}
use likedao.Form.Models.{
  send_token_form_model, stake_token_form_model, deposit_proposal_form_model,
  submit_proposal_form_model,
}
use likedao.Form.Amounts.{Affordable, amounts_iff}

module _ (s : Session) (decode : String → Result (List ℕ)) (address : String) (raw : Coin)
    (memo : Option String) (is_connected : s.wallet ≡ connected address)
    (answered : s.query.bank_balance address s.chain.currency.coin_minimal_denom ≡ ok raw) where
  -- the balance that the wallet shows
  abbrev pub shown_balance : s.numbers.BigNumber
  shown_balance = to_token s (s.numbers.of_string raw.amount)

  spend-Affordable :
      (v : String) (message : EncodeObject)
      → Affordable s.numbers decode shown_balance v
      → spend s raw (s.numbers.of_string v) message memo ≡ sign_tx s (message ∷ []) memo
  spend-Affordable v message affordable =
      let parsed = s.numbers.of_string v in
      let enough =
        sym (
          is_less_than-convert s.numbers s.chain.currency.coin_decimals
            (s.numbers.of_string raw.amount) parsed)
        ∙ s.numbers.less_or_not parsed shown_balance affordable in
      rw (enough, spend)

  -- For a connected wallet whose shown balance is still the one on chain: an amount that the form
  -- for sending, staking, depositing or proposing accepts is never refused for insufficient funds.
  -- The one message that carries it goes to the wallet to be signed.
  pub accepted-sign_tx :
      {P : Type 0} (encode : ProposalType → P → List ℕ) (body : ProposalContentBody P)
      (party v : String) (proposal_id : ℕ)
      → let parsed = s.numbers.of_string v in
        (Passes (send_token_form_model s.numbers decode shown_balance).amount v
          → sign_send_token_tx s party v memo
            ≡ sign_tx s (new_send_message address party (minimal_coin s parsed ∷ []) ∷ []) memo)
        × (Passes (stake_token_form_model s.numbers decode shown_balance).amount v
            → sign_delegate_token_tx s party v memo
              ≡ sign_tx s (new_delegate_message address party (minimal_coin s parsed) ∷ []) memo)
        × (Passes (deposit_proposal_form_model s.numbers decode shown_balance).amount v
            → sign_deposit_proposal_tx s proposal_id parsed memo
              ≡ sign_tx s
                  (make_deposit_message proposal_id address (minimal_coin s parsed ∷ []) ∷ [])
                  memo)
        × (Passes (submit_proposal_form_model s.numbers decode shown_balance).amount v
            → sign_submit_proposal_tx s encode body parsed memo
              ≡ sign_tx s
                  (make_submit_proposal_message encode body
                      (if s.numbers.is_zero parsed then [] else minimal_coin s parsed ∷ [])
                      address
                    ∷ [])
                  memo)
  accepted-sign_tx encode body party v proposal_id =
      let (send, stake, unstake, deposit, propose, minus) =
        amounts_iff s.numbers decode shown_balance v in
      let (sends, stakes) = sign_tokens-eq-spend s address raw memo is_connected answered party v in
      let (deposits, proposes) =
        sign_deposits-eq-spend s address raw memo is_connected answered encode body proposal_id
          (s.numbers.of_string v) in
      (
        λ accepted. sends ∙ spend-Affordable v _ (send.0 accepted).2,
        λ accepted. stakes ∙ spend-Affordable v _ (stake.0 accepted).2,
        λ accepted. deposits ∙ spend-Affordable v _ (deposit.0 accepted).2,
        λ accepted. proposes ∙ spend-Affordable v _ (propose.0 accepted).1,
      )
