-- ===== src/Transaction/Chains.antt =====
-- The submissions of the screens, from the form to the chain.
use likedao.Common.{
  ℕ, ◌≡◌, refl, ◌↔◌, Bool, true, false, Option, List, [], ◌∷◌, String, any, Result, ok, err,
}
use likedao.Message.{ProposalType, VoteOption}
use likedao.Chain.{Bytes, Session, connected}
use likedao.Api.Staking.{sign_delegate_token_tx, sign_undelegate_token_tx}
use likedao.Api.Gov.{sign_vote_proposal_tx, sign_deposit_proposal_tx, sign_submit_proposal_tx}
use likedao.Api.Signing.{Undelegates, sign_undelegate_token_tx_iff}
use likedao.Transaction.{
  Event, modal_set, broadcasting, broadcast_succeeded, account_refreshed, error_shown, submit_as,
  after_sign,
}
use likedao.Transaction.Outcome.{is_refreshed, Accepted, Ends, sign-Ends, submit_as-connected}
use likedao.Transaction.Screens.{
  ScreenEvent, shown, navigated_to_proposals, navigate_after, handle_vote_submission,
  handle_deposit_submission, handle_stake_token, handle_unstake_token, on_submit_submit_proposal,
}

abbrev pub is_broadcasting : Event → Bool
is_broadcasting broadcasting = true
is_broadcasting (modal_set modal) = false
is_broadcasting broadcast_succeeded = false
is_broadcasting account_refreshed = false
is_broadcasting (error_shown e) = false

abbrev pub is_navigated : ScreenEvent → Bool
is_navigated navigated_to_proposals = true
is_navigated (shown e) = false

navigated :
    (events : List Event) → any is_navigated (navigate_after events) ≡ any is_refreshed events
unfolding navigate_after
navigated [] = refl
navigated (account_refreshed ∷ events) = refl
navigated (modal_set modal ∷ events) = navigated events
navigated (broadcasting ∷ events) = navigated events
navigated (broadcast_succeeded ∷ events) = navigated events
navigated (error_shown e ∷ events) = navigated events

module _ (s : Session) (refreshed : Result (Unit {0})) (address : String)
    (is_connected : s.wallet ≡ connected address) where
  submits :
      (signed : Result Bytes) → Ends s refreshed signed (submit_as s refreshed s.wallet signed)
  submits signed =
      rw (submit_as-connected s refreshed address is_connected signed)
        (sign-Ends s refreshed address is_connected signed)

  -- For a connected wallet, the submissions of a vote, a deposit, a stake and an unstake each refresh
  -- the account exactly when the transaction was signed, the chain accepted it and the refresh went
  -- well, show an error exactly when not, and close the modal; and the submission of a proposal leads
  -- back to the list of proposals exactly when the same holds of its transaction.
  pub screens-End :
      (proposal_id : ℕ) (option : VoteOption) (validator amount : String) (memo : Option String)
      (encode : ProposalType → String × String → List ℕ) (type : ProposalType)
      (title description : String)
      → Ends s refreshed
          (sign_vote_proposal_tx s proposal_id option memo)
          (handle_vote_submission s refreshed proposal_id option memo)
        × Ends s refreshed
            (sign_deposit_proposal_tx s proposal_id (s.numbers.of_string amount) memo)
            (handle_deposit_submission s refreshed proposal_id amount memo)
        × Ends s refreshed
            (sign_delegate_token_tx s validator amount memo)
            (handle_stake_token s refreshed validator amount memo)
        × Ends s refreshed
            (sign_undelegate_token_tx s validator amount memo)
            (handle_unstake_token s refreshed validator amount memo)
        × ((any is_navigated
                (on_submit_submit_proposal s refreshed encode type title description amount memo)
              ≡ true)
            ↔ (Accepted s refreshed (
                  sign_submit_proposal_tx s encode
                    (record { type = type; proposal = (title, description) })
                    (s.numbers.of_string amount)
                    memo)
                × (refreshed ≡ ok tt)))
  unfolding handle_vote_submission handle_deposit_submission handle_stake_token handle_unstake_token
      on_submit_submit_proposal
  screens-End proposal_id option validator amount memo encode type title description =
      let signed =
        sign_submit_proposal_tx s encode (record { type = type; proposal = (title, description) })
          (s.numbers.of_string amount) memo in
      (
        submits (sign_vote_proposal_tx s proposal_id option memo),
        submits (sign_deposit_proposal_tx s proposal_id (s.numbers.of_string amount) memo),
        submits (sign_delegate_token_tx s validator amount memo),
        submits (sign_undelegate_token_tx s validator amount memo),
        rw (navigated (submit_as s refreshed s.wallet signed)) (submits signed).0,
      )

  broadcasts :
      (signed : Result Bytes)
      → (any is_broadcasting (after_sign s refreshed signed) ≡ true)
        ↔ ((tx : Bytes) × (signed ≡ ok tx))
  unfolding after_sign
  broadcasts (ok tx) = (λ h. (tx, refl), λ h. refl)
  broadcasts (err e) = (λ h. cc, λ h. absurd (cc h.1))

  -- For a connected wallet, unstaking reaches the chain exactly when the chain answered a delegation
  -- whose balance covers the amount, and the wallet signed the message that takes it.
  pub handle_unstake_token-broadcasts_iff :
      (validator amount : String) (memo : Option String)
      → (any is_broadcasting (handle_unstake_token s refreshed validator amount memo) ≡ true)
        ↔ ((tx : Bytes) × Undelegates s address is_connected validator amount memo tx)
  unfolding handle_unstake_token
  handle_unstake_token-broadcasts_iff validator amount memo =
      let signed = sign_undelegate_token_tx s validator amount memo in
      let (only, when) = broadcasts signed in
      rw (submit_as-connected s refreshed address is_connected signed) (
        λ h.
            let (tx, e) = only h in
            (
              tx,
              (sign_undelegate_token_tx_iff s address is_connected validator amount memo tx).0 e,
            ),
        λ (tx, u). when (
          tx,
          (sign_undelegate_token_tx_iff s address is_connected validator amount memo tx).1 u,
        ),
      )
