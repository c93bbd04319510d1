-- ===== src/Transaction/Screens.antt =====
-- The other submissions, of the same form: handleVoteSubmission and handleDepositSubmission of
-- react-app/src/components/ProposalDetailScreen/ProposalDetailScreen.tsx, handleStakeToken and
-- handleUnstakeToken of components/ValidatorDetailScreen/ValidatorDetailScreen.tsx, and
-- onSubmitSubmitProposal of components/CreateProposalScreen/CreateProposalScreen.tsx. The modals of
-- these screens are their own; only their closing is an event here.
use likedao.Common.{ℕ, Option, List, [], ◌∷◌, String, Result}
use likedao.Message.{ProposalType, VoteOption}
use likedao.Chain.{Session}
use likedao.Api.Staking.{sign_delegate_token_tx, sign_undelegate_token_tx}
use likedao.Api.Gov.{sign_vote_proposal_tx, sign_deposit_proposal_tx, sign_submit_proposal_tx}
use likedao.Transaction.{Event, submit_as, account_refreshed}

-- what the user sees of the submission of a proposal: the events, and the way back to the list
pub data ScreenEvent : Type 0 where
  shown : Event → ScreenEvent
  navigated_to_proposals : ScreenEvent

-- the submission ends with the refresh, or with its `catch` block
unfoldable pub navigate_after : List Event → List ScreenEvent
navigate_after [] = []
navigate_after (account_refreshed ∷ events) =
    shown account_refreshed ∷ navigated_to_proposals ∷ navigate_after events
navigate_after (e ∷ events) = shown e ∷ navigate_after events

module _ (s : Session) (refreshed : Result (Unit {0})) where
  unfoldable pub handle_vote_submission : ℕ → VoteOption → Option String → List Event
  unfolding submit_as
  handle_vote_submission proposal_id option memo =
      submit_as s refreshed s.wallet (sign_vote_proposal_tx s proposal_id option memo)

  unfoldable pub handle_deposit_submission : ℕ → String → Option String → List Event
  unfolding submit_as
  handle_deposit_submission proposal_id amount memo =
      submit_as s refreshed s.wallet
        (sign_deposit_proposal_tx s proposal_id (s.numbers.of_string amount) memo)

  unfoldable pub handle_stake_token : String → String → Option String → List Event
  unfolding submit_as
  handle_stake_token validator amount memo =
      submit_as s refreshed s.wallet (sign_delegate_token_tx s validator amount memo)

  unfoldable pub handle_unstake_token : String → String → Option String → List Event
  unfolding submit_as
  handle_unstake_token validator amount memo =
      submit_as s refreshed s.wallet (sign_undelegate_token_tx s validator amount memo)

  -- `encode` encodes a text proposal with its title and description; the form's type is passed on
  module _ (encode : ProposalType → String × String → List ℕ) where
    unfoldable pub on_submit_submit_proposal :
        ProposalType → String → String → String → Option String → List ScreenEvent
    unfolding submit_as navigate_after
    on_submit_submit_proposal type title description amount memo = navigate_after (
        submit_as s refreshed s.wallet (
          sign_submit_proposal_tx s encode (record { type = type; proposal = (title, description) })
            (s.numbers.of_string amount) memo))
