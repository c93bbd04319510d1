-- ===== src/Proposal/Actions.antt =====
-- What the user can do on the page of a proposal: the button of
-- react-app/src/components/ProposalDetailScreen/ProposalHeader.tsx, and the handlers of
-- ProposalDetailScreen.tsx that it calls. The statuses and their badges are those of
-- components/proposals/utils.tsx.
use likedao.Common.{
  Bool, true, false, Option, none, some, List, [], ◌∷◌, String, Result, ok, err, ◌>>=◌,
}
use likedao.Chain.{Wallet, connecting, idle, connected}
use likedao.Request.{RequestState, initial, loading, loaded, failed}
use likedao.Reaction.{ReactionType, ReactionCall, handle_reaction_select}

pub data ProposalStatus : Type 0 where
  passed rejected deposit_period voting_period invalid execution_failed : ProposalStatus

-- the message and the colour
abbrev pub get_proposal_status_badge_config : ProposalStatus → String × String
get_proposal_status_badge_config passed = ("Proposal.status.passed", "green")
get_proposal_status_badge_config rejected = ("Proposal.status.rejected", "red")
get_proposal_status_badge_config deposit_period = ("Proposal.status.depositPeriod", "blue")
get_proposal_status_badge_config voting_period = ("Proposal.status.votingPeriod", "yellow")
get_proposal_status_badge_config invalid = ("Proposal.status.invalid", "grey")
get_proposal_status_badge_config execution_failed = ("Proposal.status.failed", "purple")

pub data ProposalPeriodType : Type 0 where
  voting deposit : ProposalPeriodType

-- the dates of date-fns; `isWithinInterval` throws where the end is before the start
pub record Dates : Type 1 where
  pub Time : Type 0
  pub is_before : Time → Time → Bool
  pub is_within_interval : Time → Time → Time → Result Bool

-- what the header reads of the proposal
pub record HeaderProposal (Time : Type 0) : Type 0 where
  pub id : String
  pub status : ProposalStatus
  pub deposit_end_time : Option Time
  pub voting_start_time : Option Time
  pub voting_end_time : Option Time
  pub my_reaction : Option String

pub data ProposalDetailModal : Type 0 where
  vote_modal deposit_modal : ProposalDetailModal

-- what a handler does that can be seen
pub data Effect : Type 0 where
  modal_set : ProposalDetailModal → Effect
  connect_wallet_opened : Effect
  reaction_recorded : ReactionCall → Effect
  reaction_called : (id : String) → ReactionCall → Effect
  reaction_failed : Effect

module _ (dates : Dates) where
  open dates use {Time, is_before, is_within_interval}

  -- the two tests of `proposalPeriod`, which a time that is missing fails
  abbrev pub in_deposit : Time → Option Time → Option ProposalPeriodType
  in_deposit now none = none
  in_deposit now (some end_time) = elim (is_before now end_time) [
    | true ↦ some deposit
    | false ↦ none
  ]

  abbrev pub within : Bool → Option ProposalPeriodType
  within true = some voting
  within false = none

  abbrev pub in_voting : Time → Option Time → Option Time → Result (Option ProposalPeriodType)
  in_voting now none end_time = ok none
  in_voting now (some start_time) none = ok none
  in_voting now (some start_time) (some end_time) = do
    answer ← is_within_interval now start_time end_time
    ok (within answer)

  unfoldable pub period_in :
      ProposalStatus → Time → HeaderProposal Time → Result (Option ProposalPeriodType)
  period_in deposit_period now p = ok (in_deposit now p.deposit_end_time)
  period_in voting_period now p = in_voting now p.voting_start_time p.voting_end_time
  period_in passed now p = ok none
  period_in rejected now p = ok none
  period_in invalid now p = ok none
  period_in execution_failed now p = ok none

  -- the period that decides whether there is a button, and which
  unfoldable pub proposal_period : Time → HeaderProposal Time → Result (Option ProposalPeriodType)
  unfolding period_in
  proposal_period now p = period_in p.status now p

  -- `handleOpenVoteModal` and `handleOpenDepositModal`; while the wallet is connecting,
  -- `openConnectWalletModal` is undefined, and `?.()` does nothing
  unfoldable pub handle_open_modal : ProposalDetailModal → Wallet → List Effect
  handle_open_modal modal (connected address) = modal_set modal ∷ []
  handle_open_modal modal connecting = []
  handle_open_modal modal idle = connect_wallet_opened ∷ []

  -- the `onClick` of the button; there is none outside of the two periods
  abbrev pub button_click : Option ProposalPeriodType → Wallet → Option (List Effect)
  button_click none wallet = none
  button_click (some voting) wallet = some (handle_open_modal vote_modal wallet)
  button_click (some deposit) wallet = some (handle_open_modal deposit_modal wallet)

  -- what a click on the button does, where it is shown
  unfoldable pub click_button : Time → HeaderProposal Time → Wallet → Result (Option (List Effect))
  unfolding proposal_period handle_open_modal
  click_button now p wallet = do period ← proposal_period now p; ok (button_click period wallet)

  -- the `try` block around the call of the reaction API, which comes to `outcome`
  abbrev pub called : ReactionCall → String → Result (Unit {0}) → List Effect
  called call id (ok done) = reaction_called id call ∷ []
  called call id (err e) = reaction_called id call ∷ reaction_failed ∷ []

  as_connected : ReactionCall → Wallet → String → Result (Unit {0}) → List Effect
  as_connected call connecting id outcome = []
  as_connected call idle id outcome = connect_wallet_opened ∷ []
  as_connected call (connected address) id outcome = reaction_recorded call ∷ called call id outcome

  -- `onSetReaction` and `onUnsetReaction`
  unfoldable pub on_reaction :
      ReactionCall
      → RequestState (Option (HeaderProposal Time))
      → Wallet
      → Result (Unit {0})
      → List Effect
  unfolding as_connected
  on_reaction call initial wallet outcome = []
  on_reaction call loading wallet outcome = []
  on_reaction call (failed reason) wallet outcome = []
  on_reaction call (loaded none) wallet outcome = []
  on_reaction call (loaded (some p)) wallet outcome = as_connected call wallet p.id outcome

  -- a click on a reaction of the proposal that is shown
  unfoldable pub click_reaction :
      HeaderProposal Time → ReactionType → Wallet → Result (Unit {0}) → List Effect
  unfolding on_reaction
  click_reaction p type wallet outcome =
      on_reaction (handle_reaction_select p.my_reaction type) (loaded (some p)) wallet outcome
