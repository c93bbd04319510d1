-- ===== src/Proposal/Panels.antt =====
-- What the panels of votes and deposits show.
use likedao.Common.{
  Bool, false, not, ◌&&◌, none, some, List, [], ◌∷◌, ◌++◌, String, str_eq, if◌then◌else◌,
}
use likedao.Proposal.{
  get_voter_or_depositor_address, ProposalVote, ProposalDeposit, is_pinned_depositor,
}

abbrev pub has_address : ProposalVote → Bool
has_address vote = elim (get_voter_or_depositor_address vote.voter) [
  | none ↦ false
  | some address ↦ not (str_eq address "")
]

abbrev pub is_pinned_vote : List String → ProposalVote → Bool
is_pinned_vote validators vote = is_pinned_depositor validators (some vote.voter)

abbrev pub is_other_vote : List String → ProposalVote → Bool
is_other_vote validators vote = has_address vote && not (is_pinned_vote validators vote)

-- an element that is pushed onto the lists whose tests hold
abbrev routed {ℓ} : {A : Type ℓ} → Bool → Bool → List A × List A → A → List A × List A
routed p q acc x = (if p then acc.0 ++ x ∷ [] else acc.0, if q then acc.1 ++ x ∷ [] else acc.1)

module _ {A : Type 0} (validators : List String) where
  abbrev pub is_pinned_deposit : ProposalDeposit A → Bool
  is_pinned_deposit deposit = is_pinned_depositor validators deposit.depositor
