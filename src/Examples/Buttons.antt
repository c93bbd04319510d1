-- ===== src/Examples/Buttons.antt =====
-- A proposal in its voting period, and the wallet of a voter.
use likedao.Common.{ℕ, ◌≡◌, ◌↔◌, ◌⊎◌, refl, ◌&&◌, none, some, [], ◌∷◌, ok, leb, ltb}
use likedao.Chain.{idle, connected}
use likedao.Reaction.{like, call_set, handle_reaction_select}
use likedao.Proposal.Actions.{
  Dates, HeaderProposal, voting_period, ProposalDetailModal, vote_modal, deposit_modal, modal_set,
  connect_wallet_opened, click_button, reaction_recorded, reaction_called, click_reaction,
}
use likedao.Proposal.Buttons.{IsVoting, IsDepositing, IsConnected, button_iff}

abbrev clock : Dates
clock = record {
  Time = ℕ;
  is_before = ltb;
  is_within_interval = λ now start_time end_time. ok (leb start_time now && leb now end_time);
}

abbrev proposal : HeaderProposal ℕ
proposal = record {
  id = "proposal_7";
  status = voting_period;
  deposit_end_time = some 10;
  voting_start_time = some 10;
  voting_end_time = some 20;
  my_reaction = none;
}

button_iff_example :
    let wallet = connected "like1" in
    let opens = λ (modal : ProposalDetailModal).
      click_button clock 15 proposal wallet ≡ ok (some (modal_set modal ∷ [])) in
    (opens vote_modal ↔ (IsVoting clock 15 proposal × IsConnected clock 15 wallet))
    × (opens deposit_modal ↔ (IsDepositing clock 15 proposal × IsConnected clock 15 wallet))
    × ((click_button clock 15 proposal wallet ≡ ok (some (connect_wallet_opened ∷ [])))
        ↔ ((IsVoting clock 15 proposal ⊎ IsDepositing clock 15 proposal) × (wallet ≡ idle)))
button_iff_example = button_iff clock 15 proposal (connected "like1")

proposal-IsVoting : IsVoting clock 15 proposal
proposal-IsVoting = record {
  status_voting = refl;
  start_time = 10;
  end_time = 20;
  starts = refl;
  ends = refl;
  inside = refl;
}

first_reaction :
    click_reaction clock proposal like (connected "like1") (ok tt)
    ≡ reaction_recorded (call_set like) ∷ reaction_called "proposal_7" (call_set like) ∷ []
unfolding click_reaction handle_reaction_select
first_reaction = refl
