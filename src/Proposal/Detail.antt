-- ===== src/Proposal/Detail.antt =====
-- The rest of ProposalDetailScreenAPI.ts: deposits, the proposal that is shown, and the parameters
-- of the governance module.
use mathlib.Core.Option
use likedao.Common.{
  ℕ, Option, none, some, List, [], ◌∷◌, ◌++◌, map, String, error, other, Result, ok, err,
  if◌then◌else◌,
}
use likedao.Common.Int.{ℤ}
use likedao.Message.{Coin}
use likedao.Amount.{BigNumberCoin}
use likedao.Chain.{Session}
use likedao.Api.Bank.{to_token, amount_or_zero, find_minimal}
use likedao.Reaction.{ReactionType, ReactionCount, get_reaction_type}
use likedao.Request.{RequestState, loading, loaded, failed, map_request_data}
use likedao.SideBar.{DateFns}
use likedao.Proposal.{ProposalDeposit, is_pinned_depositor}

-- one step of the `reduce` over the deposits, and the `reduce`
module _ {A : Type 0} (validators : List String) where
  unfoldable pub push_deposit :
      List (ProposalDeposit A) × List (ProposalDeposit A)
      → ProposalDeposit A
      → List (ProposalDeposit A) × List (ProposalDeposit A)
  push_deposit acc deposit =
      if is_pinned_depositor validators deposit.depositor
      then (acc.0 ++ deposit ∷ [], acc.1)
      else (acc.0, acc.1 ++ deposit ∷ [])

  unfoldable pub push_deposits :
      List (ProposalDeposit A) × List (ProposalDeposit A)
      → List (ProposalDeposit A)
      → List (ProposalDeposit A) × List (ProposalDeposit A)
  push_deposits acc [] = acc
  push_deposits acc (deposit ∷ deposits) = push_deposits (push_deposit acc deposit) deposits

pub record PaginatedProposalDeposits (A : Type 0) : Type 0 where
  pub pinned_deposits : List (ProposalDeposit A)
  pub deposits : List (ProposalDeposit A)
  pub total_count : ℕ

-- `{ type: getReactionType(r.reaction), count: r.count }`, left out where there is no type
pub record ReactionItem : Type 0 where
  pub type : ReactionType
  pub count : ℤ

unfoldable pub reaction_items : List ReactionCount → List ReactionItem
reaction_items [] = []
reaction_items (r ∷ rs) = elim (get_reaction_type r.reaction) [
  | none ↦ reaction_items rs
  | some type ↦ record { type = type; count = r.count } ∷ reaction_items rs
]

pub record TallyResult (A : Type 0) : Type 0 where
  pub yes : A
  pub no : A
  pub no_with_veto : A
  pub abstain : A

-- the fields of `proposalByID` that are converted; its texts are kept as they are
pub record ProposalData (Time : Type 0) : Type 0 where
  pub voting_start_time : Option Time
  pub voting_end_time : Option Time
  pub deposit_end_time : Option Time
  pub deposit_total : List Coin
  pub tally_result : Option (TallyResult String)
  pub reactions : List ReactionCount

pub record Proposal (B : Type 0) : Type 0 where
  pub remaining_voting_duration : Option String
  pub remaining_deposit_duration : Option String
  pub deposit_total : B
  pub tally_result : Option (TallyResult B)
  pub reactions : List ReactionItem

module _ (s : Session) where
  open s.numbers use {BigNumber, of_string}

  -- the amount in the minimal denomination, shown in tokens
  abbrev pub shown_deposit : ProposalDeposit (List Coin) → ProposalDeposit (BigNumberCoin BigNumber)
  shown_deposit d = record {
    depositor = d.depositor;
    amount = record {
      denom = s.chain.currency.coin_denom;
      amount = to_token s (amount_or_zero s (find_minimal s d.amount));
    };
  }

  unfoldable pub deposits_panel :
      List String
      → Option (List (ProposalDeposit (List Coin)) × ℕ)
      → PaginatedProposalDeposits (BigNumberCoin BigNumber)
  unfolding push_deposits
  deposits_panel validators none = record { pinned_deposits = []; deposits = []; total_count = 0 }
  deposits_panel validators (some (nodes, total)) =
      let split = push_deposits validators ([], []) (map shown_deposit nodes) in
      record { pinned_deposits = split.0; deposits = split.1; total_count = total }

  abbrev pub shown_tally : TallyResult String → TallyResult BigNumber
  shown_tally t = record {
    yes = to_token s (of_string t.yes);
    no = to_token s (of_string t.no);
    no_with_veto = to_token s (of_string t.no_with_veto);
    abstain = to_token s (of_string t.abstain);
  }

  -- `format` is `formatDistance` in the user's language
  module _ (dates : DateFns) (format : dates.Time → dates.Time → String) (now : dates.Time) where
    -- the time that is left until `end`, if it is to come
    remaining : Option dates.Time → Option String
    remaining none = none
    remaining (some end) = if dates.is_after end now then some (format end now) else none

    unfoldable pub proposal_of : ProposalData dates.Time → Proposal BigNumber
    unfolding remaining reaction_items
    proposal_of proposal = record {
      remaining_voting_duration = elim proposal.voting_start_time [
        | none ↦ none
        | some start ↦ remaining proposal.voting_end_time
      ];
      remaining_deposit_duration = remaining proposal.deposit_end_time;
      deposit_total = to_token s (amount_or_zero s (find_minimal s proposal.deposit_total));
      tally_result = Option.map shown_tally proposal.tally_result;
      reactions = reaction_items proposal.reactions;
    }

    unfoldable pub proposal_state :
        RequestState (Option (ProposalData dates.Time)) → RequestState (Option (Proposal BigNumber))
    unfolding map_request_data proposal_of
    proposal_state state = map_request_data state (Option.map proposal_of)

-- What `useGovParamsQuery` sets, in order, for what `getAllParams` comes to.
unfoldable pub gov_params_states : {A : Type 0} → Result A → List (RequestState A)
gov_params_states (ok params) = loading ∷ loaded params ∷ []
gov_params_states (err (error message)) = loading ∷ failed (error message) ∷ []
gov_params_states (err other) = loading ∷ failed (error "Unknown error") ∷ []
