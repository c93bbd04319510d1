-- ===== src/Proposal.antt =====
-- react-app/src/components/ProposalDetailScreen/ProposalDetailScreenAPI.ts: the votes and deposits
-- of a proposal, split by the validators that the user delegates to, and the proposal itself.
pub mod Detail
pub mod Panels
pub mod Items
pub mod Actions
pub mod Buttons
use likedao.Common.{
  ℕ, Bool, true, false, Option, none, some, List, [], ◌∷◌, ◌++◌, map, String, str_append, str_eq,
  any, Thrown, error, other, Result, ok, err, if◌then◌else◌, or_else,
}
use likedao.Message.{Coin}
use likedao.Amount.{BigNumberCoin}
use likedao.Chain.{
  Delegation, DelegationResponse, Page, Session, Wallet, connecting, idle, connected,
}
use likedao.Api.Bank.{to_token, amount_or_zero, find_minimal}
use likedao.Api.Gov.{GovParams, get_all_params}
use likedao.Reaction.{ReactionType, ReactionCount, get_reaction_type}
use likedao.Request.{RequestState, loading, loaded, failed, map_request_data}
use likedao.Common.Int.{ℤ}

-- the union of the types of `voter` and `depositor`
pub data Voter : Type 0 where
  string_object : String → Voter
  validator : Option String → Voter
  unknown_voter : Voter

unfoldable pub get_voter_or_depositor_address : Voter → Option String
get_voter_or_depositor_address (string_object value) = some value
get_voter_or_depositor_address (validator operator_address) = operator_address
get_voter_or_depositor_address unknown_voter = none

pub data Direction : Type 0 where
  asc desc : Direction

pub record ColumnOrder (Column : Type 0) : Type 0 where
  pub id : Column
  pub direction : Direction

pub data ProposalVoteSortableColumn : Type 0 where
  voter_column option_column : ProposalVoteSortableColumn

-- the enum of the GraphQL schema
pub data Sort : Type 0 where
  sort_asc sort_desc : Sort

-- `order.direction === "asc" ? Sort.Asc : Sort.Desc`
abbrev pub sort_of : Direction → Sort
sort_of asc = sort_asc
sort_of desc = sort_desc

pub record ProposalVoteSort : Type 0 where
  pub voter : Option Sort
  pub option : Option Sort

unfoldable pub get_proposal_vote_sort_order_variable :
    Option (ColumnOrder ProposalVoteSortableColumn) → ProposalVoteSort
get_proposal_vote_sort_order_variable none = record { voter = none; option = none }
get_proposal_vote_sort_order_variable (some order) = elim order.id [
  | voter_column ↦ record { voter = some (sort_of order.direction); option = none }
  | option_column ↦ record { voter = none; option = some (sort_of order.direction) }
]

pub data ProposalDepositSortableColumn : Type 0 where
  depositor_column amount_column : ProposalDepositSortableColumn

pub record ProposalDepositSort : Type 0 where
  pub depositor : Option Sort
  pub amount : Option Sort

unfoldable pub get_proposal_deposit_sort_order_variable :
    Option (ColumnOrder ProposalDepositSortableColumn) → ProposalDepositSort
get_proposal_deposit_sort_order_variable none = record { depositor = none; amount = none }
get_proposal_deposit_sort_order_variable (some order) = elim order.id [
  | depositor_column ↦ record { depositor = some (sort_of order.direction); amount = none }
  | amount_column ↦ record { depositor = none; amount = some (sort_of order.direction) }
]

-- `filter((r) => r.delegation != null)` and `map((r) => r.delegation!.validatorAddress)`
delegated_to : List DelegationResponse → List String
delegated_to [] = []
delegated_to (r ∷ rs) = elim r.delegation [
  | none ↦ delegated_to rs
  | some d ↦ d.validator_address ∷ delegated_to rs
]

-- the `input` variables of either panel's query
pub record PanelInput (Order : Type 0) : Type 0 where
  pub first : ℕ
  pub after : ℕ
  pub pinned_validators : List String
  pub order : Order

-- what a call of `fetch` asks for, and the state `delegatedValidators` after it
pub record PanelFetch (Order : Type 0) : Type 0 where
  pub delegated_validators : List String
  pub input : PanelInput Order

module _ (s : Session) where
  -- the validators found, or none where the request failed, which is logged
  validators_found : Result (Page DelegationResponse) → Option (List String)
  unfolding delegated_to
  validators_found (ok page) = some (delegated_to page.responses)
  validators_found (err e) = none

  validators_of : Wallet → Option (List String)
  unfolding validators_found
  validators_of connecting = none
  validators_of idle = none
  validators_of (connected address) =
      validators_found (s.query.staking_delegator_delegations address none)

  -- `callFetch` of either panel; the state changes only where the validators were found
  pub panel_fetch : {Order : Type 0} → List String → ℕ → ℕ → Order → PanelFetch Order
  unfolding validators_of
  panel_fetch delegated_validators first after order =
      let found = validators_of s.wallet in
      record {
        delegated_validators = or_else found delegated_validators;
        input = record {
          first = first;
          after = after;
          pinned_validators = or_else found [];
          order = order;
        };
      }

  unfoldable pub votes_fetch :
      List String
      → ℕ
      → ℕ
      → Option (ColumnOrder ProposalVoteSortableColumn)
      → PanelFetch ProposalVoteSort
  unfolding panel_fetch get_proposal_vote_sort_order_variable
  votes_fetch delegated_validators first after order =
      panel_fetch delegated_validators first after (get_proposal_vote_sort_order_variable order)

  unfoldable pub deposits_fetch :
      List String
      → ℕ
      → ℕ
      → Option (ColumnOrder ProposalDepositSortableColumn)
      → PanelFetch ProposalDepositSort
  unfolding panel_fetch get_proposal_deposit_sort_order_variable
  deposits_fetch delegated_validators first after order =
      panel_fetch delegated_validators first after (get_proposal_deposit_sort_order_variable order)

-- `delegatedValidators.includes(address)`
abbrev pub is_delegated : List String → String → Bool
is_delegated validators address = any (λ v. str_eq v address) validators

pub record ProposalVote : Type 0 where
  pub voter : Voter
  pub option : String

-- one step of the `reduce` over the votes: a vote without an address, or with an empty one, is left out
unfoldable pub push_vote :
    List String
    → List ProposalVote × List ProposalVote
    → ProposalVote
    → List ProposalVote × List ProposalVote
unfolding get_voter_or_depositor_address
push_vote validators acc vote = elim (get_voter_or_depositor_address vote.voter) [
  | none ↦ acc
  | some address ↦
      if str_eq address ""
      then acc
      else if is_delegated validators address
      then (acc.0 ++ vote ∷ [], acc.1)
      else (acc.0, acc.1 ++ vote ∷ [])
]

unfoldable pub push_votes :
    List String
    → List ProposalVote × List ProposalVote
    → List ProposalVote
    → List ProposalVote × List ProposalVote
push_votes validators acc [] = acc
push_votes validators acc (vote ∷ votes) =
    push_votes validators (push_vote validators acc vote) votes

pub record PaginatedProposalVotes : Type 0 where
  pub pinned_votes : List ProposalVote
  pub votes : List ProposalVote
  pub total_count : ℕ

-- the answer's votes and their total, where the proposal is found
unfoldable pub votes_panel : List String → Option (List ProposalVote × ℕ) → PaginatedProposalVotes
unfolding push_votes
votes_panel validators none = record { pinned_votes = []; votes = []; total_count = 0 }
votes_panel validators (some (all_votes, total)) =
    let split = push_votes validators ([], []) all_votes in
    record { pinned_votes = split.0; votes = split.1; total_count = total }

-- a deposit, with the coins of the answer or the amount that is shown
pub record ProposalDeposit (Amount : Type 0) : Type 0 where
  pub depositor : Option Voter
  pub amount : Amount

-- `address && delegatedValidators.includes(address)`
abbrev pub is_pinned_depositor : List String → Option Voter → Bool
is_pinned_depositor validators none = false
is_pinned_depositor validators (some voter) = elim (get_voter_or_depositor_address voter) [
  | none ↦ false
  | some address ↦ if str_eq address "" then false else is_delegated validators address
]
