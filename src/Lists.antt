-- ===== src/Lists.antt =====
-- The requests of the lists: react-app/src/components/ProposalScreen (ProposalScreen.tsx and
-- ProposalScreenAPI.ts), ValidatorScreen/ValidatorScreenAPI.ts and
-- ProposalHistory/ProposalHistoryAPI.ts.
pub mod Requests
use likedao.Common.{
  ℕ, Bool, true, false, Option, none, some, List, [], ◌∷◌, ◌++◌, String, str_eq, find, or_else,
  Result, ok, err, error,
}
use likedao.Chain.{Session, Wallet, connecting, idle, connected}
use likedao.Reaction.{ReactionCount}
use likedao.Request.{RequestState, map_request_data}
use likedao.SideBar.{CommunityStatusData, CommunityStatus, community_status}
use likedao.Proposal.{Sort, sort_of, Direction, ColumnOrder}
use likedao.Proposal.Detail.{ReactionItem, reaction_items}

-- `FilterKey` of the proposals; `other_tab` is any other text, which the type rules out
pub data ProposalTab : Type 0 where
  all voting deposit passed rejected following : ProposalTab
  other_tab : String → ProposalTab

abbrev pub tab_label : ProposalTab → String
tab_label all = "all"
tab_label voting = "voting"
tab_label deposit = "deposit"
tab_label passed = "passed"
tab_label rejected = "rejected"
tab_label following = "following"
tab_label (other_tab text) = text

-- `ProposalStatusFilter`
pub data ProposalStatusFilter : Type 0 where
  status_voting status_deposit status_passed status_rejected : ProposalStatusFilter

pub record AddressFilter : Type 0 where
  pub address : String
  pub is_voter : Bool
  pub is_depositor : Bool
  pub is_submitter : Bool

pub record ProposalFilter : Type 0 where
  pub status : Option ProposalStatusFilter
  pub address : Option AddressFilter

abbrev pub status_filter : Option ProposalStatusFilter → ProposalFilter
status_filter status = record { status = status; address = none }

-- `address ? { … } : undefined`
abbrev pub following_filter : Option String → ProposalFilter
following_filter none = status_filter none
following_filter (some address) = elim (str_eq address "") [
  | true ↦ status_filter none
  | false ↦ record {
    status = none;
    address =
        some
          (record { address = address; is_voter = true; is_depositor = true; is_submitter = true });
  }
]

unfoldable pub proposal_filter_variables : ProposalTab → Option String → Result ProposalFilter
proposal_filter_variables following address = ok (following_filter address)
proposal_filter_variables all address = ok (status_filter none)
proposal_filter_variables voting address = ok (status_filter (some status_voting))
proposal_filter_variables deposit address = ok (status_filter (some status_deposit))
proposal_filter_variables passed address = ok (status_filter (some status_passed))
proposal_filter_variables rejected address = ok (status_filter (some status_rejected))
proposal_filter_variables (other_tab text) address = err (error "Unknown filter state")

-- `defaultTabItems`, and `tabItems`
abbrev pub default_tab_items : List ProposalTab
default_tab_items = all ∷ voting ∷ deposit ∷ passed ∷ rejected ∷ []

unfoldable pub tab_items : Wallet → List ProposalTab
tab_items connecting = default_tab_items
tab_items idle = default_tab_items
tab_items (connected address) = default_tab_items ++ following ∷ []

-- `tabItems.find((item) => item.value === searchParams.get("tab"))`, and the default item
abbrev pub chosen : List ProposalTab → Option String → ProposalTab
chosen items none = all
chosen items (some text) = or_else (find (λ item. str_eq (tab_label item) text) items) all

unfoldable pub selected_tab : Wallet → Option String → ProposalTab
unfolding tab_items
selected_tab wallet text = chosen (tab_items wallet) text

-- `address` of `callFetch`
abbrev pub account_address : Wallet → Option String
account_address connecting = none
account_address idle = none
account_address (connected address) = some address

-- the filter that the screen asks for, from the page's address and the wallet
unfoldable pub proposals_request : Wallet → Option String → Result ProposalFilter
unfolding proposal_filter_variables selected_tab
proposals_request wallet text =
    proposal_filter_variables (selected_tab wallet text) (account_address wallet)

pub data ValidatorSortableColumn : Type 0 where
  name_column voting_power_column expected_returns_column uptime_column : ValidatorSortableColumn

pub record ValidatorSort : Type 0 where
  pub name : Option Sort
  pub voting_power : Option Sort
  pub expected_returns : Option Sort
  pub uptime : Option Sort

abbrev pub no_sort : ValidatorSort
no_sort = record { name = none; voting_power = none; expected_returns = none; uptime = none }

unfoldable pub get_validator_sort_order_variable :
    Option (ColumnOrder ValidatorSortableColumn) → ValidatorSort
get_validator_sort_order_variable none = no_sort
get_validator_sort_order_variable (some order) = elim order.id [
  | name_column ↦ record no_sort { name = some (sort_of order.direction) }
  | voting_power_column ↦ record no_sort { voting_power = some (sort_of order.direction) }
  | expected_returns_column ↦ record no_sort { expected_returns = some (sort_of order.direction) }
  | uptime_column ↦ record no_sort { uptime = some (sort_of order.direction) }
]

pub data ValidatorTab : Type 0 where
  all_validators active inactive : ValidatorTab

pub data ValidatorStatusFilter : Type 0 where
  only_active only_inactive : ValidatorStatusFilter

unfoldable pub get_validator_filter_variables : ValidatorTab → Option ValidatorStatusFilter
get_validator_filter_variables all_validators = none
get_validator_filter_variables active = some only_active
get_validator_filter_variables inactive = some only_inactive

-- `ProposalHistoryFilterKey`
pub data HistoryTab : Type 0 where
  voted submitted deposited : HistoryTab

unfoldable pub history_filter_variables : HistoryTab → String → AddressFilter
history_filter_variables tab address = record {
  address = address;
  is_voter = elim tab [ voted ↦ true | submitted ↦ false | deposited ↦ false ];
  is_depositor = elim tab [ voted ↦ false | submitted ↦ false | deposited ↦ true ];
  is_submitter = elim tab [ voted ↦ false | submitted ↦ true | deposited ↦ false ];
}

-- a proposal of a list: what is passed on unchanged, and its reactions
pub record ListedProposal (T R : Type 0) : Type 0 where
  pub texts : T
  pub reactions : List R

module _ {T : Type 0} where
  unfoldable pub listed :
      List (ListedProposal T ReactionCount) → List (ListedProposal T ReactionItem)
  unfolding reaction_items
  listed [] = []
  listed (p ∷ ps) = record { texts = p.texts; reactions = reaction_items p.reactions } ∷ listed ps

  -- the mapping of the answer, with the total count
  unfoldable pub proposals_state :
      RequestState (List (ListedProposal T ReactionCount) × ℕ)
      → RequestState (List (ListedProposal T ReactionItem) × ℕ)
  unfolding map_request_data listed
  proposals_state state = map_request_data state (λ r. (listed r.0, r.1))
