-- ===== src/Lists/Requests.antt =====
-- What the lists ask the server for.
use mathlib.Core.Path.{subst}
use likedao.Common.{
  ◌≡◌, refl, ap, find, or_else, All, Bool-cases, inl, inr, Bool, Option, none, some, List, [], ◌∷◌,
  ◌++◌, String, str_eq, ok, arith,
}
use likedao.Chain.{Wallet, connecting, idle, connected}
use likedao.Proposal.{
  Direction, asc, desc, Sort, sort_asc, sort_desc, ColumnOrder, ProposalVoteSortableColumn,
  voter_column, option_column, ProposalVoteSort, get_proposal_vote_sort_order_variable,
  ProposalDepositSortableColumn, depositor_column, amount_column, ProposalDepositSort,
  get_proposal_deposit_sort_order_variable,
}
use likedao.Lists.{
  ProposalTab, all, voting, deposit, passed, rejected, following, other_tab, tab_label, chosen,
  following_filter, account_address, ProposalFilter, AddressFilter, proposal_filter_variables,
  tab_items, selected_tab, proposals_request, ValidatorSortableColumn, name_column,
  voting_power_column, expected_returns_column, uptime_column, ValidatorSort,
  get_validator_sort_order_variable,
}

-- what the server understands by the enum
abbrev pub direction_of : Sort → Direction
direction_of sort_asc = asc
direction_of sort_desc = desc

-- a field of a sort variable, as an order
abbrev ordered : {C : Type 0} → C → Option Sort → List (ColumnOrder C)
ordered column none = []
ordered column (some sort) = record { id = column; direction = direction_of sort } ∷ []

-- the order where there is one, and no second
abbrev single : {A : Type 0} → List A → Option A
single [] = none
single (x ∷ []) = some x
single (x ∷ y ∷ xs) = none

-- the one column that a sort variable asks for, read back from its fields
abbrev pub vote_order : ProposalVoteSort → Option (ColumnOrder ProposalVoteSortableColumn)
vote_order v = single (ordered voter_column v.voter ++ ordered option_column v.option)

abbrev pub deposit_order : ProposalDepositSort → Option (ColumnOrder ProposalDepositSortableColumn)
deposit_order v = single (ordered depositor_column v.depositor ++ ordered amount_column v.amount)

abbrev pub validator_order : ValidatorSort → Option (ColumnOrder ValidatorSortableColumn)
validator_order v = single (
    ordered name_column v.name
    ++ ordered voting_power_column v.voting_power
    ++ ordered expected_returns_column v.expected_returns
    ++ ordered uptime_column v.uptime)

vote_order_lem :
    (o : Option (ColumnOrder ProposalVoteSortableColumn))
    → vote_order (get_proposal_vote_sort_order_variable o) ≡ o
unfolding get_proposal_vote_sort_order_variable
vote_order_lem o = ground arith

deposit_order_lem :
    (o : Option (ColumnOrder ProposalDepositSortableColumn))
    → deposit_order (get_proposal_deposit_sort_order_variable o) ≡ o
unfolding get_proposal_deposit_sort_order_variable
deposit_order_lem o = ground arith

validator_order_lem :
    (o : Option (ColumnOrder ValidatorSortableColumn))
    → validator_order (get_validator_sort_order_variable o) ≡ o
unfolding get_validator_sort_order_variable
validator_order_lem o = ground arith

-- The order that the user chose for a table of votes, deposits or validators can be read back from
-- the sort variable that is sent: the column, the direction that its `Sort` stands for, or that
-- there is none.
pub sort_order_lem :
    (votes : Option (ColumnOrder ProposalVoteSortableColumn))
    (deposits : Option (ColumnOrder ProposalDepositSortableColumn))
    (validators : Option (ColumnOrder ValidatorSortableColumn))
    → (vote_order (get_proposal_vote_sort_order_variable votes) ≡ votes)
      × (deposit_order (get_proposal_deposit_sort_order_variable deposits) ≡ deposits)
      × (validator_order (get_validator_sort_order_variable validators) ≡ validators)
sort_order_lem votes deposits validators =
    (vote_order_lem votes, deposit_order_lem deposits, validator_order_lem validators)

-- the filter names no address but that of the connected wallet
abbrev pub IsOwn : Wallet → ProposalFilter → Type 0
IsOwn w f = (a : AddressFilter) → f.address ≡ some a → w ≡ connected a.address

-- a tab that the screen lists
abbrev IsKnown : ProposalTab → Type 0
IsKnown (other_tab text) = ⊥
IsKnown all = Unit
IsKnown voting = Unit
IsKnown deposit = Unit
IsKnown passed = Unit
IsKnown rejected = Unit
IsKnown following = Unit

find-All :
    (p : ProposalTab → Bool) (items : List ProposalTab) (x : ProposalTab)
    → All IsKnown items
    → find p items ≡ some x
    → IsKnown x
find-All p [] x h e = absurd cc
find-All p (y ∷ ys) x h e = elim (Bool-cases (p y)) [
  | inl holds ↦ let same : y ≡ x = ground (arith, holds, e) in subst IsKnown same h.0
  | inr fails ↦ find-All p ys x h.1 (ground (arith, fails, e))
]

or_else-IsKnown :
    (o : Option ProposalTab)
    → ((x : ProposalTab) → o ≡ some x → IsKnown x)
    → IsKnown (or_else o all)
or_else-IsKnown none h = tt
or_else-IsKnown (some x) h = h x refl

chosen-IsKnown :
    (items : List ProposalTab) (text : Option String)
    → All IsKnown items
    → IsKnown (chosen items text)
chosen-IsKnown items none h = tt
chosen-IsKnown items (some text) h =
    let p = λ (item : ProposalTab). str_eq (tab_label item) text in
    or_else-IsKnown (find p items) (λ x found. find-All p items x h found)

tab_items-IsKnown : (w : Wallet) → All IsKnown (tab_items w)
unfolding tab_items
tab_items-IsKnown connecting = (tt, (tt, (tt, (tt, (tt, tt)))))
tab_items-IsKnown idle = (tt, (tt, (tt, (tt, (tt, tt)))))
tab_items-IsKnown (connected address) = (tt, (tt, (tt, (tt, (tt, (tt, tt))))))

following_filter-IsOwn : (w : Wallet) → IsOwn w (following_filter (account_address w))
following_filter-IsOwn connecting a e = absurd cc
following_filter-IsOwn idle a e = absurd cc
following_filter-IsOwn (connected address) a e = elim (Bool-cases (str_eq address "")) [
  | inl empty ↦ absurd (ground (arith, empty, e))
  | inr there ↦ ap connected (ground (arith, there, e))
]

answered :
    (tab : ProposalTab) (w : Wallet)
    → IsKnown tab
    → (f : ProposalFilter) × (proposal_filter_variables tab (account_address w) ≡ ok f) × IsOwn w f
unfolding proposal_filter_variables
answered (other_tab text) w h = absurd h
answered all w h = (_, refl, λ a e. absurd cc)
answered voting w h = (_, refl, λ a e. absurd cc)
answered deposit w h = (_, refl, λ a e. absurd cc)
answered passed w h = (_, refl, λ a e. absurd cc)
answered rejected w h = (_, refl, λ a e. absurd cc)
answered following w h = (following_filter (account_address w), refl, following_filter-IsOwn w)

-- Whatever tab the page's address names, the list of proposals asks the server for something; it
-- asks for the proposals of an address only if that is the connected wallet's.
pub proposals_request_lem :
    (w : Wallet) (text : Option String)
    → (f : ProposalFilter) × (proposals_request w text ≡ ok f) × IsOwn w f
unfolding proposals_request selected_tab
proposals_request_lem w text =
    answered (chosen (tab_items w) text) w (chosen-IsKnown (tab_items w) text (tab_items-IsKnown w))
