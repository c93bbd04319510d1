-- ===== src/Examples/Requests.antt =====
-- The requests of the lists.
use likedao.Common.{◌≡◌, none, some, ok}
use likedao.Chain.{connected}
use likedao.Proposal.{
  asc, desc, voter_column, get_proposal_vote_sort_order_variable,
  get_proposal_deposit_sort_order_variable,
}
use likedao.Lists.{
  ProposalFilter, proposals_request, uptime_column, get_validator_sort_order_variable,
}
use likedao.Lists.Requests.{
  vote_order, deposit_order, validator_order, sort_order_lem, IsOwn, proposals_request_lem,
}

sort_order_lem_example :
    (vote_order (
        get_proposal_vote_sort_order_variable
          (some (record { id = voter_column; direction = asc })))
      ≡ some (record { id = voter_column; direction = asc }))
    × (deposit_order (get_proposal_deposit_sort_order_variable none) ≡ none)
    × (validator_order (
          get_validator_sort_order_variable
            (some (record { id = uptime_column; direction = desc })))
        ≡ some (record { id = uptime_column; direction = desc }))
sort_order_lem_example =
    sort_order_lem (some (record { id = voter_column; direction = asc })) none
      (some (record { id = uptime_column; direction = desc }))

proposals_request_lem_example :
    (f : ProposalFilter) × (proposals_request (connected "like1") (some "following") ≡ ok f)
    × IsOwn (connected "like1") f
proposals_request_lem_example = proposals_request_lem (connected "like1") (some "following")
