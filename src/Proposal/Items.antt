-- ===== src/Proposal/Items.antt =====
-- The reactions that a proposal shows.
use likedao.Reaction.{reaction_label, ReactionCount}
use likedao.Proposal.Detail.{ReactionItem}

-- what the server stores of an item
abbrev pub stored : ReactionItem → ReactionCount
stored item = record { reaction = reaction_label item.type; count = item.count }
