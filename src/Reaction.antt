-- ===== src/Reaction.antt =====
-- Reactions to a proposal: the cache updater of react-app/src/api/reactionAPI.ts, the reaction
-- types of components/reactions/ReactionModel.tsx, and the toggle of
-- components/ProposalDetailScreen/ProposalHeader.tsx.
pub mod Counts
pub mod Updater
pub mod Select
use likedao.Common.{
  ◌≡◌, ◌≢◌, Bool, true, false, not, Option, none, some, List, [], ◌∷◌, ◌++◌, map, String,
  str_append, str_eq, find, filter, if◌then◌else◌,
}
use likedao.Common.Int.{ℤ, pos, ◌+ℤ◌, ◌-ℤ◌, eqb_ℤ}
use mathlib.Core.Option

pub data ReactionType : Type 0 where
  likecoin like dislike confused thinking bored whatever : ReactionType

-- the string that the enum gives to each member
abbrev pub reaction_label : ReactionType → String
reaction_label likecoin = ":likecoin:"
reaction_label like = ":like:"
reaction_label dislike = ":dislike:"
reaction_label confused = ":confused:"
reaction_label thinking = ":thinking:"
reaction_label bored = ":bored:"
reaction_label whatever = ":whatever:"

unfoldable pub get_reaction_type : String → Option ReactionType
get_reaction_type type =
    if str_eq type ":likecoin:"
    then some likecoin
    else if str_eq type ":like:"
    then some like
    else if str_eq type ":dislike:"
    then some dislike
    else if str_eq type ":confused:"
    then some confused
    else if str_eq type ":thinking:"
    then some thinking
    else if str_eq type ":bored:"
    then some bored
    else if str_eq type ":whatever:"
    then some whatever
    else none

pub record ReactionCount : Type 0 where
  pub reaction : String
  pub count : ℤ

-- `o === s` for a string `s`: null equals no string
abbrev pub is_same : Option String → String → Bool
is_same none s = false
is_same (some r) s = str_eq r s

-- the list after `mutableReactionCounts.push`, which runs only for a reaction that is not listed
pub add_new : Option String → List ReactionCount → List ReactionCount
add_new none counts = counts
add_new (some reaction) counts = elim (find (λ c. str_eq reaction c.reaction) counts) [
  | none ↦ counts ++ record { reaction = reaction; count = pos 0 } ∷ []
  | some _ ↦ counts
]

-- the callback of `map`
pub adjust : Option String → Option String → ReactionCount → ReactionCount
adjust reaction my_reaction r =
    if is_same reaction r.reaction
    then record r { count = r.count +ℤ pos 1 }
    else if is_same my_reaction r.reaction
    then record r { count = r.count -ℤ pos 1 }
    else r

-- the callback of `filter`
abbrev pub is_nonzero : ReactionCount → Bool
is_nonzero r = not (eqb_ℤ r.count (pos 0))

-- the `reactions` modifier
unfoldable pub reactions_field :
    Option String → Option String → List ReactionCount → List ReactionCount
unfolding add_new adjust
reactions_field reaction my_reaction counts =
    filter is_nonzero (map (adjust reaction my_reaction) (add_new reaction counts))

-- what the cache holds of a proposal
pub record ProposalEntry : Type 0 where
  pub my_reaction : Option String
  pub reactions : List ReactionCount

-- the `fields` argument of `cache.modify`: the new value of `myReaction`, and the modifier of
-- `reactions`, which reads the stored `myReaction`
pub record FieldModifiers : Type 0 where
  pub my_reaction : Option String
  pub reactions : Option String → List ReactionCount → List ReactionCount

abbrev pub apply_modifiers : FieldModifiers → ProposalEntry → ProposalEntry
apply_modifiers f e = record {
  my_reaction = f.my_reaction;
  reactions = f.reactions e.my_reaction e.reactions;
}

-- Apollo's normalised cache. `modify` applies every modifier to the stored fields of one entry,
-- and does nothing where there is no such entry.
pub record ApolloCache : Type 1 where
  pub Cache : Type 0
  pub read : Cache → String → Option ProposalEntry
  pub modify : String → FieldModifiers → Cache → Cache
  pub read-modify_self :
      (id : String) (f : FieldModifiers) (c : Cache)
      → read (modify id f c) id ≡ Option.map (apply_modifiers f) (read c id)
  pub read-modify_ne :
      (id j : String) (f : FieldModifiers) (c : Cache) → id ≢ j → read (modify id f c) j ≡ read c j

-- the data of either mutation
pub data MutationData : Type 0 where
  set_data : (id reaction address : String) → MutationData
  unset_data : (id : String) → MutationData

-- `_createReactionOptimisticResponse`; `id` is the fresh uuid
pub create_reaction_optimistic_response : String → Option ReactionType → MutationData
create_reaction_optimistic_response id none = unset_data id
create_reaction_optimistic_response id (some type) = set_data id (reaction_label type) ""

-- `isSetReactionMutationData(data) ? data.setReaction.reaction : null`
abbrev pub reaction_of_data : Option MutationData → Option String
reaction_of_data (some (set_data id reaction address)) = some reaction
reaction_of_data _ = none

abbrev pub cache_id : String → String
cache_id target_id = str_append "Proposal:{\"id\":\"" (str_append target_id "\"}")

-- the updater for the target type Proposal, which is the only one
module _ (apollo : ApolloCache) where
  open apollo use {Cache, modify}

  pub reaction_mutation_updater : String → Cache → Option MutationData → Cache
  reaction_mutation_updater target_id cache result =
      let reaction = reaction_of_data result in
      modify (cache_id target_id)
        (record { my_reaction = reaction; reactions = reactions_field reaction }) cache

-- the two calls that `handleReactionSelect` chooses between
pub data ReactionCall : Type 0 where
  call_set : ReactionType → ReactionCall
  call_unset : ReactionCall

unfoldable pub handle_reaction_select : Option String → ReactionType → ReactionCall
handle_reaction_select my_reaction type =
    if is_same my_reaction (reaction_label type) then call_unset else call_set type

-- what `setReaction` and `unsetReaction` hand to the mutation function
pub record MutationOptions (Cache : Type 0) : Type 0 where
  pub target_id : String
  pub reaction : Option ReactionType
  pub optimistic_response : MutationData
  pub update : Cache → Option MutationData → Cache

module _ (apollo : ApolloCache) where
  pub set_reaction : String → String → ReactionType → MutationOptions apollo.Cache
  unfolding create_reaction_optimistic_response reaction_mutation_updater
  set_reaction uuid target_id type = record {
    target_id = target_id;
    reaction = some type;
    optimistic_response = create_reaction_optimistic_response uuid (some type);
    update = reaction_mutation_updater apollo target_id;
  }

  pub unset_reaction : String → String → MutationOptions apollo.Cache
  unfolding create_reaction_optimistic_response reaction_mutation_updater
  unset_reaction uuid target_id = record {
    target_id = target_id;
    reaction = none;
    optimistic_response = create_reaction_optimistic_response uuid none;
    update = reaction_mutation_updater apollo target_id;
  }

  -- the call that a click on a reaction makes
  pub select_reaction :
      String → String → Option String → ReactionType → MutationOptions apollo.Cache
  unfolding handle_reaction_select set_reaction unset_reaction
  select_reaction uuid target_id my_reaction type = elim (handle_reaction_select my_reaction type) [
    | call_set t ↦ set_reaction uuid target_id t
    | call_unset ↦ unset_reaction uuid target_id
  ]
