-- ===== src/Examples/Reactions.antt =====
-- The reactions on a proposal with two reactions.
use mathlib.Core.Option
use likedao.Common.{
  ℕ, ◌+◌, ◌≡◌, refl, sym, ◌≢◌, Bool-cases, inl, inr, Option, none, some, List, [], ◌∷◌, map, String,
  str_eq, str_eq_iff, arith, if◌then◌else◌,
}
use likedao.Common.Int.{pos, ◌+ℤ◌, ◌-ℤ◌}
use likedao.Reaction.{
  ReactionCount, ProposalEntry, ApolloCache, apply_modifiers, cache_id, select_reaction,
  reactions_field, bored,
}
use likedao.Reaction.Counts.{Represents, count_of, own_vote}
use likedao.Reaction.Updater.{reactions_field-Represents}
use likedao.Reaction.Select.{toggled, after, select_reaction-Represents}

abbrev sample : List ReactionCount
sample =
    record { reaction = ":like:"; count = pos 1 }
    ∷ record { reaction = ":bored:"; count = pos 4 }
    ∷ []

move_reaction :
    reactions_field (some ":thinking:") (some ":like:") sample
    ≡ record { reaction = ":bored:"; count = pos 4 }
      ∷ record { reaction = ":thinking:"; count = pos 1 }
      ∷ []
unfolding reactions_field ◌+ℤ◌ ◌-ℤ◌
move_reaction = refl

-- the votes of the others: four are bored
abbrev others : String → ℕ
others r = if str_eq r ":bored:" then 4 else 0

sample_shows : (r : String) → count_of r sample ≡ pos (others r + own_vote (some ":like:") r)
sample_shows r = elim (Bool-cases (str_eq r ":like:")) [
  | inl e ↦ rw ((str_eq_iff r ":like:").0 e)
  | inr n ↦ ground (arith, str_eq_iff r ":like:", str_eq_iff ":like:" r)
]

sample-Represents : Represents others (some ":like:") sample
sample-Represents = record {
  nodup = (refl, (refl, tt));
  nonzero = (λ e. absurd cc, (λ e. absurd cc, tt));
  shows = sample_shows;
}

-- a cache that is a function
abbrev cache_lib : ApolloCache
cache_lib = record {
  Cache = String → Option ProposalEntry;
  read = λ c id. c id;
  modify = λ id f c j. if str_eq id j then Option.map (apply_modifiers f) (c j) else c j;
  read-modify_self = λ id f c. ground (arith, str_eq_iff id id);
  read-modify_ne = λ id j f c ne. ground (arith, str_eq_iff id j);
}

abbrev entry : ProposalEntry
entry = record { my_reaction = some ":like:"; reactions = sample }

abbrev cached : String → Option ProposalEntry
cached j = if str_eq j (cache_id "42") then some entry else none

reactions_field-Represents_example :
    Represents others (some ":bored:") (reactions_field (some ":bored:") (some ":like:") sample)
reactions_field-Represents_example =
    reactions_field-Represents others (some ":bored:") (some ":like:") sample
      (λ r e. rw (sym ((str_eq_iff ":bored:" r).0 e))) sample-Represents

select_reaction-Represents_example :
    let cache' = after (select_reaction cache_lib "uuid" "42" (some ":like:") bored) cached in
    ((e' : ProposalEntry) × (cache' (cache_id "42") ≡ some e')
      × (e'.my_reaction ≡ toggled (some ":like:") bored)
      × Represents others e'.my_reaction e'.reactions)
    × ((j : String) → cache_id "42" ≢ j → cache' j ≡ cached j)
select_reaction-Represents_example =
    select_reaction-Represents cache_lib "uuid" "42" bored cached others entry refl
      sample-Represents
