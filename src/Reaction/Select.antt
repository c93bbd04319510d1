-- ===== src/Reaction/Select.antt =====
-- A click on a reaction, from the toggle to the cache.
use mathlib.Core.Option
use likedao.Common.{
  ℕ, ◌≡◌, refl, ap, ◌∙◌, ◌≢◌, ◌↔◌, true, false, Option, none, some, String, str_eq_iff, arith,
  if◌then◌else◌, Bool-cases, inl, inr,
}
use likedao.Reaction.{
  ReactionType, reaction_label, get_reaction_type, is_same, reactions_field, ProposalEntry,
  ApolloCache, cache_id, MutationOptions, select_reaction, handle_reaction_select, FieldModifiers,
  apply_modifiers, likecoin, like, dislike, confused, thinking, bored, whatever,
}
use likedao.Reaction.Counts.{Represents}
use likedao.Reaction.Updater.{reactions_field-Represents}

-- the user's reaction after a click: off where it was on, and otherwise the one clicked
abbrev pub toggled : Option String → ReactionType → Option String
toggled my type = if is_same my (reaction_label type) then none else some (reaction_label type)

-- the cache after the optimistic response of the call
abbrev pub after : {C : Type 0} → MutationOptions C → C → C
after options cache = options.update cache (some options.optimistic_response)

toggled_differs :
    (my : Option String) (type : ReactionType) (r : String)
    → is_same (toggled my type) r ≡ true
    → is_same my r ≡ false
toggled_differs none type r h = refl
toggled_differs (some m) type r h =
    ground (
      arith,
      str_eq_iff m (reaction_label type),
      str_eq_iff (reaction_label type) r,
      str_eq_iff m r,
    )

module _ (apollo : ApolloCache) (uuid target_id : String) (my : Option String) (type : ReactionType)
    (cache : apollo.Cache) where
  -- the one call to `cache.modify` that the click makes
  after-select_reaction :
      after (select_reaction apollo uuid target_id my type) cache
      ≡ apollo.modify
          (cache_id target_id)
          (record { my_reaction = toggled my type; reactions = reactions_field (toggled my type) })
          cache
  unfolding select_reaction
  after-select_reaction = elim (Bool-cases (is_same my (reaction_label type))) [
    | inl same ↦ rw (same, select_reaction, handle_reaction_select)
    | inr differ ↦ rw (differ, select_reaction, handle_reaction_select)
  ]

-- A click on a reaction of a cached proposal: if the counts shown are the votes of the other users
-- and the user's own, they still are afterwards, with the user's reaction toggled; and no other
-- entry of the cache changes.
pub select_reaction-Represents :
    (apollo : ApolloCache) (uuid target_id : String) (type : ReactionType) (cache : apollo.Cache)
    (others : String → ℕ) (e : ProposalEntry)
    → apollo.read cache (cache_id target_id) ≡ some e
    → Represents others e.my_reaction e.reactions
    → let cache' = after (select_reaction apollo uuid target_id e.my_reaction type) cache in
      ((e' : ProposalEntry) × (apollo.read cache' (cache_id target_id) ≡ some e')
        × (e'.my_reaction ≡ toggled e.my_reaction type)
        × Represents others e'.my_reaction e'.reactions)
      × ((j : String) → cache_id target_id ≢ j → apollo.read cache' j ≡ apollo.read cache j)
select_reaction-Represents apollo uuid target_id type cache others e cached h =
    let my' = toggled e.my_reaction type in
    let f : FieldModifiers = record { my_reaction = my'; reactions = reactions_field my' } in
    rw (after-select_reaction apollo uuid target_id e.my_reaction type cache) (
      (
        apply_modifiers f e,
        apollo.read-modify_self (cache_id target_id) f cache
            ∙ ap (Option.map (apply_modifiers f)) cached,
        refl,
        reactions_field-Represents others my' e.my_reaction e.reactions
            (toggled_differs e.my_reaction type) h,
      ),
      λ j ne. apollo.read-modify_ne (cache_id target_id) j f cache ne,
    )

pub get_reaction_type-reaction_label :
    (t : ReactionType) → get_reaction_type (reaction_label t) ≡ some t
unfolding get_reaction_type
get_reaction_type-reaction_label likecoin = refl
get_reaction_type-reaction_label like = refl
get_reaction_type-reaction_label dislike = refl
get_reaction_type-reaction_label confused = refl
get_reaction_type-reaction_label thinking = refl
get_reaction_type-reaction_label bored = refl
get_reaction_type-reaction_label whatever = refl

reaction_label-get_reaction_type :
    (s : String) (t : ReactionType) → get_reaction_type s ≡ some t → s ≡ reaction_label t
unfolding get_reaction_type
reaction_label-get_reaction_type s t h = ground (
  arith,
  str_eq_iff s ":likecoin:",
  str_eq_iff s ":like:",
  str_eq_iff s ":dislike:",
  str_eq_iff s ":confused:",
  str_eq_iff s ":thinking:",
  str_eq_iff s ":bored:",
  str_eq_iff s ":whatever:",
)

-- A stored reaction is read as a reaction type exactly when it is that type's label.
pub get_reaction_type_iff :
    (s : String) (t : ReactionType) → (get_reaction_type s ≡ some t) ↔ (s ≡ reaction_label t)
get_reaction_type_iff s t =
    (reaction_label-get_reaction_type s t, λ e. rw e (get_reaction_type-reaction_label t))
