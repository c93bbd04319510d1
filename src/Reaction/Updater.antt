-- ===== src/Reaction/Updater.antt =====
-- The reactions that the updater adds, and the whole updater on the counts.
use likedao.Common.{
  ◌∙◌, ap, ℕ, ◌+◌, ◌≡◌, refl, ◌⊎◌, Bool, true, false, ◌||◌, Option, none, some, List, [], ◌∷◌, ◌++◌,
  map, String, str_eq, str_eq_iff, find, arith, if◌then◌else◌, Option-cases, inl, inr,
}
use likedao.Common.Int.{ℤ, pos, ◌+ℤ◌, ◌-ℤ◌}
use likedao.Reaction.{ReactionCount, is_same, add_new, adjust, reactions_field}
use likedao.Reaction.Counts.{
  count_of, is_listed, IsNodup, Represents, IsNodup-map, moved, count_of-map, count_of_unlisted,
  IsNodup-filter, AllNonzero-filter, count_of-filter,
}

module _ (r reaction : String) where
  -- appending an entry with the count 0 for a reaction that is not listed
  count_of-append_zero :
      (cs : List ReactionCount)
      → count_of r (cs ++ record { reaction = reaction; count = pos 0 } ∷ []) ≡ count_of r cs
  count_of-append_zero [] = ground arith
  count_of-append_zero (c ∷ cs) = ground (arith, count_of-append_zero cs)

  is_listed-append :
      (cs : List ReactionCount)
      → is_listed r (cs ++ record { reaction = reaction; count = pos 0 } ∷ [])
        ≡ is_listed r cs || str_eq r reaction
  is_listed-append [] = ground arith
  is_listed-append (c ∷ cs) = ground (arith, is_listed-append cs)

  is_listed_of_find :
      (cs : List ReactionCount)
      → find (λ c. str_eq reaction c.reaction) cs ≡ none
      → is_listed reaction cs ≡ false
  is_listed_of_find [] h = refl
  is_listed_of_find (c ∷ cs) h = ground (arith, is_listed_of_find cs)

IsNodup-append :
    (reaction : String) (cs : List ReactionCount)
    → IsNodup cs
    → is_listed reaction cs ≡ false
    → IsNodup (cs ++ record { reaction = reaction; count = pos 0 } ∷ [])
IsNodup-append reaction [] h k = (refl, tt)
IsNodup-append reaction (c ∷ cs) h k = ground (
  arith,
  IsNodup-append reaction cs h.1,
  is_listed-append c.reaction reaction cs,
  str_eq_iff reaction c.reaction,
  str_eq_iff c.reaction reaction,
)

-- The step that adds the new reaction shows the same counts,
count_of-add_new :
    (new : Option String) (r : String) (cs : List ReactionCount)
    → count_of r (add_new new cs) ≡ count_of r cs
unfolding add_new
count_of-add_new none r cs = refl
count_of-add_new (some s) r cs = ground (arith, count_of-append_zero r s cs)

is_listed_of_found :
    (s : String) (c : ReactionCount) (cs : List ReactionCount)
    → find (λ c. str_eq s c.reaction) cs ≡ some c
    → is_listed s cs ≡ true
is_listed_of_found s c [] h = cc
is_listed_of_found s c (d ∷ cs) h = ground (arith, is_listed_of_found s c cs)

-- A new reaction is appended exactly where it is not listed.
add_new-cases :
    (s : String) (cs : List ReactionCount)
    → ((add_new (some s) cs ≡ cs) × (is_listed s cs ≡ true))
      ⊎ ((add_new (some s) cs ≡ cs ++ record { reaction = s; count = pos 0 } ∷ [])
          × (is_listed s cs ≡ false))
unfolding add_new
add_new-cases s cs = elim (Option-cases (find (λ c. str_eq s c.reaction) cs)) [
  | inl absent ↦ inr (ground arith, is_listed_of_find s s cs absent)
  | inr (c, found) ↦ inl (ground arith, is_listed_of_found s c cs found)
]

-- keeps every reaction listed once,
IsNodup-add_new :
    (new : Option String) (cs : List ReactionCount) → IsNodup cs → IsNodup (add_new new cs)
unfolding add_new
IsNodup-add_new none cs h = h
IsNodup-add_new (some s) cs h = elim (add_new-cases s cs) [
  | inl (same, _) ↦ rw same h
  | inr (appended, absent) ↦ rw appended (IsNodup-append s cs h absent)
]

-- and lists the new reaction.
is_listed-add_new :
    (s : String) (cs : List ReactionCount) → is_listed s (add_new (some s) cs) ≡ true
is_listed-add_new s cs = elim (add_new-cases s cs) [
  | inl (same, listed) ↦ rw same listed
  | inr (appended, _) ↦ rw appended (ground (arith, is_listed-append s s cs, str_eq_iff s s))
]

is_listed-add_new_of_listed :
    (new : Option String) (r : String) (cs : List ReactionCount)
    → is_listed r (add_new new cs) ≡ false
    → is_listed r cs ≡ false
unfolding add_new
is_listed-add_new_of_listed none r cs h = h
is_listed-add_new_of_listed (some s) r cs h = elim (add_new-cases s cs) [
  | inl (same, _) ↦ rw same at h
  | inr (appended, _) ↦ ground (arith, is_listed-append r s cs)
]

is_listed-add_new_same :
    (new : Option String) (r : String) (cs : List ReactionCount)
    → is_same new r ≡ true
    → is_listed r (add_new new cs) ≡ true
is_listed-add_new_same none r cs h = cc
is_listed-add_new_same (some s) r cs h =
    let e : s ≡ r = (str_eq_iff s r).0 h in rw e (is_listed-add_new r cs)

-- the count that the whole modifier leaves for `r`
count_of-reactions_field :
    (new my : Option String) (r : String) (cs : List ReactionCount)
    → IsNodup cs
    → count_of r (reactions_field new my cs)
      ≡ (if is_listed r (add_new new cs) then moved new my r (count_of r cs) else pos 0)
unfolding reactions_field
count_of-reactions_field new my r cs h =
    count_of-filter r _ (IsNodup-map my new (add_new new cs) (IsNodup-add_new new cs h))
    ∙ count_of-map my new r (add_new new cs)
    ∙ ap (λ n. if is_listed r (add_new new cs) then moved new my r n else pos 0)
        (count_of-add_new new r cs)

-- the votes after the change, one reaction at a time
moved_votes :
    (o : ℕ) (listed new my : Bool) (n : ℤ)
    → (new ≡ true → my ≡ false)
    → (new ≡ true → listed ≡ true)
    → (listed ≡ false → n ≡ pos 0)
    → n ≡ pos (o + (if my then 1 else 0))
    → (if listed then (if new then n +ℤ pos 1 else if my then n -ℤ pos 1 else n) else pos 0)
      ≡ pos (o + (if new then 1 else 0))
unfolding ◌+ℤ◌ ◌-ℤ◌
moved_votes o listed new my n p q u h = ground arith

-- Moving the user's reaction to a different one keeps the list the one that the votes make up.
pub reactions_field-Represents :
    (others : String → ℕ) (new my : Option String) (cs : List ReactionCount)
    → ((r : String) → is_same new r ≡ true → is_same my r ≡ false)
    → Represents others my cs
    → Represents others new (reactions_field new my cs)
unfolding reactions_field
reactions_field-Represents others new my cs differ h = record {
  nodup = IsNodup-filter _ (IsNodup-map my new _ (IsNodup-add_new new cs h.nodup));
  nonzero = AllNonzero-filter (map (adjust new my) (add_new new cs));
  shows = λ r.
      count_of-reactions_field new my r cs h.nodup
      ∙ moved_votes (others r) (is_listed r (add_new new cs)) (is_same new r) (is_same my r)
          (count_of r cs) (differ r) (is_listed-add_new_same new r cs)
          (λ e. count_of_unlisted r cs (is_listed-add_new_of_listed new r cs e)) (h.shows r);
}
