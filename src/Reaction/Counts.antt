-- ===== src/Reaction/Counts.antt =====
-- What the reaction counts of a proposal mean, and the updater's three steps on them.
use likedao.Common.{
  ℕ, ◌+◌, ◌≡◌, refl, ◌≢◌, Bool, false, ◌||◌, Option, List, [], ◌∷◌, map, String, str_eq, str_eq_iff,
  filter, arith, if◌then◌else◌,
}
use likedao.Common.Int.{ℤ, pos, ◌+ℤ◌, ◌-ℤ◌}
use likedao.Reaction.{ReactionCount, is_same, adjust, is_nonzero}

-- the count that is shown for a reaction, 0 where it is not listed
abbrev pub count_of : String → List ReactionCount → ℤ
count_of r [] = pos 0
count_of r (c ∷ cs) = if str_eq r c.reaction then c.count else count_of r cs

abbrev pub is_listed : String → List ReactionCount → Bool
is_listed r [] = false
is_listed r (c ∷ cs) = str_eq r c.reaction || is_listed r cs

-- no reaction is listed twice
abbrev pub IsNodup : List ReactionCount → Type 0
IsNodup [] = Unit
IsNodup (c ∷ cs) = (is_listed c.reaction cs ≡ false) × IsNodup cs

abbrev pub AllNonzero : List ReactionCount → Type 0
AllNonzero [] = Unit
AllNonzero (c ∷ cs) = (c.count ≢ pos 0) × AllNonzero cs

-- one vote of the user for `my`
abbrev pub own_vote : Option String → String → ℕ
own_vote my r = if is_same my r then 1 else 0

-- The list shows, for each reaction, the votes of the other users and the user's own one, each
-- reaction once and none with the count 0.
pub record Represents (others : String → ℕ) (my : Option String) (counts : List ReactionCount)
    : Type 0 where
  pub nodup : IsNodup counts
  pub nonzero : AllNonzero counts
  pub shows : (r : String) → count_of r counts ≡ pos (others r + own_vote my r)

-- `adjust` keeps the name, so the list keeps its names and each count moves by itself.
pub reaction-adjust :
    (my new : Option String) (c : ReactionCount) → (adjust new my c).reaction ≡ c.reaction
unfolding adjust
reaction-adjust my new c = ground arith

pub is_listed-map :
    (my new : Option String) (r : String) (cs : List ReactionCount)
    → is_listed r (map (adjust new my) cs) ≡ is_listed r cs
is_listed-map my new r [] = refl
is_listed-map my new r (c ∷ cs) = rw (reaction-adjust my new c, is_listed-map my new r cs)

pub IsNodup-map :
    (my new : Option String) (cs : List ReactionCount)
    → IsNodup cs
    → IsNodup (map (adjust new my) cs)
IsNodup-map my new [] h = tt
IsNodup-map my new (c ∷ cs) h = (
  rw (reaction-adjust my new c, is_listed-map my new c.reaction cs) h.0,
  IsNodup-map my new cs h.1,
)

-- the change that `adjust` makes to the count of `r`
abbrev pub moved : Option String → Option String → String → ℤ → ℤ
moved new my r n = if is_same new r then n +ℤ pos 1 else if is_same my r then n -ℤ pos 1 else n

pub count_of-map :
    (my new : Option String) (r : String) (cs : List ReactionCount)
    → count_of r (map (adjust new my) cs)
      ≡ (if is_listed r cs then moved new my r (count_of r cs) else pos 0)
unfolding adjust
count_of-map my new r [] = refl
count_of-map my new r (c ∷ cs) =
    ground (arith, count_of-map my new r cs, str_eq_iff r c.reaction, reaction-adjust my new c)

pub count_of_unlisted :
    (r : String) (cs : List ReactionCount) → is_listed r cs ≡ false → count_of r cs ≡ pos 0
count_of_unlisted r [] h = refl
count_of_unlisted r (c ∷ cs) h = ground (arith, count_of_unlisted r cs)

pub is_listed-filter :
    (r : String) (cs : List ReactionCount)
    → is_listed r cs ≡ false
    → is_listed r (filter is_nonzero cs) ≡ false
is_listed-filter r [] h = refl
is_listed-filter r (c ∷ cs) h = ground (arith, is_listed-filter r cs)

pub IsNodup-filter : (cs : List ReactionCount) → IsNodup cs → IsNodup (filter is_nonzero cs)
IsNodup-filter [] h = tt
IsNodup-filter (c ∷ cs) h = ground (arith, IsNodup-filter cs, is_listed-filter c.reaction cs)

pub AllNonzero-filter : (cs : List ReactionCount) → AllNonzero (filter is_nonzero cs)
AllNonzero-filter [] = tt
AllNonzero-filter (c ∷ cs) = ground (arith, AllNonzero-filter cs)

-- Removing the entries with the count 0 shows the same counts.
pub count_of-filter :
    (r : String) (cs : List ReactionCount)
    → IsNodup cs
    → count_of r (filter is_nonzero cs) ≡ count_of r cs
count_of-filter r [] h = refl
count_of-filter r (c ∷ cs) h = ground (
  arith,
  count_of-filter r cs,
  is_listed-filter r cs,
  count_of_unlisted r (filter is_nonzero cs),
  str_eq_iff r c.reaction,
)
