-- ===== src/Common/Sort.antt =====
-- `xs.sort(compare)` of JavaScript, which is stable, for a comparison that can throw: an insertion
-- of each item before the first that it is not above. Where the comparison is consistent, every
-- stable sort has the same result.
pub mod Laws
use Prim.Native.Nat.{Ordering, lt, eq, gt}
use mathlib.Core.Path.{◌≡◌, refl, sym, ap, ◌∙◌}
use mathlib.Core.Logic.{◌≢◌}
use mathlib.Core.Bool.{Bool, true, false}
use mathlib.Core.List.{List, [], ◌∷◌, Perm}
use mathlib.Core.List.Perm
use native.Mathlib.Omega.{arith}
use likedao.Common.Tests.{if◌then◌else◌}
use likedao.Common.Lists.{All, filter}
use likedao.Common.Settled.{Result, ok, ◌>>=◌}

module _ {A : Type 0} (compare : A → A → Result Ordering) where
  unfoldable pub insert_at_order :
      (x y : A) (ys : List A) → Result (List A) → Ordering → Result (List A)
  insert_at_order x y ys after gt = after >>= λ rest. ok (y ∷ rest)
  insert_at_order x y ys after lt = ok (x ∷ y ∷ ys)
  insert_at_order x y ys after eq = ok (x ∷ y ∷ ys)

  unfoldable pub insert_by : A → List A → Result (List A)
  unfolding insert_at_order
  insert_by x [] = ok (x ∷ [])
  insert_by x (y ∷ ys) = compare x y >>= insert_at_order x y ys (insert_by x ys)

  unfoldable pub sort_by : List A → Result (List A)
  unfolding insert_by
  sort_by [] = ok []
  sort_by (x ∷ xs) = do sorted ← sort_by xs; insert_by x sorted

abbrev pub is_eq : Ordering → Bool
is_eq eq = true
is_eq lt = false
is_eq gt = false

abbrev pub opposite : Ordering → Ordering
opposite lt = gt
opposite eq = eq
opposite gt = lt

-- what the language asks of a comparison, of the items that `P` holds of
pub record IsConsistent {A : Type 0} (P : A → Type 0) (c : A → A → Ordering) : Type 0 where
  pub flip : (a b : A) → P a → P b → c b a ≡ opposite (c a b)
  pub trans : (a b d : A) → P a → P b → P d → c a b ≢ gt → c b d ≢ gt → c a d ≢ gt

module _ {A : Type 0} (c : A → A → Ordering) where
  abbrev pub IsSorted : List A → Type 0
  IsSorted [] = Unit
  IsSorted (x ∷ xs) = All (λ y. c x y ≢ gt) xs × IsSorted xs

  abbrev pub same : A → A → Bool
  same a b = is_eq (c a b)

  -- the same items, in the order of the comparison, and in the old order where it has none
  pub record Sorts (P : A → Type 0) (xs sorted : List A) : Type 0 where
    pub perm : Perm sorted xs
    pub ascending : IsSorted sorted
    pub stable : (a : A) → P a → filter (same a) sorted ≡ filter (same a) xs
