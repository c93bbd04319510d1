-- ===== src/Common/Sort/Laws.antt =====
-- What a sort does where its comparison answers and is consistent.
use Prim.Native.Nat.{Ordering, lt, eq, gt}
use mathlib.Core.Path.{◌≡◌, refl, sym, ap, ◌∙◌, subst}
use mathlib.Core.Logic.{◌≢◌, ◌⊎◌, inl, inr}
use mathlib.Core.Bool.{true, false}
use mathlib.Core.List.{List, [], ◌∷◌, Perm}
use mathlib.Core.List.Perm
use native.Mathlib.Omega.{arith}
use likedao.Common.Tests.{if◌then◌else◌, Bool-cases}
use likedao.Common.Lists.{All, filter}
use likedao.Common.Settled.{Result, ok, >>=-eq-ok, ok-injective}
use likedao.Common.Sort.{
  insert_at_order, insert_by, sort_by, is_eq, opposite, IsConsistent, IsSorted, same, Sorts,
}

Ordering-cases : (o : Ordering) → (o ≡ gt) ⊎ (o ≢ gt)
Ordering-cases lt = inr (λ e. cc)
Ordering-cases eq = inr (λ e. cc)
Ordering-cases gt = inl refl

is_eq-true : (o : Ordering) → is_eq o ≡ true → o ≡ eq
is_eq-true lt h = cc
is_eq-true eq h = refl
is_eq-true gt h = cc

module _ {A : Type 0} (c : A → A → Ordering) (x : A) where
  -- where `x` came to stand
  data Inserted : List A → List A → Type 0 where
    at_end : Inserted [] (x ∷ [])
    before : {y : A} {ys : List A} → c x y ≢ gt → Inserted (y ∷ ys) (x ∷ y ∷ ys)
    later : {y : A} {ys rs : List A} → c x y ≡ gt → Inserted ys rs → Inserted (y ∷ ys) (y ∷ rs)

  Inserted-All : (Q : A → Type 0) {ys rs : List A} → Inserted ys rs → Q x → All Q ys → All Q rs
  Inserted-All Q at_end hx h = (hx, tt)
  Inserted-All Q (before le) hx h = (hx, h)
  Inserted-All Q (later above i) hx (hy, h) = (hy, Inserted-All Q i hx h)

  Inserted-Perm : {ys rs : List A} → Inserted ys rs → Perm rs (x ∷ ys)
  Inserted-Perm at_end = Perm.rfl
  Inserted-Perm (before le) = Perm.rfl
  Inserted-Perm (later {y} {ys} above i) =
      Perm.trans (Perm.cons y (Inserted-Perm i)) (Perm.swap x y ys)

  module _ (P : A → Type 0) (consistent : IsConsistent P c) (px : P x) where
    below-All :
        (y : A) (ys : List A)
        → P y
        → All P ys
        → c x y ≢ gt
        → All (λ z. c y z ≢ gt) ys
        → All (λ z. c x z ≢ gt) ys
    below-All y [] py ps le h = tt
    below-All y (z ∷ zs) py (pz, ps) le (hz, h) =
        (consistent.trans x y z px py pz le hz, below-All y zs py ps le h)

    Inserted-IsSorted : {ys rs : List A} → Inserted ys rs → All P ys → IsSorted c ys → IsSorted c rs
    Inserted-IsSorted at_end ps s = (tt, tt)
    Inserted-IsSorted (before {y} {ys} le) (py, ps) (h, s) =
        ((le, below-All y ys py ps le h), (h, s))
    Inserted-IsSorted (later {y} {ys} above i) (py, ps) (h, s) = (
      Inserted-All (λ z. c y z ≢ gt) i (λ e. cc (e, consistent.flip x y px py, ap opposite above))
          h,
      Inserted-IsSorted i ps s,
    )

    -- no item that has the same place as `x` is passed
    passed_differs : (a y : A) → P a → P y → c x y ≡ gt → same c a x ≡ true → same c a y ≡ false
    passed_differs a y pa py above e = elim (Ordering-cases (c a y)) [
      | inl g ↦ rw g refl
      | inr le ↦
          let x_a : c x a ≢ gt =
            λ g. cc (consistent.flip a x pa px, ap opposite (is_eq-true (c a x) e), g) in
          absurd (consistent.trans x a y px pa py x_a le above)
    ]

    Inserted-filter :
        (a : A) {ys rs : List A}
        → P a
        → Inserted ys rs
        → All P ys
        → filter (same c a) rs ≡ filter (same c a) (x ∷ ys)
    Inserted-filter a pa at_end ps = refl
    Inserted-filter a pa (before le) ps = refl
    Inserted-filter a pa (later {y} {ys} above i) (py, ps) = elim (Bool-cases (same c a x)) [
      | inl e ↦ ground (arith, Inserted-filter a pa i ps, passed_differs a y pa py above e)
      | inr e ↦ ground (arith, Inserted-filter a pa i ps)
    ]

module _ {A : Type 0} (compare : A → A → Result Ordering) (c : A → A → Ordering) (P : A → Type 0)
    (answers : (a b : A) → P a → P b → compare a b ≡ ok (c a b)) where
  not_above :
      (x y : A) (ys : List A) (rest : Result (List A)) (o : Ordering)
      → o ≢ gt
      → insert_at_order compare x y ys rest o ≡ ok (x ∷ y ∷ ys)
  unfolding insert_at_order
  not_above x y ys rest lt le = refl
  not_above x y ys rest eq le = refl
  not_above x y ys rest gt le = absurd (le refl)

  insert_by-Inserted :
      (x : A) (ys : List A)
      → P x
      → All P ys
      → (rs : List A) × (insert_by compare x ys ≡ ok rs) × Inserted c x ys rs
  unfolding insert_by insert_at_order
  insert_by-Inserted x [] hx h = (x ∷ [], refl, at_end)
  insert_by-Inserted x (y ∷ ys) hx (hy, h) =
      let (rs, e, i) = insert_by-Inserted x ys hx h in
      elim (Ordering-cases (c x y)) [
        | inl above ↦ (y ∷ rs, simp (answers x y hx hy, above, insert_at_order, e), later above i)
        | inr le ↦ (x ∷ y ∷ ys, simp (answers x y hx hy) (not_above x y ys _ (c x y) le), before le)
      ]

  -- The sort of items whose comparisons are answered succeeds: it gives the same items, ascending,
  -- and leaves those in their order that have the same place.
  pub sort_by-Sorts :
      IsConsistent P c
      → (xs : List A) → All P xs
      → (rs : List A) × (sort_by compare xs ≡ ok rs) × Sorts c P xs rs × All P rs
  unfolding sort_by
  sort_by-Sorts consistent [] h =
      ([], refl, record { perm = Perm.rfl; ascending = tt; stable = λ a pa. refl }, tt)
  sort_by-Sorts consistent (x ∷ xs) (hx, h) =
      let (sorted, e, s, all) = sort_by-Sorts consistent xs h in
      let (rs, inserted, i) = insert_by-Inserted x sorted hx all in
      (
        rs,
        simp e inserted,
        record {
          perm = Perm.trans (Inserted-Perm c x i) (Perm.cons x s.perm);
          ascending = Inserted-IsSorted c x P consistent hx i all s.ascending;
          stable = λ a pa.
              Inserted-filter c x P consistent hx a pa i all
              ∙ ap (λ l. if same c a x then x ∷ l else l) (s.stable a pa);
        },
        Inserted-All c x P i hx all,
      )

-- a comparison that answers for no item but those of `P`
module _ {A : Type 0} (compare : A → A → Result Ordering) (P : A → Type 0)
    (answered : (a b : A) (o : Ordering) → compare a b ≡ ok o → P a × P b) where
  -- an item that is inserted is compared with the first
  insert_by-answered : (x y : A) (ys rs : List A) → insert_by compare x (y ∷ ys) ≡ ok rs → P x × P y
  unfolding insert_by
  insert_by-answered x y ys rs h =
      let (o, e, rest) = >>=-eq-ok (compare x y) _ h in answered x y o e

  placed :
      (x y : A) (ys rs : List A) (after : Result (List A)) (o : Ordering)
      → insert_at_order compare x y ys after o ≡ ok rs
      → (z : A) × (zs : List A) × (rs ≡ z ∷ zs)
  unfolding insert_at_order
  placed x y ys rs after lt h = (x, y ∷ ys, sym (ok-injective (x ∷ y ∷ ys) rs h))
  placed x y ys rs after eq h = (x, y ∷ ys, sym (ok-injective (x ∷ y ∷ ys) rs h))
  placed x y ys rs after gt h =
      let (rest, e, h) = >>=-eq-ok after _ h in (y, rest, sym (ok-injective (y ∷ rest) rs h))

  insert_by-cons :
      (x : A) (ys rs : List A)
      → insert_by compare x ys ≡ ok rs
      → (z : A) × (zs : List A) × (rs ≡ z ∷ zs)
  unfolding insert_by
  insert_by-cons x [] rs h = (x, [], sym (ok-injective (x ∷ []) rs h))
  insert_by-cons x (y ∷ ys) rs h =
      let (o, e, rest) = >>=-eq-ok (compare x y) _ h in
      placed x y ys rs (insert_by compare x ys) o rest

  -- so that a sort of two items or more succeeds only if `P` holds of all
  pub sort_by-answered :
      (x y : A) (xs rs : List A) → sort_by compare (x ∷ y ∷ xs) ≡ ok rs → All P (x ∷ y ∷ xs)
  unfolding sort_by
  sort_by-answered x y [] rs h = let (px, py) = insert_by-answered x y [] rs h in (px, (py, tt))
  sort_by-answered x y (z ∷ zs) rs h =
      let (sorted, e, inserted) = >>=-eq-ok (sort_by compare (y ∷ z ∷ zs)) _ h in
      let (tail, e', inserted') = >>=-eq-ok (sort_by compare (z ∷ zs)) _ e in
      let (first, others, is_cons) = insert_by-cons y tail sorted inserted' in
      (
        (insert_by-answered x first others rs
            (subst (λ l. insert_by compare x l ≡ ok rs) is_cons inserted)).0,
        sort_by-answered y z zs sorted e,
      )
