-- ===== src/Stakes/Order.antt =====
-- What the table of stakes shows, once it is sorted.
use Prim.Native.Nat.{Ordering, eq}
use likedao.Common.{◌≡◌, ◌≢◌, refl, sym, Option, none, some, List, ◌∷◌, All, String, ok, >>=-eq-ok}
use likedao.Common.Sort.{sort_by, IsConsistent, Sorts}
use likedao.Common.Sort.Laws.{sort_by-Sorts, sort_by-answered}
use likedao.Amount.{BigNumberCoin}
use likedao.Chain.{Description}
use likedao.Request.{RequestState, loaded}
use likedao.Proposal.{Direction, asc, desc, ColumnOrder}
use likedao.Stakes.Sorting.{
  StakeColumn, name_column, staked_column, rewards_column, expected_returns_column,
  voting_power_column, Comparisons, StakeRow, directed, compare_rewards, compare_names,
  compare_stakes, stake_comparison, request_state_sorted,
}

-- ascending by a comparison, or descending by it: the greater one is first
abbrev pub ordered_by : {A : Type 0} → Direction → (A → A → Ordering) → A → A → Ordering
ordered_by asc c a b = c a b
ordered_by desc c a b = c b a

ordered_by-IsConsistent :
    {A : Type 0} (P : A → Type 0) (c : A → A → Ordering) (direction : Direction)
    → IsConsistent P c
    → IsConsistent P (ordered_by direction c)
ordered_by-IsConsistent P c asc h = record { flip = h.flip; trans = h.trans }
ordered_by-IsConsistent P c desc h = record {
  flip = λ a b pa pb. h.flip b a pb pa;
  trans = λ a b d pa pb pd e f. h.trans d b a pd pb pa f e;
}

directed-ordered_by :
    {A : Type 0} (P : A → Type 0) (c : A → A → Ordering) (direction : Direction) (a b : A)
    → IsConsistent P c
    → P a
    → P b
    → directed direction (c a b) ≡ ordered_by direction c a b
unfolding directed
directed-ordered_by P c asc a b h pa pb = refl
directed-ordered_by P c desc a b h pa pb = sym (h.flip a b pa pb)

-- of the comparisons that are made: the compared values are numbers, which NaN is not
pub record ComparisonLaws {B D : Type 0} (signs : Comparisons B D) (N : B → Type 0) (M : D → Type 0)
    : Type 0 where
  pub names : IsConsistent (λ (s : String). Unit {0}) signs.locale_compare
  pub amounts : IsConsistent N signs.compare_amounts
  pub doubles : IsConsistent M signs.compare_doubles

IsConsistent-map :
    {A K : Type 0} (N : K → Type 0) (c : K → K → Ordering) (key : A → K)
    → IsConsistent N c
    → IsConsistent (λ a. N (key a)) (λ a b. c (key a) (key b))
IsConsistent-map N c key h = record {
  flip = λ a b. h.flip (key a) (key b);
  trans = λ a b d. h.trans (key a) (key b) (key d);
}

abbrev pub HasReward : {B D : Type 0} → StakeRow B D → Type 0
HasReward {B} row = (coin : BigNumberCoin B) × (row.info.reward ≡ some coin)

abbrev pub HasDescription : {B D : Type 0} → StakeRow B D → Type 0
HasDescription row = (d : Description) × (row.info.validator.description ≡ some d)

module _ {B D : Type 0} (signs : Comparisons B D) (N : B → Type 0) (M : D → Type 0) where
  open signs use {locale_compare, compare_amounts, compare_doubles}

  -- the rows that a column can compare
  abbrev pub IsComparable : StakeColumn → StakeRow B D → Type 0
  IsComparable name_column row = HasDescription row
  IsComparable staked_column row = N row.info.balance.amount
  IsComparable rewards_column row =
      (coin : BigNumberCoin B) × (row.info.reward ≡ some coin) × N coin.amount
  IsComparable expected_returns_column row = M row.expected_return
  IsComparable voting_power_column row = M row.voting_power

  abbrev reward_order : Option (BigNumberCoin B) → Option (BigNumberCoin B) → Ordering
  reward_order none b = eq
  reward_order (some a) none = eq
  reward_order (some a) (some b) = compare_amounts a.amount b.amount

  abbrev name_order : Option Description → Option Description → Ordering
  name_order none b = eq
  name_order (some a) none = eq
  name_order (some a) (some b) = locale_compare a.moniker b.moniker

  -- the order of a column, from the smaller to the greater
  abbrev pub column_order : StakeColumn → StakeRow B D → StakeRow B D → Ordering
  column_order name_column a b =
      name_order a.info.validator.description b.info.validator.description
  column_order staked_column a b = compare_amounts a.info.balance.amount b.info.balance.amount
  column_order rewards_column a b = reward_order a.info.reward b.info.reward
  column_order expected_returns_column a b = compare_doubles a.expected_return b.expected_return
  column_order voting_power_column a b = compare_doubles a.voting_power b.voting_power

  column_order-answered :
      (column : StakeColumn) (a b : StakeRow B D)
      → IsComparable column a
      → IsComparable column b
      → compare_stakes signs column a b ≡ ok (column_order column a b)
  unfolding compare_stakes compare_rewards compare_names
  column_order-answered name_column a b (x, e) (y, f) = simp (e, f)
  column_order-answered staked_column a b pa pb = refl
  column_order-answered rewards_column a b (x, e, n) (y, f, m) = simp (e, f)
  column_order-answered expected_returns_column a b pa pb = refl
  column_order-answered voting_power_column a b pa pb = refl

  column_order-IsConsistent :
      ComparisonLaws signs N M
      → (column : StakeColumn) → IsConsistent (IsComparable column) (column_order column)
  column_order-IsConsistent laws name_column = record {
    flip = λ a b (x, e) (y, f). rw (e, f) (laws.names.flip x.moniker y.moniker tt tt);
    trans = λ a b d (x, e) (y, f) (z, g).
        rw (e, f, g) (laws.names.trans x.moniker y.moniker z.moniker tt tt tt);
  }
  column_order-IsConsistent laws staked_column =
      IsConsistent-map N compare_amounts (λ row. row.info.balance.amount) laws.amounts
  column_order-IsConsistent laws rewards_column = record {
    flip = λ a b (x, e, n) (y, f, m). rw (e, f) (laws.amounts.flip x.amount y.amount n m);
    trans = λ a b d (x, e, n) (y, f, m) (z, g, k).
        rw (e, f, g) (laws.amounts.trans x.amount y.amount z.amount n m k);
  }
  column_order-IsConsistent laws expected_returns_column =
      IsConsistent-map M compare_doubles (λ row. row.expected_return) laws.doubles
  column_order-IsConsistent laws voting_power_column =
      IsConsistent-map M compare_doubles (λ row. row.voting_power) laws.doubles

  -- the order of the table
  abbrev pub table_order : ColumnOrder StakeColumn → StakeRow B D → StakeRow B D → Ordering
  table_order order = ordered_by order.direction (column_order order.id)

  table_order-answered :
      ComparisonLaws signs N M
      → (order : ColumnOrder StakeColumn) (a b : StakeRow B D) → IsComparable order.id a
      → IsComparable order.id b
      → stake_comparison signs order a b ≡ ok (table_order order a b)
  unfolding stake_comparison
  table_order-answered laws order a b pa pb =
      let consistent = column_order-IsConsistent laws order.id in
      simp
        (
          column_order-answered order.id a b pa pb,
          directed-ordered_by (IsComparable order.id) (column_order order.id) order.direction a b
              consistent pa pb,
        )
        refl

  both_read :
      (a b : Option (BigNumberCoin B)) (sign : Ordering)
      → compare_rewards signs a b ≡ ok sign
      → ((coin : BigNumberCoin B) × (a ≡ some coin)) × ((coin : BigNumberCoin B) × (b ≡ some coin))
  unfolding compare_rewards
  both_read none b sign h = cc
  both_read (some a) none sign h = cc
  both_read (some a) (some b) sign h = ((a, refl), (b, refl))

  -- a comparison by the rewards reads both
  rewards_compared :
      (direction : Direction) (a b : StakeRow B D) (o : Ordering)
      → stake_comparison signs (record { id = rewards_column; direction = direction }) a b ≡ ok o
      → HasReward a × HasReward b
  unfolding stake_comparison compare_stakes
  rewards_compared direction a b o h =
      let (sign, e, h) = >>=-eq-ok (compare_rewards signs a.info.reward b.info.reward) _ h in
      both_read a.info.reward b.info.reward sign e

  both_named :
      (a b : Option Description) (sign : Ordering)
      → compare_names signs a b ≡ ok sign
      → ((d : Description) × (a ≡ some d)) × ((d : Description) × (b ≡ some d))
  unfolding compare_names
  both_named none b sign h = cc
  both_named (some a) none sign h = cc
  both_named (some a) (some b) sign h = ((a, refl), (b, refl))

  -- a comparison by the names reads both
  names_compared :
      (direction : Direction) (a b : StakeRow B D) (o : Ordering)
      → stake_comparison signs (record { id = name_column; direction = direction }) a b ≡ ok o
      → HasDescription a × HasDescription b
  unfolding stake_comparison compare_stakes
  names_compared direction a b o h =
      let x = a.info.validator.description in
      let y = b.info.validator.description in
      let (sign, e, h) = >>=-eq-ok (compare_names signs x y) _ h in both_named x y sign e

  -- Where a comparison of numbers and of names is consistent, and each row has what its column
  -- compares, the table shows the same rows: ascending or descending by the column, and those with
  -- equal values in the order that they had. But two rows or more cannot be sorted by the rewards
  -- where one of them has no reward, nor by the names where a validator has no description: the
  -- rendering throws.
  pub request_state_sorted-Sorts :
      ComparisonLaws signs N M
      → (order : ColumnOrder StakeColumn) (rows : List (StakeRow B D))
      → (All (IsComparable order.id) rows
          → (sorted : List (StakeRow B D)) × (request_state_sorted signs order (loaded rows)
              ≡ ok (loaded sorted))
            × Sorts (table_order order) (IsComparable order.id) rows sorted)
        × ((a b : StakeRow B D) (state : RequestState (List (StakeRow B D)))
            → ¬ All HasReward (a ∷ b ∷ rows)
            → request_state_sorted signs
                (record order { id = rewards_column })
                (loaded (a ∷ b ∷ rows))
              ≢ ok state)
        × ((a b : StakeRow B D) (state : RequestState (List (StakeRow B D)))
            → ¬ All HasDescription (a ∷ b ∷ rows)
            → request_state_sorted signs (record order { id = name_column }) (loaded (a ∷ b ∷ rows))
              ≢ ok state)
  unfolding request_state_sorted
  request_state_sorted-Sorts laws order rows = (
    λ comparable.
        let consistent =
          ordered_by-IsConsistent (IsComparable order.id) (column_order order.id) order.direction
            (column_order-IsConsistent laws order.id) in
        let (sorted, e, sorts, all) =
          sort_by-Sorts (stake_comparison signs order) (table_order order) (IsComparable order.id)
            (table_order-answered laws order) consistent rows comparable in
        (sorted, simp e, sorts),
    λ a b state missing h.
        let by_rewards = stake_comparison signs (record order { id = rewards_column }) in
        let (sorted, e, rest) = >>=-eq-ok (sort_by by_rewards (a ∷ b ∷ rows)) _ h in
        missing (
          sort_by-answered by_rewards HasReward (rewards_compared order.direction) a b rows sorted
            e),
    λ a b state missing h.
        let by_name = stake_comparison signs (record order { id = name_column }) in
        let (sorted, e, rest) = >>=-eq-ok (sort_by by_name (a ∷ b ∷ rows)) _ h in
        missing (
          sort_by-answered by_name HasDescription (names_compared order.direction) a b rows sorted
            e),
  )
