-- ===== src/Examples/Sorted.antt =====
-- Two stakes, sorted by their rewards. The names are compared by their lengths here.
use Prim.Native.Nat.{compare}
use Prim.Native.String.{count}
use likedao.Common.{ℕ, ◌≡◌, ◌≢◌, refl, some, List, [], ◌∷◌, All, String, ok, arith}
use likedao.Common.Sort.{IsConsistent, Sorts}
use likedao.Request.{RequestState, loaded}
use likedao.Proposal.{desc, ColumnOrder}
use likedao.Stakes.Sorting.{
  StakeColumn, name_column, rewards_column, Comparisons, StakeRow, request_state_sorted,
}
use likedao.Stakes.Order.{
  ComparisonLaws, HasReward, HasDescription, IsComparable, table_order, request_state_sorted-Sorts,
}
use likedao.Examples.Fixtures.{validator_of}

abbrev signs : Comparisons ℕ ℕ
signs = record {
  locale_compare = λ a b. compare (count a) (count b);
  compare_amounts = compare;
  compare_doubles = compare;
}

compare-IsConsistent :
    {A : Type 0} (key : A → ℕ) → IsConsistent (λ a. Unit {0}) (λ a b. compare (key a) (key b))
compare-IsConsistent key = record {
  flip = λ a b pa pb. ground arith;
  trans = λ a b d pa pb pd h k. ground arith;
}

laws : ComparisonLaws signs (λ n. Unit) (λ n. Unit)
laws = record {
  names = compare-IsConsistent count;
  amounts = compare-IsConsistent (λ n. n);
  doubles = compare-IsConsistent (λ n. n);
}

abbrev stake_row : String → ℕ → StakeRow ℕ ℕ
stake_row validator reward = record {
  info = record {
    delegation = record {
      delegator_address = "like1";
      validator_address = validator;
      shares = "1";
    };
    balance = record { denom = "LIKE"; amount = 5 };
    reward = some (record { denom = "LIKE"; amount = reward });
    validator = validator_of validator;
  };
  expected_return = 3;
  voting_power = 4;
}

abbrev rows : List (StakeRow ℕ ℕ)
rows = stake_row "val1" 2 ∷ stake_row "val2" 7 ∷ []

abbrev by_rewards : ColumnOrder StakeColumn
by_rewards = record { id = rewards_column; direction = desc }

request_state_sorted-Sorts_example :
    (All (IsComparable signs (λ n. Unit) (λ n. Unit) rewards_column) rows
      → (sorted : List (StakeRow ℕ ℕ)) × (request_state_sorted signs by_rewards (loaded rows)
          ≡ ok (loaded sorted))
        × Sorts
            (table_order signs (λ n. Unit) (λ n. Unit) by_rewards)
            (IsComparable signs (λ n. Unit) (λ n. Unit) rewards_column)
            rows
            sorted)
    × ((a b : StakeRow ℕ ℕ) (state : RequestState (List (StakeRow ℕ ℕ)))
        → ¬ All HasReward (a ∷ b ∷ rows)
        → request_state_sorted signs by_rewards (loaded (a ∷ b ∷ rows)) ≢ ok state)
    × ((a b : StakeRow ℕ ℕ) (state : RequestState (List (StakeRow ℕ ℕ)))
        → ¬ All HasDescription (a ∷ b ∷ rows)
        → request_state_sorted signs
            (record by_rewards { id = name_column })
            (loaded (a ∷ b ∷ rows))
          ≢ ok state)
request_state_sorted-Sorts_example =
    request_state_sorted-Sorts signs (λ n. Unit) (λ n. Unit) laws by_rewards rows

rows-IsComparable : All (IsComparable signs (λ n. Unit {0}) (λ n. Unit {0}) rewards_column) rows
rows-IsComparable = ((_, refl, tt), ((_, refl, tt), tt))

largest_first :
    request_state_sorted signs by_rewards (loaded rows)
    ≡ ok (loaded (stake_row "val2" 7 ∷ stake_row "val1" 2 ∷ []))
unfolding request_state_sorted
largest_first = refl
