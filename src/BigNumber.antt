-- ===== src/BigNumber.antt =====
-- The decimal numbers of the package bignumber.js, as an interface: what the app calls, with the
-- documented facts that it relies on. NaN is one of the values.
pub mod Decimal
use likedao.Common.{◌≡◌, Bool, true, false, String}
use likedao.Common.Int.{ℤ, negate}

pub record BigNumberLib : Type 1 where
  pub BigNumber : Type 0
  -- `new BigNumber(s)`, and `new BigNumber(0)`
  pub of_string : String → BigNumber
  pub big_zero : BigNumber
  -- `x.shiftedBy(n)`, x * 10^n without rounding
  pub shifted_by : ℤ → BigNumber → BigNumber
  pub is_less_than : BigNumber → BigNumber → Bool
  -- `x.isLessThanOrEqualTo(y)`
  pub is_less_than_or_equal : BigNumber → BigNumber → Bool
  pub is_zero : BigNumber → Bool
  -- `BigNumber.sum(x, y)`
  pub sum : BigNumber → BigNumber → BigNumber
  -- `x.toFixed()`
  pub to_fixed : BigNumber → String
  pub shifted_by_negate : (n : ℤ) (x : BigNumber) → shifted_by (negate n) (shifted_by n x) ≡ x
  pub is_less_than-shifted_by :
      (n : ℤ) (x y : BigNumber) → is_less_than (shifted_by n x) (shifted_by n y) ≡ is_less_than x y
  -- neither holds where one of the two is NaN
  pub less_or_not : (x y : BigNumber) → is_less_than_or_equal x y ≡ true → is_less_than y x ≡ false
  pub shifted_by-sum :
      (n : ℤ) (x y : BigNumber) → shifted_by n (sum x y) ≡ sum (shifted_by n x) (shifted_by n y)
