-- ===== src/BigNumber/Decimal.antt =====
-- Decimals as a signed coefficient and an exponent: an instance of the interface, which shows that
-- its laws can hold and on which the tests run. A text is read as its digits.
use Prim.Native.Char.{code}
use likedao.Common.{
  ℕ, ◌+◌, ◌-◌, ◌*◌, ◌^◌, ◌≡◌, ap, sym, Bool, true, false, not, refl, Bool-cases, inl, inr, ◌&&◌,
  String, arith, leb, if◌then◌else◌,
}
use likedao.Common.Int.{
  ℤ, pos, pos_part, neg_part, ◌+ℤ◌, ◌-ℤ◌, ltb_ℤ, eqb_ℤ, negate, scale_ℤ, +ℤ_parts, int_laws,
}
use likedao.BigNumber.{BigNumberLib}

pub record Decimal : Type 0 where
  pub coefficient : ℤ
  pub exponent : ℤ

abbrev pub shift : ℤ → Decimal → Decimal
shift n x = record x { exponent = x.exponent +ℤ n }

-- both coefficients at the smaller exponent, from the difference `d` of the exponents
abbrev pub less_by : ℤ → ℤ → ℤ → Bool
less_by d m n = ltb_ℤ (scale_ℤ (10 ^ pos_part d) m) (scale_ℤ (10 ^ neg_part d) n)

abbrev pub plus_by : ℤ → ℤ → ℤ → ℤ
plus_by d m n = scale_ℤ (10 ^ pos_part d) m +ℤ scale_ℤ (10 ^ neg_part d) n

abbrev pub less : Decimal → Decimal → Bool
less x y = less_by (x.exponent -ℤ y.exponent) x.coefficient y.coefficient

abbrev pub smaller : ℤ → ℤ → ℤ
smaller a b = if ltb_ℤ a b then a else b

abbrev pub plus : Decimal → Decimal → Decimal
plus x y = record {
  coefficient = plus_by (x.exponent -ℤ y.exponent) x.coefficient y.coefficient;
  exponent = smaller x.exponent y.exponent;
}

abbrev pub read_digits : ℕ → String → ℕ
read_digits acc String.[] = acc
read_digits acc (String.◌∷◌ c s) =
    read_digits (if leb b'0' (code c) && leb (code c) b'9' then acc * 10 + (code c - b'0') else acc)
      s

add_negate : (e n : ℤ) → e +ℤ n +ℤ negate n ≡ e
unfolding ◌+ℤ◌
add_negate e n = ground arith

pub shift-negate : (n : ℤ) (x : Decimal) → shift (negate n) (shift n x) ≡ x
shift-negate n x = λ i. record { coefficient = x.coefficient; exponent = add_negate x.exponent n i }

difference-shift : (a b n : ℤ) → (a +ℤ n) -ℤ (b +ℤ n) ≡ a -ℤ b
difference-shift a b n = omega int_laws

ltb_ℤ-shift : (a b n : ℤ) → ltb_ℤ (a +ℤ n) (b +ℤ n) ≡ ltb_ℤ a b
ltb_ℤ-shift a b n = ground (arith, +ℤ_parts a n, +ℤ_parts b n)

smaller-shift : (a b n : ℤ) → smaller a b +ℤ n ≡ smaller (a +ℤ n) (b +ℤ n)
smaller-shift a b n = elim (Bool-cases (ltb_ℤ a b)) [
  | inl less_a ↦ ground (arith, ltb_ℤ-shift a b n)
  | inr not_less ↦ ground (arith, ltb_ℤ-shift a b n)
]

pub less-shift : (n : ℤ) (x y : Decimal) → less (shift n x) (shift n y) ≡ less x y
less-shift n x y =
    ap (λ d. less_by d x.coefficient y.coefficient) (difference-shift x.exponent y.exponent n)

pub shift-plus : (n : ℤ) (x y : Decimal) → shift n (plus x y) ≡ plus (shift n x) (shift n y)
shift-plus n x y = λ i. record {
  coefficient =
      sym
        (ap (λ d. plus_by d x.coefficient y.coefficient) (difference-shift x.exponent y.exponent n))
        i;
  exponent = smaller-shift x.exponent y.exponent n i;
}

pub not-eq_true : (b : Bool) → not b ≡ true → b ≡ false
not-eq_true true h = cc
not-eq_true false h = refl

-- `toFixed` writes the sign and nothing else: no law of the interface speaks of it.
abbrev pub decimals : BigNumberLib
decimals = record {
  BigNumber = Decimal;
  of_string = λ s. record { coefficient = pos (read_digits 0 s); exponent = pos 0 };
  big_zero = record { coefficient = pos 0; exponent = pos 0 };
  shifted_by = shift;
  is_less_than = less;
  is_less_than_or_equal = λ x y. not (less y x);
  is_zero = λ x. eqb_ℤ x.coefficient (pos 0);
  sum = plus;
  to_fixed = λ x. if ltb_ℤ x.coefficient (pos 0) then "-" else "+";
  shifted_by_negate = shift-negate;
  is_less_than-shifted_by = less-shift;
  less_or_not = λ x y h. not-eq_true (less y x) h;
  shifted_by-sum = shift-plus;
}
