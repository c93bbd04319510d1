-- ===== src/Form/ParseFloat.antt =====
-- `parseFloat` of JavaScript, which hooks/useFormValidators.ts applies to amounts: the decimal
-- number that the longest readable prefix of a text stands for, and what its rounding to a
-- double decides.
use Prim.Native.Char.{Char, code}
use likedao.Common.{
  ℕ, ◌+◌, ◌-◌, ◌*◌, ◌^◌, ◌≡◌, Bool, true, false, ◌&&◌, ◌||◌, List, [], ◌∷◌, String, refl, ltb, leb,
  ◌==◌, if◌then◌else◌, any, arith,
}
use likedao.Common.Int.{ℤ, pos, pos_part, neg_part, sub_ℕ, ◌-ℤ◌}

-- the code points of a text
abbrev pub codes : String → List ℕ
codes String.[] = []
codes (String.◌∷◌ c s) = code c ∷ codes s

-- `finite negative c e` is the exact c * 10^e, or its opposite, before it is rounded
pub data JsNumber : Type 0 where
  nan : JsNumber
  infinite : (negative : Bool) → JsNumber
  finite : (negative : Bool) (coefficient : ℕ) (exponent : ℤ) → JsNumber

-- white space and line ends
unfoldable pub is_space : ℕ → Bool
is_space c =
    (leb 9 c && leb c 13)
    || any (λ s. s == c) (32 ∷ 160 ∷ 5760 ∷ 8232 ∷ 8233 ∷ 8239 ∷ 8287 ∷ 12288 ∷ 65279 ∷ [])
    || (leb 8192 c && leb c 8202)

unfoldable pub skip_spaces : List ℕ → List ℕ
unfolding is_space
skip_spaces [] = []
skip_spaces (c ∷ cs) = if is_space c then skip_spaces cs else c ∷ cs

unfoldable pub is_digit : ℕ → Bool
is_digit c = leb b'0' c && leb c b'9'

-- the digits at the head: their number `value`, how many they are, and what follows
pub record Digits : Type 0 where
  pub value : ℕ
  pub count : ℕ
  pub rest : List ℕ

unfoldable pub read_digits : ℕ → ℕ → List ℕ → Digits
unfolding is_digit
read_digits value count [] = record { value = value; count = count; rest = [] }
read_digits value count (c ∷ cs) = elim (is_digit c) [
  | true ↦ read_digits (value * 10 + (c - b'0')) (count + 1) cs
  | false ↦ record { value = value; count = count; rest = c ∷ cs }
]

-- the sign and the digits of an exponent; without a digit there is none
signed_exponent : Bool → Digits → ℤ
signed_exponent negative digits = if negative then sub_ℕ 0 digits.value else pos digits.value

exponent_after : List ℕ → ℤ
unfolding signed_exponent read_digits
exponent_after [] = pos 0
exponent_after (c ∷ cs) =
    if c == b'-'
    then signed_exponent true (read_digits 0 0 cs)
    else if c == b'+'
    then signed_exponent false (read_digits 0 0 cs)
    else signed_exponent false (read_digits 0 0 (c ∷ cs))

pub exponent_of : List ℕ → ℤ
unfolding exponent_after
exponent_of [] = pos 0
exponent_of (c ∷ cs) = if c == b'e' || c == b'E' then exponent_after cs else pos 0

-- the digits after a point
pub fraction_of : ℕ → List ℕ → Digits
unfolding read_digits
fraction_of value [] = record { value = value; count = 0; rest = [] }
fraction_of value (c ∷ cs) =
    if c == b'.' then read_digits value 0 cs else record { value = value; count = 0; rest = c ∷ cs }

pub begins_with : List ℕ → List ℕ → Bool
begins_with [] cs = true
begins_with (p ∷ ps) [] = false
begins_with (p ∷ ps) (c ∷ cs) = p == c && begins_with ps cs

-- a number without its sign
pub unsigned : Bool → List ℕ → JsNumber
unfolding ◌-ℤ◌ begins_with read_digits fraction_of exponent_of
unsigned negative cs =
    if begins_with (codes "Infinity") cs
    then infinite negative
    else let whole = read_digits 0 0 cs in
      let fraction = fraction_of whole.value whole.rest in
      if whole.count + fraction.count == 0
      then nan
      else finite negative fraction.value (exponent_of fraction.rest -ℤ pos fraction.count)

pub signed : List ℕ → JsNumber
unfolding unsigned
signed [] = nan
signed (c ∷ cs) =
    if c == b'-'
    then unsigned true cs
    else if c == b'+'
    then unsigned false cs
    else unsigned false (c ∷ cs)

unfoldable pub parse_float : String → JsNumber
unfolding skip_spaces signed
parse_float text = signed (skip_spaces (codes text))

-- `isFinite`: from the middle between the largest double and 2^1024 on, a number is rounded to
-- Infinity
unfoldable pub is_finite : JsNumber → Bool
is_finite nan = false
is_finite (infinite negative) = false
is_finite (finite negative coefficient exponent) =
    ltb (coefficient * 10 ^ pos_part exponent) ((2 ^ 1024 - 2 ^ 970) * 10 ^ neg_part exponent)

-- `x > 0`: up to half of the smallest double, 2^-1074, a number is rounded to 0
unfoldable pub is_positive : JsNumber → Bool
is_positive nan = false
is_positive (infinite negative) = if negative then false else true
is_positive (finite negative coefficient exponent) =
    if negative
    then false
    else ltb (10 ^ neg_part exponent) (coefficient * 10 ^ pos_part exponent * 2 ^ 1075)

is_positive-unsigned : (cs : List ℕ) → is_positive (unsigned true cs) ≡ false
unfolding unsigned is_positive
is_positive-unsigned cs = ground arith

-- a number with a minus sign in front
pub is_positive-minus :
    (c : Char) (s : String) → code c ≡ b'-' → is_positive (parse_float (String.◌∷◌ c s)) ≡ false
unfolding parse_float
is_positive-minus c s e = rw (e, is_space) (is_positive-unsigned (codes s))

parse_amount : parse_float " 12.50e1 LIKE" ≡ finite false 1250 (sub_ℕ 0 1)
unfolding parse_float
parse_amount = refl

parse_dots : parse_float "-.5.5" ≡ finite true 5 (sub_ℕ 0 1)
unfolding parse_float
parse_dots = refl

parse_nothing : parse_float "-e5" ≡ nan
unfolding parse_float
parse_nothing = refl

infinite_text : is_finite (parse_float "1e400") ≡ false
unfolding is_finite parse_float
infinite_text = refl

largest : is_finite (parse_float "1.7976931348623157e308") ≡ true
unfolding is_finite parse_float
largest = refl

too_small : is_positive (parse_float "2e-324") ≡ false
unfolding is_positive parse_float
too_small = refl

smallest : is_positive (parse_float "3e-324") ≡ true
unfolding is_positive parse_float
smallest = refl
