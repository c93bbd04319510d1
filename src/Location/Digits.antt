-- ===== src/Location/Digits.antt =====
-- `String(n)` and `parseInt(text, 10)` of JavaScript, for whole numbers. A double is exact up to
-- 2^53, which no page number comes near.
use Prim.Native.Char.{Char, code}
use mathlib.Core.Path.{subst}
use likedao.Common.{
  ℕ, zero, suc, ◌+◌, ◌*◌, ◌/◌, ◌%◌, ◌<◌, ◌≤◌, ◌≡◌, refl, sym, ap, ◌∙◌, false, Bool-cases, inl, inr,
  Option, none, some, List, [], ◌∷◌, String, All, length, arith, ltb, ◌==◌, if◌then◌else◌,
}
use likedao.Common.Int.{ℤ, pos, negate}
use likedao.Form.ParseFloat.{codes, skip_spaces, is_space, Digits, read_digits}

abbrev digit_char : ℕ → Char
digit_char zero = "0"
digit_char (suc zero) = "1"
digit_char (suc (suc zero)) = "2"
digit_char (suc (suc (suc zero))) = "3"
digit_char (suc (suc (suc (suc zero)))) = "4"
digit_char (suc (suc (suc (suc (suc zero))))) = "5"
digit_char (suc (suc (suc (suc (suc (suc zero)))))) = "6"
digit_char (suc (suc (suc (suc (suc (suc (suc zero))))))) = "7"
digit_char (suc (suc (suc (suc (suc (suc (suc (suc zero)))))))) = "8"
digit_char n = "9"

abbrev pub text_of : List ℕ → String
text_of [] = String.[]
text_of (d ∷ ds) = String.◌∷◌ (digit_char d) (text_of ds)

-- the decimal digits of n, before `later`; the fuel suc n is enough
digits : ℕ → ℕ → List ℕ → List ℕ
digits zero n later = later
digits (suc fuel) n later =
    let rest = digits fuel (n / 10) (n % 10 ∷ later) in if ltb n 10 then n ∷ later else rest

-- `String(n)`
unfoldable pub show : ℕ → String
unfolding digits
show n = text_of (digits (suc n) n [])

-- the digits that were read, with the sign; without one the number is NaN, which is none here
signed_value : (ℤ → ℤ) → Digits → Option ℤ
signed_value sign digits = if digits.count == 0 then none else some (sign (pos digits.value))

signed_int : List ℕ → Option ℤ
unfolding signed_value read_digits
signed_int [] = none
signed_int (c ∷ cs) =
    if c == b'-'
    then signed_value negate (read_digits 0 0 cs)
    else if c == b'+'
    then signed_value (λ n. n) (read_digits 0 0 cs)
    else signed_value (λ n. n) (read_digits 0 0 (c ∷ cs))

-- `parseInt(text, 10)`
unfoldable pub parse_int : String → Option ℤ
unfolding skip_spaces signed_int
parse_int text = signed_int (skip_spaces (codes text))

show_test : show 2040 ≡ "2040"
unfolding show
show_test = refl

parse_test : parse_int " 42px" ≡ some (pos 42)
unfolding parse_int
parse_test = refl

parse_nothing : parse_int "page" ≡ none
unfolding parse_int
parse_nothing = refl

-- the number that digits stand for, after those of `v`
eval : ℕ → List ℕ → ℕ
eval v [] = v
eval v (d ∷ ds) = eval (v * 10 + d) ds

code_digit : (d : ℕ) → d < 10 → code (digit_char d) ≡ b'0' + d
code_digit zero h = refl
code_digit (suc zero) h = refl
code_digit (suc (suc zero)) h = refl
code_digit (suc (suc (suc zero))) h = refl
code_digit (suc (suc (suc (suc zero)))) h = refl
code_digit (suc (suc (suc (suc (suc zero))))) h = refl
code_digit (suc (suc (suc (suc (suc (suc zero)))))) h = refl
code_digit (suc (suc (suc (suc (suc (suc (suc zero))))))) h = refl
code_digit (suc (suc (suc (suc (suc (suc (suc (suc zero)))))))) h = refl
code_digit (suc (suc (suc (suc (suc (suc (suc (suc (suc zero))))))))) h = refl
code_digit (suc (suc (suc (suc (suc (suc (suc (suc (suc (suc n)))))))))) h = absurd (omega arith)

abbrev IsDecimal : List ℕ → Type 0
IsDecimal = All (λ d. d < 10)

read_digits-text_of :
    (v n : ℕ) (ds : List ℕ)
    → IsDecimal ds
    → read_digits v n (codes (text_of ds))
      ≡ record { value = eval v ds; count = n + length ds; rest = [] }
unfolding read_digits eval
read_digits-text_of v n [] h = ground arith
read_digits-text_of v n (d ∷ ds) (small, h) =
    rw (code_digit d small) (ground (arith, read_digits-text_of (v * 10 + d) (n + 1) ds h))

digits-IsDecimal : (fuel n : ℕ) (later : List ℕ) → IsDecimal later → IsDecimal (digits fuel n later)
unfolding digits
digits-IsDecimal zero n later h = h
digits-IsDecimal (suc fuel) n later h = elim (Bool-cases (ltb n 10)) [
  | inl small ↦ rw small (ground arith, h)
  | inr large ↦ rw large (digits-IsDecimal fuel (n / 10) (n % 10 ∷ later) (omega arith, h))
]

eval-digits : (fuel n : ℕ) (later : List ℕ) → n < fuel → eval 0 (digits fuel n later) ≡ eval n later
unfolding digits eval
eval-digits zero n later h = absurd (omega arith)
eval-digits (suc fuel) n later h = elim (Bool-cases (ltb n 10)) [
  | inl small ↦ rw small (ap (λ v. eval v later) (omega arith))
  | inr large ↦ rw large (
      eval-digits fuel (n / 10) (n % 10 ∷ later) (ground arith)
      ∙ ap (λ v. eval v later) (omega arith))
]

is_space-digit : (c : ℕ) → 48 ≤ c → c < 58 → is_space c ≡ false
unfolding is_space
is_space-digit c h k = ground arith

-- the text of a number begins with a digit
parse_int-text_of :
    (d : ℕ) (ds : List ℕ)
    → IsDecimal (d ∷ ds)
    → parse_int (text_of (d ∷ ds)) ≡ some (pos (eval 0 (d ∷ ds)))
unfolding parse_int
parse_int-text_of d ds (small, h) =
    let c = code (digit_char d) in
    let e = code_digit d small in
    let read = read_digits-text_of 0 0 (d ∷ ds) (small, h) in
    simp (is_space-digit c (omega (arith, e)) (omega (arith, e)), read, signed_value)
      (ground (arith, e))

digits-cons :
    (fuel n : ℕ) (d : ℕ) (later : List ℕ)
    → (e : ℕ) × (es : List ℕ) × (digits fuel n (d ∷ later) ≡ e ∷ es)
unfolding digits
digits-cons zero n d later = (d, later, refl)
digits-cons (suc fuel) n d later = elim (Bool-cases (ltb n 10)) [
  | inl small ↦ (n, d ∷ later, rw small refl)
  | inr large ↦ rw large (digits-cons fuel (n / 10) (n % 10) (d ∷ later))
]

digits-nonempty :
    (fuel n : ℕ) (later : List ℕ) → (e : ℕ) × (es : List ℕ) × (digits (suc fuel) n later ≡ e ∷ es)
unfolding digits
digits-nonempty fuel n later = elim (Bool-cases (ltb n 10)) [
  | inl small ↦ (n, later, rw small refl)
  | inr large ↦ rw large (digits-cons fuel (n / 10) (n % 10) later)
]

-- The text of a whole number is read as that number.
pub parse_int-show : (n : ℕ) → parse_int (show n) ≡ some (pos n)
unfolding show eval
parse_int-show n =
    let (d, ds, e) = digits-nonempty n n [] in
    let decimal = subst IsDecimal e (digits-IsDecimal (suc n) n [] tt) in
    let value = ap (eval 0) (sym e) ∙ eval-digits (suc n) n [] (omega arith) in
    rw e (parse_int-text_of d ds decimal ∙ ap (λ k. some (pos k)) value)
