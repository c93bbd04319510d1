-- ===== src/Form/Validators.antt =====
-- react-app/src/hooks/useFormValidators.ts. A validator answers with the message that is
-- translated; its text is left to the translations. `RegisterOptions` and `Passes` are what
-- react-hook-form documents of the options that the forms use.
use Prim.Native.Char.{code}
use likedao.Common.{
  ℕ, ◌+◌, ◌≤◌, ◌≡◌, ◌≢◌, Bool, true, false, Option, none, some, List, [], ◌∷◌, String, All, arith,
  Result, ok, err, leb, if◌then◌else◌,
}
use likedao.Form.ParseFloat.{parse_float, is_finite, is_positive}

pub data ValidationMessage (B : Type 0) : Type 0 where
  required_message infinite_message invalid_address invalid_type : ValidationMessage B
  max_length_message min_length_message greater_than : ℕ → ValidationMessage B
  less_than : B → ValidationMessage B

-- `true`, `false`, or a text
pub data ValidateResult (B : Type 0) : Type 0 where
  passed refused : ValidateResult B
  failed_with : ValidationMessage B → ValidateResult B

-- `condition || text`
unfoldable pub or_message : {B : Type 0} → Bool → ValidationMessage B → ValidateResult B
or_message true m = passed
or_message false m = failed_with m

-- `value.length`, in units of UTF-16
abbrev pub text_length : String → ℕ
text_length String.[] = 0
text_length (String.◌∷◌ c s) = (if leb 65536 (code c) then 2 else 1) + text_length s

pub record ValidationRule (V B : Type 0) : Type 0 where
  pub value : V
  pub message : ValidationMessage B

-- `required: false` is none
pub record RegisterOptions (B : Type 0) : Type 0 where
  pub required : Option (ValidationRule Bool B)
  pub max_length : Option (ValidationRule ℕ B)
  pub validate : List (String → ValidateResult B)

abbrev pub IsPresent : {B : Type 0} → Option (ValidationRule Bool B) → String → Type 0
IsPresent none v = Unit
IsPresent (some rule) v = rule.value ≡ true → v ≢ ""

abbrev pub IsShort : {B : Type 0} → Option (ValidationRule ℕ B) → String → Type 0
IsShort none v = Unit
IsShort (some rule) v = text_length v ≤ rule.value

-- the form is handed to `onSubmit` only if this holds of each of its fields
abbrev pub Passes : {B : Type 0} → RegisterOptions B → String → Type 0
Passes options v =
    IsPresent options.required v
    × IsShort options.max_length v
    × All (λ validator. validator v ≡ passed) options.validate

module _ {B : Type 0} where
  abbrev pub required_validator : ValidationRule Bool B
  required_validator = record { value = true; message = required_message }

  abbrev pub max_length_validator : ℕ → ValidationRule ℕ B
  max_length_validator max_length = record {
    value = max_length;
    message = max_length_message max_length;
  }

  abbrev pub min_length_validator : ℕ → ValidationRule ℕ B
  min_length_validator min_length = record {
    value = min_length;
    message = min_length_message min_length;
  }

  unfoldable pub is_finite_validator : String → ValidateResult B
  unfolding or_message
  is_finite_validator v = or_message (is_finite (parse_float v)) infinite_message

  unfoldable pub is_greater_than_zero : String → ValidateResult B
  unfolding or_message
  is_greater_than_zero v = or_message (is_positive (parse_float v)) (greater_than 0)

  -- whether the words that were decoded are any
  words_answer : Result (List ℕ) → ValidateResult B
  words_answer (ok []) = refused
  words_answer (ok (w ∷ words)) = passed
  words_answer (err e) = failed_with invalid_address

  -- `decode` is `bech32.decode(v).words`
  unfoldable pub address_validator : (String → Result (List ℕ)) → String → ValidateResult B
  unfolding words_answer
  address_validator decode v = words_answer (decode v)

  pub or_message-eq_passed :
      (b : Bool) (m : ValidationMessage B) → or_message b m ≡ passed → b ≡ true
  unfolding or_message
  or_message-eq_passed b m h = ground arith
