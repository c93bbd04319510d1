-- ===== src/Api/Params.antt =====
-- What the governance API reads of the chain's parameters.
use mathlib.Core.Path.{subst}
use native.Mathlib.Nat.{mul-div_cancel_left, pow-suc, one-le-pow, pow-le-pow_right}
use likedao.Common.{
  ℕ, zero, suc, ◌*◌, ◌/◌, ◌^◌, ◌≤◌, ◌<◌, ◌≡◌, ◌≢◌, refl, ap, sym, ◌∙◌, ◌↔◌, ◌⊎◌, inl, inr, some,
  List, [], ◌∷◌, String, str_eq, str_eq_iff, Bool-cases, Result, ok, >>=-eq-ok, ok-injective,
  or_throw, or_throw-eq-ok, length, arith,
}
use likedao.Message.{Coin}
use likedao.Amount.{convert_round_trip}
use likedao.Chain.{Bytes, RawDepositParams, RawTallyParams, Session}
use likedao.Form.ParseFloat.{codes, read_digits}
use likedao.Api.Bank.{to_minimal, amount_or_zero, find_minimal}
use likedao.Api.Gov.{
  CosmosDecimal, convert_uint8_array_to_decimal, TallyParams, GovParams, get_deposit_params,
  get_voting_params, get_tally_params, get_all_params,
}

power_grows : (k l : ℕ) → k < l → 10 ^ k < 10 ^ l
power_grows k l h =
    let next : 10 ^ suc k ≤ 10 ^ l = pow-le-pow_right (omega arith) (omega (arith, h)) in
    let positive : 1 ≤ 10 ^ k = one-le-pow k 10 (omega arith) in
    omega (arith, next, positive, pow-suc 10 k)

power_injective : (k l : ℕ) → 10 ^ k ≡ 10 ^ l → k ≡ l
power_injective k l h = elim (ℕ-cases k l) [
  | inl e ↦ e
  | inr (inl below) ↦ absurd (omega (arith, h, power_grows k l below))
  | inr (inr above) ↦ absurd (omega (arith, h, power_grows l k above))
]
  where
    ℕ-cases : (k l : ℕ) → (k ≡ l) ⊎ (k < l) ⊎ (l < k)
    ℕ-cases k l = ground arith

-- a number over two powers of ten is the same exactly where it is 0, or the powers are
same_rate_iff : (n k l : ℕ) → (n * 10 ^ k ≡ n * 10 ^ l) ↔ ((n ≡ 0) ⊎ (l ≡ k))
same_rate_iff zero k l = (λ h. inl refl, λ h. omega arith)
same_rate_iff (suc n) k l =
    let cancels : (m : ℕ) → suc n * m / suc n ≡ m = λ m. mul-div_cancel_left m (omega arith) in
    (
      λ h. inr (
          sym (
            power_injective k l
              (sym (cancels (10 ^ k)) ∙ (ap (λ m. m / suc n) h ∙ cancels (10 ^ l))))),
      elim [ inl z ↦ absurd (omega arith) | inr e ↦ ap (λ m. suc n * 10 ^ m) (sym e) ],
    )

-- the number that a text of digits stands for
abbrev pub number_of : String → ℕ
number_of text = (read_digits 0 0 (codes text)).value

module _ (s : Session) where
  open s.numbers use {BigNumber, of_string, big_zero}
  open s.chain.currency use {coin_minimal_denom}

  -- the amount of the first coin of the minimal denomination, or none
  pub data FirstMinimal : List Coin → BigNumber → Type 0 where
    none_listed : FirstMinimal [] big_zero
    found_first :
        (coin : Coin) (coins : List Coin)
        → coin.denom ≡ coin_minimal_denom
        → FirstMinimal (coin ∷ coins) (of_string coin.amount)
    found_later :
        (coin : Coin) (coins : List Coin) (amount : BigNumber)
        → coin.denom ≢ coin_minimal_denom
        → FirstMinimal coins amount
        → FirstMinimal (coin ∷ coins) amount

  find_minimal-FirstMinimal :
      (coins : List Coin) → FirstMinimal coins (amount_or_zero s (find_minimal s coins))
  find_minimal-FirstMinimal [] = none_listed
  find_minimal-FirstMinimal (coin ∷ coins) =
      let (to, from) = str_eq_iff coin.denom coin_minimal_denom in
      elim (Bool-cases (str_eq coin.denom coin_minimal_denom)) [
        | inl same ↦ simp same (found_first coin coins (to same))
        | inr differs ↦ simp differs (
            found_later coin coins _ (λ e. let same = from e in absurd cc)
              (find_minimal-FirstMinimal coins))
      ]

module _ (to_utf8 : Bytes → String) (from_atomics : String → ℕ → Result CosmosDecimal) where
  -- `Decimal.fromAtomics` takes digits only, and holds their number and how many are fractional
  abbrev pub HoldsNumber : Type 0
  HoldsNumber =
      (atomics : String) (digits : ℕ) (d : CosmosDecimal)
      → from_atomics atomics digits ≡ ok d
      → (d.atomics ≡ number_of atomics) × (d.fractional_digits ≡ digits)

  -- The chain's rates are texts of numbers with 18 decimals: what is read is such a rate only where
  -- that is 0, or has 18 bytes.
  pub record IsReadOf (bytes : Bytes) (d : CosmosDecimal) : Type 0 where
    pub number_read : d.atomics ≡ number_of (to_utf8 bytes)
    pub digits_read : d.fractional_digits ≡ length bytes
    pub is_rate_iff :
        (d.atomics * 10 ^ 18 ≡ number_of (to_utf8 bytes) * 10 ^ d.fractional_digits)
        ↔ ((number_of (to_utf8 bytes) ≡ 0) ⊎ (length bytes ≡ 18))

  convert-IsReadOf :
      HoldsNumber
      → (bytes : Bytes) (d : CosmosDecimal)
      → convert_uint8_array_to_decimal to_utf8 from_atomics bytes ≡ ok d
      → IsReadOf bytes d
  unfolding convert_uint8_array_to_decimal
  convert-IsReadOf holds bytes d h =
      let (number, digits) = holds (to_utf8 bytes) (length bytes) d h in
      record {
        number_read = number;
        digits_read = digits;
        is_rate_iff =
            rw (number, digits) (same_rate_iff (number_of (to_utf8 bytes)) 18 (length bytes));
      }

  pub record TallyRead (s : Session) (t : TallyParams) : Type 0 where
    pub raw : RawTallyParams
    pub answered : s.query.gov_tally_params ≡ ok (some raw)
    pub quorum_read : IsReadOf raw.quorum t.quorum
    pub threshold_read : IsReadOf raw.threshold t.threshold
    pub veto_threshold_read : IsReadOf raw.veto_threshold t.veto_threshold

  module _ (s : Session) (holds : HoldsNumber) where
    tally_read : (t : TallyParams) → get_tally_params s to_utf8 from_atomics ≡ ok t → TallyRead s t
    unfolding get_tally_params
    tally_read t h =
        let (found, answered, h) = >>=-eq-ok s.query.gov_tally_params _ h in
        let (raw, there, h) = >>=-eq-ok (or_throw found _) _ h in
        let (q, has_q, h) =
          >>=-eq-ok (convert_uint8_array_to_decimal to_utf8 from_atomics raw.quorum) _ h in
        let (r, has_r, h) =
          >>=-eq-ok (convert_uint8_array_to_decimal to_utf8 from_atomics raw.threshold) _ h in
        let (v, has_v, h) =
          >>=-eq-ok (convert_uint8_array_to_decimal to_utf8 from_atomics raw.veto_threshold) _ h in
        let e = ok-injective (record { quorum = q; threshold = r; veto_threshold = v }) t h in
        subst (TallyRead s) e (record {
          raw = raw;
          answered = answered ∙ ap ok (or_throw-eq-ok found _ there);
          quorum_read = convert-IsReadOf holds raw.quorum q has_q;
          threshold_read = convert-IsReadOf holds raw.threshold r has_r;
          veto_threshold_read = convert-IsReadOf holds raw.veto_threshold v has_v;
        })

    -- Where all the governance parameters are loaded, and `Decimal.fromAtomics` holds the number of
    -- the digits that it takes: the minimal deposit, converted to minimal units, is the amount of the
    -- first coin of that denomination that the chain answered, or 0; the two periods are the chain's;
    -- and each rate of the tally is the chain's number with as many fractional digits as its text has
    -- bytes, so that it is the chain's rate, which has 18 decimals, exactly where that is 0 or the
    -- text has 18 bytes.
    pub get_all_params-read :
        (p : GovParams s.numbers.BigNumber)
        → get_all_params s to_utf8 from_atomics ≡ ok p
        → ((raw : RawDepositParams) × (s.query.gov_deposit_params ≡ ok (some raw))
            × (p.deposit.min_deposit.denom ≡ s.chain.currency.coin_denom)
            × FirstMinimal s raw.min_deposit (to_minimal s p.deposit.min_deposit.amount)
            × (p.deposit.max_deposit_period ≡ raw.max_deposit_period))
          × (s.query.gov_voting_params ≡ ok (some p.voting_period))
          × TallyRead s p.tally
    unfolding get_all_params get_deposit_params get_voting_params
    get_all_params-read p h =
        let (deposit, has_deposit, h) = >>=-eq-ok (get_deposit_params s) _ h in
        let (tally, has_tally, h) = >>=-eq-ok (get_tally_params s to_utf8 from_atomics) _ h in
        let (period, has_period, h) = >>=-eq-ok (get_voting_params s) _ h in
        let e =
          ok-injective (record { deposit = deposit; tally = tally; voting_period = period }) p h in
        let (voting, voted, period_there) = >>=-eq-ok s.query.gov_voting_params _ has_period in
        let (found, answered, h') = >>=-eq-ok s.query.gov_deposit_params _ has_deposit in
        let (raw, there, h') = >>=-eq-ok (or_throw found _) _ h' in
        let d = ok-injective _ deposit h' in
        let loaded : deposit ≡ p.deposit = ap (λ p. p.deposit) e in
        let shown = ap (λ d. d.min_deposit) (d ∙ loaded) in
        let amount = amount_or_zero s (find_minimal s raw.min_deposit) in
        let back = (convert_round_trip s.numbers s.chain.currency.coin_decimals amount).1 in
        (
          (
            raw,
            answered ∙ ap ok (or_throw-eq-ok found _ there),
            sym (ap (λ c. c.denom) shown),
            subst (FirstMinimal s raw.min_deposit)
                (sym back ∙ ap (λ c. to_minimal s c.amount) shown)
                (find_minimal-FirstMinimal s raw.min_deposit),
            sym (ap (λ d. d.max_deposit_period) (d ∙ loaded)),
          ),
          voted ∙ ap ok (or_throw-eq-ok voting _ period_there ∙ ap (λ p. some p.voting_period) e),
          subst (λ (p : GovParams s.numbers.BigNumber). TallyRead s p.tally) e
              (tally_read tally has_tally),
        )
