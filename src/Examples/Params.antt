-- ===== src/Examples/Params.antt =====
-- The governance parameters of a chain that answers all of them.
use likedao.Common.{ℕ, ◌≡◌, refl, ap, sym, some, [], ◌∷◌, String, Result, ok, ok-injective}
use likedao.Chain.{Bytes, RawDepositParams}
use likedao.Api.Bank.{to_minimal}
use likedao.Form.ParseFloat.{read_digits}
use likedao.Api.Gov.{
  CosmosDecimal, convert_uint8_array_to_decimal, GovParams, get_min_deposit_from_all,
  get_deposit_params, get_tally_params, get_voting_params, get_all_params,
}
use likedao.Api.Params.{number_of, HoldsNumber, FirstMinimal, TallyRead, get_all_params-read}
use likedao.Examples.Fixtures.{session}

abbrev to_utf8 : Bytes → String
to_utf8 [] = ""
to_utf8 (x ∷ []) = "1"
to_utf8 (x ∷ y ∷ rest) = "33"

abbrev from_atomics : String → ℕ → Result CosmosDecimal
from_atomics atomics digits =
    ok (record { atomics = number_of atomics; fractional_digits = digits })

from_atomics-HoldsNumber : HoldsNumber to_utf8 from_atomics
from_atomics-HoldsNumber atomics digits d h =
    let e = ok-injective (record { atomics = number_of atomics; fractional_digits = digits }) d h in
    (ap (λ d. d.atomics) (sym e), ap (λ d. d.fractional_digits) (sym e))

abbrev params : GovParams session.numbers.BigNumber
params = record {
  deposit = record {
    min_deposit =
        get_min_deposit_from_all session
          (some (record { denom = "nanolike"; amount = "1000000000" } ∷ []));
    max_deposit_period = 500;
  };
  tally = record {
    quorum = record { atomics = 33; fractional_digits = 2 };
    threshold = record { atomics = 33; fractional_digits = 2 };
    veto_threshold = record { atomics = 1; fractional_digits = 1 };
  };
  voting_period = 1000;
}

params_loaded : get_all_params session to_utf8 from_atomics ≡ ok params
unfolding get_all_params get_deposit_params get_tally_params get_voting_params
    convert_uint8_array_to_decimal read_digits
params_loaded = refl

get_all_params-read_example :
    ((raw : RawDepositParams) × (session.query.gov_deposit_params ≡ ok (some raw))
      × (params.deposit.min_deposit.denom ≡ session.chain.currency.coin_denom)
      × FirstMinimal session raw.min_deposit (to_minimal session params.deposit.min_deposit.amount)
      × (params.deposit.max_deposit_period ≡ raw.max_deposit_period))
    × (session.query.gov_voting_params ≡ ok (some params.voting_period))
    × TallyRead to_utf8 from_atomics session params.tally
get_all_params-read_example =
    get_all_params-read to_utf8 from_atomics session from_atomics-HoldsNumber params params_loaded
