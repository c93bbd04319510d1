-- ===== src/Form/Models.antt =====
-- The form models of react-app/src/components/forms: SendTokenForm, StakeTokenForm,
-- UnstakeTokenForm, DepositProposalForm, VoteProposalForm, CollectRewardsForm, CreateProposalForm and
-- SubmitProposalForm, each from its file <name>Model.ts. The fields that are no texts (the proposal's
-- id, the vote option and the proposal's type) are read as the texts that the inputs hold.
use likedao.Common.{ℕ, none, some, List, [], ◌∷◌, String, str_eq, any, Result}
use likedao.BigNumber.{BigNumberLib}
use likedao.Form.Validators.{
  ValidateResult, or_message, RegisterOptions, required_validator, max_length_validator,
  is_finite_validator, is_greater_than_zero, address_validator, less_than, invalid_type,
}

module _ (N : BigNumberLib) where
  open N use {BigNumber, of_string, is_less_than_or_equal}

  -- the validator `isLessThanMax`, which five models repeat
  unfoldable pub is_less_than_max : BigNumber → String → ValidateResult BigNumber
  unfolding or_message
  is_less_than_max available v =
      or_message (is_less_than_or_equal (of_string v) available) (less_than available)

-- `decode` is `bech32.decode(v).words`
module _ (N : BigNumberLib) (decode : String → Result (List ℕ)) where
  open N use {BigNumber}

  abbrev pub memo_options : RegisterOptions BigNumber
  memo_options = record {
    required = none;
    max_length = some (max_length_validator 140);
    validate = [];
  }

  -- an address, for the validator and the recipient
  abbrev pub address_options : RegisterOptions BigNumber
  address_options = record {
    required = some required_validator;
    max_length = none;
    validate = address_validator decode ∷ [];
  }

  abbrev pub required_options : RegisterOptions BigNumber
  required_options = record { required = some required_validator; max_length = none; validate = [] }

  -- the field `amount` of the four forms that move tokens
  abbrev pub amount_options : BigNumber → RegisterOptions BigNumber
  amount_options available = record {
    required = some required_validator;
    max_length = none;
    validate = is_finite_validator ∷ is_greater_than_zero ∷ is_less_than_max N available ∷ [];
  }

  pub record SendTokenOptions : Type 0 where
    pub recipent : RegisterOptions BigNumber
    pub amount : RegisterOptions BigNumber
    pub memo : RegisterOptions BigNumber

  unfoldable pub send_token_form_model : BigNumber → SendTokenOptions
  send_token_form_model available = record {
    recipent = address_options;
    amount = amount_options available;
    memo = memo_options;
  }

  -- of the forms for stakes and unstakes
  pub record StakeTokenOptions : Type 0 where
    pub validator : RegisterOptions BigNumber
    pub amount : RegisterOptions BigNumber
    pub memo : RegisterOptions BigNumber

  unfoldable pub stake_token_form_model : BigNumber → StakeTokenOptions
  stake_token_form_model available = record {
    validator = address_options;
    amount = amount_options available;
    memo = memo_options;
  }

  unfoldable pub unstake_token_form_model : BigNumber → StakeTokenOptions
  unstake_token_form_model available = record {
    validator = address_options;
    amount = amount_options available;
    memo = memo_options;
  }

  pub record DepositProposalOptions : Type 0 where
    pub proposal_id : RegisterOptions BigNumber
    pub amount : RegisterOptions BigNumber
    pub memo : RegisterOptions BigNumber

  unfoldable pub deposit_proposal_form_model : BigNumber → DepositProposalOptions
  deposit_proposal_form_model available = record {
    proposal_id = required_options;
    amount = amount_options available;
    memo = memo_options;
  }

  pub record VoteProposalOptions : Type 0 where
    pub proposal_id : RegisterOptions BigNumber
    pub option : RegisterOptions BigNumber
    pub memo : RegisterOptions BigNumber

  unfoldable pub vote_proposal_form_model : VoteProposalOptions
  vote_proposal_form_model = record {
    proposal_id = required_options;
    option = required_options;
    memo = memo_options;
  }

  unfoldable pub collect_rewards_form_model : RegisterOptions BigNumber
  collect_rewards_form_model = record { required = none; max_length = none; validate = [] }

  -- `Object.values(ProposalType)`
  abbrev pub proposal_type_values : List String
  proposal_type_values =
      "Signaling" ∷ "ParameterChange" ∷ "CommunityPoolSpend" ∷ "SoftwareUpgrade"
      ∷ "CancelSoftwareUpgrade" ∷ []

  unfoldable pub one_of_valid_types : String → ValidateResult BigNumber
  unfolding or_message
  one_of_valid_types v = or_message (any (str_eq v) proposal_type_values) invalid_type

  pub record CreateProposalOptions : Type 0 where
    pub type : RegisterOptions BigNumber
    pub title : RegisterOptions BigNumber
    pub description : RegisterOptions BigNumber

  unfoldable pub create_proposal_form_model : CreateProposalOptions
  unfolding one_of_valid_types
  create_proposal_form_model = record {
    type = record {
      required = some required_validator;
      max_length = none;
      validate = one_of_valid_types ∷ [];
    };
    title = record {
      required = some required_validator;
      max_length = some (max_length_validator 140);
      validate = [];
    };
    description = record {
      required = none;
      max_length = some (max_length_validator 5000);
      validate = [];
    };
  }

  pub record SubmitProposalOptions : Type 0 where
    pub created : CreateProposalOptions
    pub amount : RegisterOptions BigNumber
    pub memo : RegisterOptions BigNumber

  unfoldable pub submit_proposal_form_model : BigNumber → SubmitProposalOptions
  unfolding create_proposal_form_model
  submit_proposal_form_model available = record {
    created = create_proposal_form_model;
    amount = record {
      required = some required_validator;
      max_length = none;
      validate = is_finite_validator ∷ is_less_than_max N available ∷ [];
    };
    memo = memo_options;
  }
