-- ===== src/Message.antt =====
-- The transaction messages of react-app/src/models/cosmos. `fromPartial` of the generated codecs
-- keeps the fields that it is given; the codecs of proposal contents are a parameter.
use likedao.Common.{ℕ, List, String, []}

-- `Coin` of the package @cosmjs/stargate
pub record Coin : Type 0 where
  pub denom : String
  pub amount : String

pub data ProposalType : Type 0 where
  signaling parameter_change community_pool_spend software_upgrade cancel_software_upgrade :
      ProposalType

pub data VoteOption : Type 0 where
  abstain vote_no no_with_veto vote_yes : VoteOption

-- the enum's string, which `voteOptionFromJSON` reads
abbrev pub vote_option_json : VoteOption → String
vote_option_json abstain = "VOTE_OPTION_ABSTAIN"
vote_option_json vote_no = "VOTE_OPTION_NO"
vote_option_json no_with_veto = "VOTE_OPTION_NO_WITH_VETO"
vote_option_json vote_yes = "VOTE_OPTION_YES"

pub record AnyMessage : Type 0 where
  pub type_url : String
  pub value : List ℕ

-- the `value` of a message, by its type
pub data MessageValue : Type 0 where
  send : (from_address to_address : String) (amount : List Coin) → MessageValue
  delegate undelegate :
      (delegator_address validator_address : String) (amount : Coin) → MessageValue
  withdraw_delegator_reward : (delegator_address validator_address : String) → MessageValue
  submit_proposal :
      (content : AnyMessage) (proposer : String) (initial_deposit : List Coin) → MessageValue
  vote : (proposal_id : ℕ) (voter option : String) → MessageValue
  deposit : (proposal_id : ℕ) (depositor : String) (amount : List Coin) → MessageValue

pub record EncodeObject : Type 0 where
  pub type_url : String
  pub value : MessageValue

unfoldable pub new_send_message : String → String → List Coin → EncodeObject
new_send_message from_address to_address amount = record {
  type_url = "/cosmos.bank.v1beta1.MsgSend";
  value = send from_address to_address amount;
}

unfoldable pub new_delegate_message : String → String → Coin → EncodeObject
new_delegate_message delegator validator amount = record {
  type_url = "/cosmos.staking.v1beta1.MsgDelegate";
  value = delegate delegator validator amount;
}

unfoldable pub new_undelegate_message : String → String → Coin → EncodeObject
new_undelegate_message delegator validator amount = record {
  type_url = "/cosmos.staking.v1beta1.MsgUndelegate";
  value = undelegate delegator validator amount;
}

unfoldable pub new_withdraw_delegator_reward_message : String → String → EncodeObject
new_withdraw_delegator_reward_message delegator validator = record {
  type_url = "/cosmos.distribution.v1beta1.MsgWithdrawDelegatorReward";
  value = withdraw_delegator_reward delegator validator;
}

unfoldable pub make_vote_message : ℕ → String → VoteOption → EncodeObject
make_vote_message proposal_id voter option = record {
  type_url = "/cosmos.gov.v1beta1.MsgVote";
  value = vote proposal_id voter (vote_option_json option);
}

unfoldable pub make_deposit_message : ℕ → String → List Coin → EncodeObject
make_deposit_message proposal_id depositor amount = record {
  type_url = "/cosmos.gov.v1beta1.MsgDeposit";
  value = deposit proposal_id depositor amount;
}

pub record ProposalContentBody (P : Type 0) : Type 0 where
  pub type : ProposalType
  pub proposal : P

abbrev pub content_type_url : ProposalType → String
content_type_url signaling = "/cosmos.gov.v1beta1.TextProposal"
content_type_url parameter_change = "/cosmos.params.v1beta1.ParameterChangeProposal"
content_type_url community_pool_spend =
    "/cosmos.distribution.v1beta1.CommunityPoolSpendProposalWithDeposit"
content_type_url software_upgrade = "/cosmos.upgrade.v1beta1.SoftwareUpgradeProposal"
content_type_url cancel_software_upgrade = "/cosmos.upgrade.v1beta1.CancelSoftwareUpgradeProposal"

-- `encode type` is the generated encoder of that type's proposal
module _ {P : Type 0} (encode : ProposalType → P → List ℕ) where
  unfoldable pub make_proposal_content : ProposalContentBody P → AnyMessage
  make_proposal_content body = record {
    type_url = content_type_url body.type;
    value = encode body.type body.proposal;
  }

  unfoldable pub make_submit_proposal_message :
      ProposalContentBody P → List Coin → String → EncodeObject
  unfolding make_proposal_content
  make_submit_proposal_message content initial_deposit proposer = record {
    type_url = "/cosmos.gov.v1beta1.MsgSubmitProposal";
    value = submit_proposal (make_proposal_content content) proposer initial_deposit;
  }

-- models/cosmos/tx.ts: the document that is signed to prove the ownership of an address
pub record SignDoc : Type 0 where
  pub chain_id : String
  pub account_number : String
  pub sequence : String
  pub gas : String
  pub fee_amount : List Coin
  pub msg_type : String
  pub signer : String
  pub msg_data : String
  pub memo : String

pub new_sign_data_message : String → String → SignDoc
new_sign_data_message signer text = record {
  chain_id = "";
  account_number = "0";
  sequence = "0";
  gas = "0";
  fee_amount = [];
  msg_type = "sign/MsgSignData";
  signer = signer;
  msg_data = text;
  memo = "";
}
