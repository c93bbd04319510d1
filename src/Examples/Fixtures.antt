-- ===== src/Examples/Fixtures.antt =====
-- A session with a connected wallet, and the chain that answers it.
use likedao.Common.{ℕ, Option, none, some, [], ◌∷◌, String, Result, ok, err, error}
use likedao.BigNumber.Decimal.{decimals}
use likedao.Config.{default_config}
use likedao.Message.{Coin, new_sign_data_message}
use likedao.Chain.{
  TotalRewards, Validator, Bytes, DelegationResponse, UnbondingDelegation, Page, QueryClient,
  WalletClient, Bech32, Wallet, connected, Session,
}

abbrev pub nanolike : String → Coin
nanolike amount = record { denom = "nanolike"; amount = amount }

abbrev pub delegation_to : String → String → DelegationResponse
delegation_to validator amount = record {
  delegation =
      some (record { delegator_address = "like1"; validator_address = validator; shares = amount });
  balance = some (nanolike amount);
}

-- two pages of delegations
abbrev pub delegations : String → Option Bytes → Result (Page DelegationResponse)
delegations address none =
    ok (record { responses = delegation_to "val1" "7000000000" ∷ []; next_key = some (1 ∷ []) })
delegations address (some key) =
    ok (record { responses = delegation_to "val2" "2000000000" ∷ []; next_key = some [] })

abbrev pub unbondings : String → Option Bytes → Result (Page UnbondingDelegation)
unbondings address key = ok (record {
  responses =
      record { validator_address = "val1"; entries = record { balance = "1000000000" } ∷ [] } ∷ [];
  next_key = none;
})

abbrev pub validator_of : String → Validator
validator_of address = record {
  operator_address = address;
  description = some (record { moniker = address });
  tokens = "50";
  commission = none;
  consensus_pubkey = some (1 ∷ []);
  min_self_delegation = "1000000000";
}

abbrev pub total_rewards : TotalRewards
total_rewards = record {
  rewards =
      record { validator_address = "val1"; reward = nanolike "2000000000000000000000000000" ∷ [] }
      ∷ record { validator_address = "val2"; reward = nanolike "1000000000000000000000000000" ∷ [] }
      ∷ [];
  total = nanolike "3000000000000000000000000000" ∷ [];
}

abbrev pub query : QueryClient
query = record {
  bank_balance = λ address denom. ok (record { denom = denom; amount = "5000000000" });
  bank_total_supply = ok (nanolike "9000000000" ∷ []);
  staking_delegation = λ delegator validator. err (error "rpc error: NotFound");
  staking_delegator_delegations = delegations;
  staking_delegator_unbonding = unbondings;
  staking_pool = ok (some (record { bonded_tokens = "100"; not_bonded_tokens = "1" }));
  staking_validator = λ address. ok (some (validator_of address));
  delegation_total_rewards = λ address. ok total_rewards;
  delegation_rewards = λ delegator validator. err (error "delegation does not exist");
  validator_commission = λ address. ok none;
  gov_deposit_params =
      ok (some (record { min_deposit = nanolike "1000000000" ∷ []; max_deposit_period = 500 }));
  gov_tally_params =
      ok (
        some
          (record { quorum = 51 ∷ 51 ∷ []; threshold = 53 ∷ 48 ∷ []; veto_threshold = 49 ∷ [] }));
  gov_voting_params = ok (some 1000);
  signing_info = λ address. ok (some (record { start_height = 1; missed_blocks_counter = 0 }));
  auth_account = λ address. ok (some address);
}

abbrev pub signer : WalletClient
signer = record {
  Fee = ℕ;
  TxRaw = Bytes;
  calculate_fee = λ gas price. gas;
  simulate = λ address messages memo. ok 100000;
  sign = λ address messages fee memo. ok (fee ∷ []);
  encode_tx = λ tx. tx;
  broadcast_tx = λ tx. ok (record { code = 0; raw_log = "" });
  sign_arbitrary = λ address text.
      ok (record { signed = new_sign_data_message address text; signature = "signature" });
  get_balance_staked = λ address. ok (some (nanolike "9000000000"));
}

abbrev pub codec : Bech32
codec = record {
  normalize = λ address. ok address;
  from_bech32 = λ address. ok (1 ∷ 2 ∷ []);
  to_bech32 = λ prefix bytes. prefix;
}

abbrev pub session_of : Wallet → Session
session_of wallet = record {
  numbers = decimals;
  chain = default_config.chain_info;
  query = query;
  signer = signer;
  bech32 = codec;
  wallet = wallet;
}

abbrev pub session : Session
session = session_of (connected "like1")
