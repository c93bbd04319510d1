-- ===== src/Examples/Validators.antt =====
-- The page of a validator, on the same session.
use likedao.Common.{ℕ, ◌≡◌, refl, ◌≢◌, ◌↔◌, none, some, [], ◌∷◌, String, Result, ok}
use likedao.Amount.{BigNumberCoin}
use likedao.Chain.{connected}
use likedao.Api.Cosmos.{translate_address}
use likedao.Api.Staking.{get_pool, get_validator, get_delegation, null_on, read_delegation}
use likedao.Api.Distribution.{get_delegation_rewards_by_validator, query_rewards}
use likedao.Api.Gov.{get_signing_info}
use likedao.Request.{loading, loaded}
use likedao.ValidatorDetail.{
  KeyCodec, ed25519, Stake, ValidatorDetail, in_tokens, convert_commission, fetch_validator, detail,
  detail_of, wallet_stake, wallet_reward, convert_pub_key_to_consensus_address, pub_key_to_bech32,
  bech32_of,
}
use likedao.ValidatorDetail.Stake.{fetch_validator-stake}
use likedao.Examples.Fixtures.{session}

abbrev keys : KeyCodec
keys = record {
  decode = λ bytes. ok (ed25519 bytes);
  pubkey_to_raw_address = λ type bytes. ok bytes;
}

abbrev shown : ValidatorDetail session keys
shown = record {
  operator_address = "val1";
  consensus_pub_addr = "likevalcons";
  tokens = in_tokens session keys "50";
  commission = convert_commission session keys none;
  min_self_delegation = in_tokens session keys "1000000000";
  self_delegation = none;
  self_delegation_address = "like";
  signing_info = record { start_height = 1; missed_blocks_counter = 0 };
  stake = none;
}

abbrev provisions : Result ℕ
provisions = ok 7

val1_shown : fetch_validator session keys (ok 100) provisions "val1" ≡ loading ∷ loaded shown ∷ []
unfolding fetch_validator detail detail_of wallet_stake wallet_reward get_pool get_validator
    get_delegation null_on read_delegation get_delegation_rewards_by_validator query_rewards
    get_signing_info translate_address convert_pub_key_to_consensus_address pub_key_to_bech32
    bech32_of
val1_shown = refl

fetch_validator-stake_example :
    (((a : String) → session.wallet ≢ connected a) → shown.stake ≡ none)
    × ((a : String)
        → session.wallet ≡ connected a
        → (stake : Stake session keys) (reward : BigNumberCoin session.numbers.BigNumber)
        → (shown.stake ≡ some (stake, reward)) ↔ (
            (get_delegation session a "val1" ≡ ok (some stake))
            × (get_delegation_rewards_by_validator session a "val1" ≡ ok (some reward))))
fetch_validator-stake_example =
    fetch_validator-stake session keys (ok 100) provisions "val1" shown val1_shown
