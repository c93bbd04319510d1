-- ===== src/ValidatorDetail/Stake.antt =====
-- The stake that the page of a validator shows.
use likedao.Common.{
  ℕ, ◌≡◌, refl, sym, ap, ◌∙◌, ◌≢◌, ◌↔◌, Option, none, some, List, [], ◌∷◌, String, error, other,
  Result, ok, err, >>=-eq-ok, ok-injective, or_throw,
}
use likedao.Amount.{BigNumberCoin}
use likedao.Chain.{Validator, Session, Wallet, connecting, idle, connected}
use likedao.Api.Cosmos.{translate_address}
use likedao.Api.Staking.{get_pool, get_validator, get_delegation}
use likedao.Api.Distribution.{get_delegation_rewards_by_validator}
use likedao.Api.Gov.{get_signing_info}
use likedao.Request.{RequestState, loading, loaded}
use likedao.Portfolio.{settle}
use likedao.ValidatorDetail.{
  KeyCodec, Stake, ValidatorDetail, wallet_stake, wallet_reward, both, detail_of, detail,
  fetch_validator, convert_pub_key_to_consensus_address,
}

settle-eq-loaded :
    {A : Type 0} (r : Result A) (a : A)
    → ◌≡◌ {A = List (RequestState A)} (settle r) (loaded a ∷ [])
    → r ≡ ok a
settle-eq-loaded (ok b) a h = cc
settle-eq-loaded (err (error message)) a h = cc
settle-eq-loaded (err other) a h = cc

detail_of-stake :
    (s : Session) (keys : KeyCodec) (validator : Validator) (stake : Option (Stake s keys))
    (reward : Option (BigNumberCoin s.numbers.BigNumber)) (d : ValidatorDetail s keys)
    → detail_of s keys validator stake reward ≡ ok d
    → d.stake ≡ both s keys stake reward
unfolding detail_of
detail_of-stake s keys validator stake reward d h =
    let (key, has_key, h) = >>=-eq-ok (or_throw validator.consensus_pubkey _) _ h in
    let (consensus, has_consensus, h) =
      >>=-eq-ok (convert_pub_key_to_consensus_address s keys key) _ h in
    let (info, has_info, h) = >>=-eq-ok (get_signing_info s consensus) _ h in
    let (own, has_own, h) =
      >>=-eq-ok
        (translate_address s.bech32 validator.operator_address
          s.chain.bech32_config.prefix_acc_addr)
        _ h in
    let (self, has_self, h) = >>=-eq-ok (get_delegation s own validator.operator_address) _ h in
    ap (λ (d : ValidatorDetail s keys). d.stake) (sym (ok-injective _ d h))

module _ (s : Session) (keys : KeyCodec) {P : Type 0} (height : Result ℕ)
    (provisions : Result P) where
  -- the page's stake is made of the two answers about the wallet
  detail_answers :
      (address : String) (d : ValidatorDetail s keys)
      → detail s keys height provisions address ≡ ok d
      → (stake : Option (Stake s keys)) × (reward : Option (BigNumberCoin s.numbers.BigNumber))
        × (wallet_stake s keys s.wallet address ≡ ok stake)
        × (wallet_reward s keys s.wallet address ≡ ok reward)
        × (d.stake ≡ both s keys stake reward)
  unfolding detail
  detail_answers address d h =
      let (n, has_height, h) = >>=-eq-ok height _ h in
      let (p, has_provisions, h) = >>=-eq-ok provisions _ h in
      let (pool, has_pool, h) = >>=-eq-ok (get_pool s) _ h in
      let (validator, found, h) = >>=-eq-ok (get_validator s address) _ h in
      let (stake, staked, h) = >>=-eq-ok (wallet_stake s keys s.wallet address) _ h in
      let (reward, rewarded, h) = >>=-eq-ok (wallet_reward s keys s.wallet address) _ h in
      (stake, reward, staked, rewarded, detail_of-stake s keys validator stake reward d h)

  -- both answers are needed for a stake
  both_iff :
      (o : Option (Stake s keys)) (r : Option (BigNumberCoin s.numbers.BigNumber))
      (stake : Stake s keys) (reward : BigNumberCoin s.numbers.BigNumber)
      → (both s keys o r ≡ some (stake, reward)) ↔ ((o ≡ some stake) × (r ≡ some reward))
  both_iff none r stake reward = (λ h. cc, λ h. absurd (cc h.0))
  both_iff (some a) none stake reward = (λ h. cc, λ h. absurd (cc h.1))
  both_iff (some a) (some b) stake reward = (λ h. (cc, cc), λ h. cc)

  not_connected_stake :
      (w : Wallet) (address : String) (o : Option (Stake s keys))
      → ((a : String) → w ≢ connected a)
      → wallet_stake s keys w address ≡ ok o
      → o ≡ none
  unfolding wallet_stake
  not_connected_stake connecting address o n h = cc
  not_connected_stake idle address o n h = cc
  not_connected_stake (connected a) address o n h = absurd (n a refl)

  connected_answers :
      (w : Wallet) (a address : String)
      → w ≡ connected a
      → (wallet_stake s keys w address ≡ get_delegation s a address)
        × (wallet_reward s keys w address ≡ get_delegation_rewards_by_validator s a address)
  unfolding wallet_stake wallet_reward
  connected_answers w a address e =
      (ap (λ w. wallet_stake s keys w address) e, ap (λ w. wallet_reward s keys w address) e)

  shown_iff :
      (a address : String) (o : Option (Stake s keys))
      (r : Option (BigNumberCoin s.numbers.BigNumber)) (stake : Stake s keys)
      (reward : BigNumberCoin s.numbers.BigNumber)
      → get_delegation s a address ≡ ok o
      → get_delegation_rewards_by_validator s a address ≡ ok r
      → (both s keys o r ≡ some (stake, reward)) ↔ (
          (get_delegation s a address ≡ ok (some stake))
          × (get_delegation_rewards_by_validator s a address ≡ ok (some reward)))
  shown_iff a address o r stake reward g k =
      let (only, when) = both_iff o r stake reward in
      (
        λ h. let (x, y) = only h in (g ∙ ap ok x, k ∙ ap ok y),
        λ (x, y). let e : o ≡ some stake = cc in let e' : r ≡ some reward = cc in when (e, e'),
      )

  -- Where the page of a validator comes to be shown, it shows no stake if no wallet is connected; and
  -- for a connected wallet, it shows a stake with a reward exactly when the wallet's delegation to
  -- the validator and the reward from it were both answered.
  pub fetch_validator-stake :
      (address : String) (d : ValidatorDetail s keys)
      → fetch_validator s keys height provisions address ≡ loading ∷ loaded d ∷ []
      → (((a : String) → s.wallet ≢ connected a) → d.stake ≡ none)
        × ((a : String)
            → s.wallet ≡ connected a
            → (stake : Stake s keys) (reward : BigNumberCoin s.numbers.BigNumber)
            → (d.stake ≡ some (stake, reward)) ↔ (
                (get_delegation s a address ≡ ok (some stake))
                × (get_delegation_rewards_by_validator s a address ≡ ok (some reward))))
  unfolding fetch_validator
  fetch_validator-stake address d h =
      let (o, r, staked, rewarded, shown) =
        detail_answers address d
          (settle-eq-loaded (detail s keys height provisions address) d cc) in
      (
        λ n. shown ∙ ap (λ o. both s keys o r) (not_connected_stake s.wallet address o n staked),
        λ a e stake reward.
            let (one, two) = connected_answers s.wallet a address e in
            rw shown (shown_iff a address o r stake reward (sym one ∙ staked) (sym two ∙ rewarded)),
      )
