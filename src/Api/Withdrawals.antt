-- ===== src/Api/Withdrawals.antt =====
-- What a withdrawal of rewards signs.
use likedao.Common.{
  ◌≡◌, refl, ◌≢◌, ◌↔◌, false, Option, List, [], ◌∷◌, ◌∙◌, map, String, filter, ok, >>=-eq-ok, sym,
  ap, any, All, Bool-cases, inl, inr, str_eq, str_eq_iff, true, ◌++◌, arith,
}
use mathlib.Core.Path.{subst}
use likedao.Message.{
  Coin, EncodeObject, withdraw_delegator_reward, new_withdraw_delegator_reward_message,
}
use likedao.Chain.{Bytes, DelegatorReward, TotalRewards, Session, connected}
use likedao.Api.Cosmos.{sign_tx}
use likedao.Api.Signing.{reached}
use likedao.Api.Distribution.{
  is_related, withdraw_request, sign_requests, sign_withdraw_delegation_rewards_tx,
}

module _ (s : Session) (address : String) (is_connected : s.wallet ≡ connected address) where
  -- The messages that are to be signed for the chain's rewards: one for the validator of each reward
  -- that has a coin of the minimal denomination, in the order of the rewards.
  pub data Requests : List DelegatorReward → List EncodeObject → Type 0 where
    done : Requests [] []
    withdrawn :
        {rewards : List DelegatorReward} {messages : List EncodeObject} (r : DelegatorReward)
        (before : List Coin) (amount : String) (rest : List Coin)
        → r.reward
          ≡ before ++ record { denom = s.chain.currency.coin_minimal_denom; amount = amount } ∷ rest
        → Requests rewards messages
        → Requests (r ∷ rewards) (
            record {
              type_url = "/cosmos.distribution.v1beta1.MsgWithdrawDelegatorReward";
              value = withdraw_delegator_reward address r.validator_address;
            }
            ∷ messages)
    passed_over :
        {rewards : List DelegatorReward} {messages : List EncodeObject} (r : DelegatorReward)
        → All (λ (c : Coin). c.denom ≢ s.chain.currency.coin_minimal_denom) r.reward
        → Requests rewards messages
        → Requests (r ∷ rewards) messages

  -- what is needed to withdraw rewards
  pub record Withdraws (memo : Option String) (tx : Bytes) : Type 0 where
    pub total : TotalRewards
    pub messages : List EncodeObject
    pub answered : s.query.delegation_total_rewards address ≡ ok total
    pub requested : Requests total.rewards messages
    pub some_requested : messages ≢ []
    pub signed : sign_tx s messages memo ≡ ok tx

  minimal_found :
      (coins : List Coin)
      → any (λ (c : Coin). str_eq c.denom s.chain.currency.coin_minimal_denom) coins ≡ true
      → (before : List Coin) × (amount : String) × (rest : List Coin) × (coins
          ≡ before
            ++ record { denom = s.chain.currency.coin_minimal_denom; amount = amount } ∷ rest)
  minimal_found [] h = absurd cc
  minimal_found (c ∷ coins) h =
      elim (Bool-cases (str_eq c.denom s.chain.currency.coin_minimal_denom)) [
        | inl e ↦
            let same = (str_eq_iff c.denom s.chain.currency.coin_minimal_denom).0 e in
            ([], c.amount, coins, ap (λ d. record { denom = d; amount = c.amount } ∷ coins) same)
        | inr e ↦
            let (before, amount, rest, same) = minimal_found coins (ground (arith, e, h)) in
            (c ∷ before, amount, rest, ap (λ cs. c ∷ cs) same)
      ]

  minimal_counts :
      (before : List Coin) (amount : String) (rest : List Coin)
      → any
          (λ (c : Coin). str_eq c.denom s.chain.currency.coin_minimal_denom)
          (before ++ record { denom = s.chain.currency.coin_minimal_denom; amount = amount } ∷ rest)
        ≡ true
  minimal_counts [] amount rest =
      let d = s.chain.currency.coin_minimal_denom in ground (arith, (str_eq_iff d d).1 refl)
  minimal_counts (b ∷ before) amount rest = ground (arith, minimal_counts before amount rest)

  no_minimal :
      (coins : List Coin)
      → (any (λ (c : Coin). str_eq c.denom s.chain.currency.coin_minimal_denom) coins ≡ false)
        ↔ All (λ (c : Coin). c.denom ≢ s.chain.currency.coin_minimal_denom) coins
  no_minimal [] = (λ h. tt, λ h. refl)
  no_minimal (c ∷ coins) =
      let d = s.chain.currency.coin_minimal_denom in
      (
        λ h. (
          λ e. let f = (str_eq_iff c.denom d).1 e in absurd (ground (arith, f, h)),
          (no_minimal coins).0 (ground (arith, h)),
        ),
        λ h. elim (Bool-cases (str_eq c.denom d)) [
          | inl e ↦ absurd (h.0 ((str_eq_iff c.denom d).0 e))
          | inr e ↦ ground (arith, e, (no_minimal coins).1 h.1)
        ],
      )

  is_related_yes :
      (r : DelegatorReward) (rewards : List DelegatorReward)
      → is_related s r ≡ true
      → filter (is_related s) (r ∷ rewards) ≡ r ∷ filter (is_related s) rewards
  is_related_yes r rewards h = ground (arith, h)

  is_related_no :
      (r : DelegatorReward) (rewards : List DelegatorReward)
      → is_related s r ≡ false
      → filter (is_related s) (r ∷ rewards) ≡ filter (is_related s) rewards
  is_related_no r rewards h = ground (arith, h)

  -- what the code signs for the rewards
  abbrev messages_for : List DelegatorReward → List EncodeObject
  messages_for rewards = map (withdraw_request s address) (filter (is_related s) rewards)

  -- these are the messages, and there are no others
  messages_for-Requests : (rewards : List DelegatorReward) → Requests rewards (messages_for rewards)
  unfolding new_withdraw_delegator_reward_message
  messages_for-Requests [] = done
  messages_for-Requests (r ∷ rewards) = elim (Bool-cases (is_related s r)) [
    | inl e ↦
        let (before, amount, rest, same) = minimal_found r.reward e in
        subst (λ rs. Requests (r ∷ rewards) (map (withdraw_request s address) rs))
          (sym (is_related_yes r rewards e))
          (withdrawn r before amount rest same (messages_for-Requests rewards))
    | inr e ↦
        subst (λ rs. Requests (r ∷ rewards) (map (withdraw_request s address) rs))
          (sym (is_related_no r rewards e))
          (passed_over r ((no_minimal r.reward).0 e) (messages_for-Requests rewards))
  ]

  Requests-unique :
      {rewards : List DelegatorReward} {messages : List EncodeObject}
      → Requests rewards messages
      → messages_for rewards ≡ messages
  unfolding new_withdraw_delegator_reward_message
  Requests-unique done = refl
  Requests-unique (withdrawn {rewards} r before amount rest same requests) =
      let e : is_related s r ≡ true =
        subst
          (λ cs. any (λ (c : Coin). str_eq c.denom s.chain.currency.coin_minimal_denom) cs ≡ true)
          (sym same) (minimal_counts before amount rest) in
      ap (map (withdraw_request s address)) (is_related_yes r rewards e)
      ∙ ap (λ ms. withdraw_request s address r ∷ ms) (Requests-unique requests)
  Requests-unique (passed_over {rewards} r none_is requests) =
      ap (map (withdraw_request s address))
        (is_related_no r rewards ((no_minimal r.reward).1 none_is))
      ∙ Requests-unique requests

  sign_requests_iff :
      (rewards : List DelegatorReward) (memo : Option String) (tx : Bytes)
      → (sign_requests s address rewards memo ≡ ok tx) ↔ (
          (map (withdraw_request s address) rewards ≢ [])
          × (sign_tx s (map (withdraw_request s address) rewards) memo ≡ ok tx))
  unfolding sign_requests
  sign_requests_iff [] memo tx = (λ h. cc, λ h. absurd (h.0 refl))
  sign_requests_iff (r ∷ rs) memo tx = (λ h. (λ e. absurd cc, h), λ h. h.1)

  withdraw_sound :
      (memo : Option String) (tx : Bytes)
      → sign_withdraw_delegation_rewards_tx s memo ≡ ok tx
      → Withdraws memo tx
  unfolding sign_withdraw_delegation_rewards_tx
  withdraw_sound memo tx h =
      let h = simp (reached s address is_connected) at h in
      let (total, answered, h) = >>=-eq-ok (s.query.delegation_total_rewards address) _ h in
      let (some_requested, signed) =
        (sign_requests_iff (filter (is_related s) total.rewards) memo tx).0 h in
      record {
        total = total;
        messages = messages_for total.rewards;
        answered = answered;
        requested = messages_for-Requests total.rewards;
        some_requested = some_requested;
        signed = signed;
      }

  withdraw_complete :
      (memo : Option String) (tx : Bytes)
      → Withdraws memo tx
      → sign_withdraw_delegation_rewards_tx s memo ≡ ok tx
  unfolding sign_withdraw_delegation_rewards_tx
  withdraw_complete memo tx a =
      let same = sym (Requests-unique a.requested) in
      simp (reached s address is_connected, a.answered)
        ((sign_requests_iff (filter (is_related s) a.total.rewards) memo tx).1
          (subst (λ ms. (ms ≢ []) × (sign_tx s ms memo ≡ ok tx)) same (a.some_requested, a.signed)))

  -- A connected wallet signs a withdrawal exactly when the chain lists some reward with a coin of
  -- the minimal denomination, and it signs one request of its own address for the validator of each
  -- such reward, in the order of the rewards, and none for a reward that has no such coin.
  pub sign_withdraw_delegation_rewards_tx_iff :
      (memo : Option String) (tx : Bytes)
      → (sign_withdraw_delegation_rewards_tx s memo ≡ ok tx) ↔ Withdraws memo tx
  sign_withdraw_delegation_rewards_tx_iff memo tx =
      (withdraw_sound memo tx, withdraw_complete memo tx)
