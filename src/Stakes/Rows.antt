-- ===== src/Stakes/Rows.antt =====
-- What the rows of the table of stakes put together.
use mathlib.Core.Path.{subst}
use mathlib.Core.List.{Mem, mem-cons_self, mem-cons_of_mem}
use likedao.Common.{
  ◌≡◌, refl, sym, ap, true, Option, some, List, [], ◌∷◌, map, String, str_eq, str_eq_iff, filter,
  any, Result, ok, >>=-eq-ok, all_ok, All, arith,
}
use likedao.Amount.{BigNumberCoin}
use likedao.Chain.{Delegation, DelegatorReward, TotalRewards, Validator, Session}
use likedao.Api.Staking.{get_pool, get_validator, get_validators}
use likedao.Api.Distribution.{reward_coin, is_among, get_delegation_rewards_by_validators}
use likedao.Stakes.{StakedValidatorInfo, delegations_of, address_of, stake_entries, entries_of}

module _ (s : Session) where
  open s.numbers use {BigNumber}

  -- the row shows the validator that the chain has for its delegation, and the one of the rewards
  -- that comes from it
  pub record IsAligned (rewards : List DelegatorReward) (row : StakedValidatorInfo BigNumber)
      : Type 0 where
    pub validator_found : get_validator s row.delegation.validator_address ≡ ok row.validator
    pub reward_given : DelegatorReward
    pub reward_listed : Mem reward_given rewards
    pub reward_from : reward_given.validator_address ≡ row.delegation.validator_address
    pub reward_shown : row.reward ≡ some (reward_coin s reward_given.reward)

  abbrev coin_of : DelegatorReward → BigNumberCoin BigNumber
  coin_of r = reward_coin s r.reward

  -- the stake that a row shows
  abbrev pub stake_of : StakedValidatorInfo BigNumber → Delegation × BigNumberCoin BigNumber
  stake_of row = (row.delegation, row.balance)

  All-more :
      (r : DelegatorReward) (rewards : List DelegatorReward)
      (rows : List (StakedValidatorInfo BigNumber))
      → All (IsAligned rewards) rows
      → All (IsAligned (r ∷ rewards)) rows
  All-more r rewards [] h = tt
  All-more r rewards (row ∷ rows) (h, hs) = (
    record {
      validator_found = h.validator_found;
      reward_given = h.reward_given;
      reward_listed = mem-cons_of_mem r h.reward_listed;
      reward_from = h.reward_from;
      reward_shown = h.reward_shown;
    },
    All-more r rewards rows hs,
  )

  aligned :
      (stakes : List (Delegation × BigNumberCoin BigNumber)) (validators : List Validator)
      (rewards : List DelegatorReward)
      → all_ok (get_validator s) (map address_of stakes) ≡ ok validators
      → map (λ r. r.validator_address) rewards ≡ map address_of stakes
      → let rows = stake_entries stakes validators (map coin_of rewards) in
        (map stake_of rows ≡ stakes) × All (IsAligned rewards) rows
  unfolding stake_entries
  aligned [] validators rewards h k = (refl, tt)
  aligned (x ∷ xs) validators [] h k = absurd cc
  aligned (x ∷ xs) validators (r ∷ rs) h k =
      let (v, found, rest) = >>=-eq-ok (get_validator s (address_of x)) _ h in
      let (vs, others, same) = >>=-eq-ok (all_ok (get_validator s) (map address_of xs)) _ rest in
      let e : v ∷ vs ≡ validators = cc in
      let (shown, all) = aligned xs vs rs others cc in
      rw (sym e) (
        ap (λ ys. x ∷ ys) shown,
        (
          record {
            validator_found = found;
            reward_given = r;
            reward_listed = mem-cons_self;
            reward_from = cc;
            reward_shown = refl;
          },
          All-more r rs _ all,
        ),
      )

  -- none of the rewards is left out
  filter_among :
      (addresses : List String) (rewards : List DelegatorReward)
      → All (λ r. is_among s addresses r.validator_address ≡ true) rewards
      → filter (λ r. is_among s addresses r.validator_address) rewards ≡ rewards
  filter_among addresses [] h = refl
  filter_among addresses (r ∷ rs) h = ground (arith, filter_among addresses rs h.1, h.0)

  among_listed :
      (a : String) (addresses : List String)
      → any (λ b. str_eq b a) addresses ≡ true
      → (c : String) → any (λ b. str_eq b a) (c ∷ addresses) ≡ true
  among_listed a addresses h c = ground arith

  -- a part of the list is among the list
  All-among :
      (addresses : List String) (rewards : List DelegatorReward)
      → All (λ (a : String). is_among s addresses a ≡ true) (map (λ r. r.validator_address) rewards)
      → All (λ r. is_among s addresses r.validator_address ≡ true) rewards
  All-among addresses [] h = tt
  All-among addresses (r ∷ rs) h = (h.0, All-among addresses rs h.1)

  weaken :
      (c : String) (addresses names : List String)
      → All (λ (a : String). is_among s addresses a ≡ true) names
      → All (λ (a : String). is_among s (c ∷ addresses) a ≡ true) names
  weaken c addresses [] h = tt
  weaken c addresses (n ∷ ns) h = (among_listed n addresses h.0 c, weaken c addresses ns h.1)

  among_itself :
      (addresses : List String) → All (λ (a : String). is_among s addresses a ≡ true) addresses
  among_itself [] = tt
  among_itself (a ∷ addresses) =
      (ground (arith, str_eq_iff a a), weaken a addresses addresses (among_itself addresses))

  -- the rewards are all the chain's, in its order
  rewards_in_order :
      (address : String) (names : List String) (total : TotalRewards)
      → s.query.delegation_total_rewards address ≡ ok total
      → map (λ r. r.validator_address) total.rewards ≡ names
      → get_delegation_rewards_by_validators s address names ≡ ok (map coin_of total.rewards)
  unfolding get_delegation_rewards_by_validators
  rewards_in_order address names total answered ordered =
      let among =
        subst (λ (ns : List String). All (λ (a : String). is_among s names a ≡ true) ns)
          (sym ordered) (among_itself names) in
      simp (answered, filter_among names total.rewards (All-among names total.rewards among))

  -- If the chain lists the rewards of an address by validator in the order of its delegations, then
  -- the table shows all the delegations in their order, each with the validator that the chain has
  -- for it and the one of these rewards that comes from that validator.
  pub entries_of-IsAligned :
      {P : Type 0} (provisions : Result P) (address : String)
      (stakes : List (Option Delegation × BigNumberCoin BigNumber))
      (delegations : List (Delegation × BigNumberCoin BigNumber)) (total : TotalRewards)
      (rows : List (StakedValidatorInfo BigNumber))
      → delegations_of stakes ≡ ok delegations
      → s.query.delegation_total_rewards address ≡ ok total
      → map (λ r. r.validator_address) total.rewards ≡ map address_of delegations
      → entries_of s provisions address (ok stakes) ≡ ok rows
      → (map stake_of rows ≡ delegations) × All (IsAligned total.rewards) rows
  unfolding entries_of get_validators
  entries_of-IsAligned provisions address stakes delegations total rows named answered ordered h =
      let names = map address_of delegations in
      let coins = map coin_of total.rewards in
      let h = simp named at h in
      let (p, has_provisions, h) = >>=-eq-ok provisions _ h in
      let (pool, has_pool, h) = >>=-eq-ok (get_pool s) _ h in
      let h = simp (rewards_in_order address names total answered ordered) at h in
      let (validators, found, h) = >>=-eq-ok (all_ok (get_validator s) names) _ h in
      let e : stake_entries delegations validators coins ≡ rows = cc in
      rw (sym e) (aligned delegations validators total.rewards found ordered)
