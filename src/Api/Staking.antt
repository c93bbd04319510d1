-- ===== src/Api/Staking.antt =====
-- react-app/src/api/stakingAPI.ts
use mathlib.Core.Option
use text.Mathlib.Text.{find?}
use likedao.Common.{
  ℕ, Bool, true, false, Option, none, some, List, [], ◌∷◌, map, String, str_append, error, other,
  Result, ok, err, ◌>>=◌, ◌>>◌, throw_if, or_throw, all_ok, if◌then◌else◌,
}
use likedao.Message.{Coin, new_delegate_message, new_undelegate_message}
use likedao.Amount.{BigNumberCoin}
use likedao.Chain.{
  Bytes, Delegation, DelegationResponse, UnbondingEntry, UnbondingDelegation, Pool, Validator,
  Session, connected_address,
}
use likedao.Api.Cosmos.{sign_tx}
use likedao.Api.Bank.{to_token, to_minimal, amount_or_zero, minimal_coin, get_balance}
use likedao.Api.Paging.{load_pages}

-- `message.includes(part)`
abbrev pub includes : String → String → Bool
includes message part = elim (find? message part) [ none ↦ false | some _ ↦ true ]

-- `catch (err) { if (err instanceof Error && err.message.includes(part)) return null; throw err }`
unfoldable pub null_on : {A : Type 0} → String → Result (Option A) → Result (Option A)
null_on part (ok a) = ok a
null_on part (err other) = err other
null_on part (err (error message)) = if includes message part then ok none else err (error message)

module _ (s : Session) where
  open s.numbers use {BigNumber, of_string, big_zero, is_less_than, sum, to_fixed}
  open s.chain.currency use {coin_denom, coin_minimal_denom}

  unfoldable pub sign_delegate_token_tx : String → String → Option String → Result Bytes
  unfolding connected_address new_delegate_message
  sign_delegate_token_tx validator amount memo = do
    address ← connected_address s.wallet
    balance ← get_balance s
    throw_if (is_less_than balance.amount (of_string amount)) "Insufficient funds"
    sign_tx s (new_delegate_message address validator (minimal_coin s (of_string amount)) ∷ []) memo

  unfoldable pub sign_undelegate_token_tx : String → String → Option String → Result Bytes
  unfolding connected_address new_undelegate_message
  sign_undelegate_token_tx validator amount memo = do
    address ← connected_address s.wallet
    let withdrawal_amount = to_minimal s (of_string amount)
    response ← s.query.staking_delegation address validator
    balance ← or_throw (Option.bind response (λ r. r.balance)) "No delegation"
    throw_if (is_less_than (of_string balance.amount) withdrawal_amount)
        "Withdraw amount is more than delegated amount"
    let coin : Coin = record { denom = coin_minimal_denom; amount = to_fixed withdrawal_amount }
    sign_tx s (new_undelegate_message address validator coin ∷ []) memo

  unfoldable pub get_staked_balance : Result (BigNumberCoin BigNumber)
  unfolding connected_address
  get_staked_balance = do
    address ← connected_address s.wallet
    balance ← s.signer.get_balance_staked address
    ok (record { denom = coin_minimal_denom; amount = to_token s (amount_or_zero s balance) })

  -- the `reduce` over the delegations, which throws at the first that lacks a balance
  unfoldable pub add_balances : String → BigNumber → List DelegationResponse → Result BigNumber
  add_balances address previous [] = ok previous
  add_balances address previous (d ∷ ds) = do
    balance ←
        or_throw d.balance
          (str_append "Failed to fetch delegation for " (str_append address "'s staked balance"))
    add_balances address (sum (of_string balance.amount) previous) ds

  -- `fuel` bounds the number of pages that are asked for
  unfoldable pub get_address_staked_balance : ℕ → String → Option (Result (BigNumberCoin BigNumber))
  get_address_staked_balance fuel address =
      Option.map
        (λ loaded. do
          all_delegations ← loaded
          amount ← add_balances address big_zero all_delegations
          ok (record { denom = coin_denom; amount = to_token s amount }))
        (load_pages (s.query.staking_delegator_delegations address) fuel)

  -- the two nested `forEach` loops
  unfoldable pub add_entries : BigNumber → List UnbondingEntry → BigNumber
  add_entries amount [] = amount
  add_entries amount (e ∷ es) = add_entries (sum (of_string e.balance) amount) es

  unfoldable pub add_unbondings : BigNumber → List UnbondingDelegation → BigNumber
  add_unbondings amount [] = amount
  add_unbondings amount (u ∷ us) = add_unbondings (add_entries amount u.entries) us

  unfoldable pub get_unstaking_amount : ℕ → String → Option (Result (BigNumberCoin BigNumber))
  get_unstaking_amount fuel address =
      Option.map
        (λ loaded. do
          all_delegations ← loaded
          ok (record {
            denom = coin_denom;
            amount = to_token s (add_unbondings big_zero all_delegations);
          }))
        (load_pages (s.query.staking_delegator_unbonding address) fuel)

  -- `delegationRespond.delegation as Delegation` is kept as the option that it is
  abbrev pub stake_of : DelegationResponse → Option Delegation × BigNumberCoin BigNumber
  stake_of r = (
    r.delegation,
    record { denom = coin_denom; amount = to_token s (amount_or_zero s r.balance) },
  )

  unfoldable pub get_delegator_stakes :
      ℕ → String → Option (Result (List (Option Delegation × BigNumberCoin BigNumber)))
  get_delegator_stakes fuel address =
      Option.map (λ loaded. do all_delegations ← loaded; ok (map stake_of all_delegations))
        (load_pages (s.query.staking_delegator_delegations address) fuel)

  unfoldable pub get_pool : Result Pool
  get_pool = do pool ← s.query.staking_pool; or_throw pool "Failed to fetch staking pool"

  -- `!delegationResponse.balance || !delegationResponse.delegation`, and the result otherwise
  unfoldable pub fetched_delegation :
      Option Coin → Option Delegation → Result (Option (Delegation × BigNumberCoin BigNumber))
  fetched_delegation found_balance found_delegation = do
    balance ← or_throw found_balance "Failed to fetch delegation"
    delegation ← or_throw found_delegation "Failed to fetch delegation"
    ok (
        some (
          delegation,
          record { amount = to_token s (of_string balance.amount); denom = coin_denom },
        ))

  -- the rest of the `try` block of `getDelegation`
  unfoldable pub read_delegation :
      Option DelegationResponse → Result (Option (Delegation × BigNumberCoin BigNumber))
  unfolding fetched_delegation
  read_delegation none = ok none
  read_delegation (some response) = fetched_delegation response.balance response.delegation

  unfoldable pub get_delegation :
      String → String → Result (Option (Delegation × BigNumberCoin BigNumber))
  unfolding read_delegation null_on
  get_delegation delegator validator =
      null_on "NotFound"
        (do response ← s.query.staking_delegation delegator validator; read_delegation response)

  unfoldable pub get_validator : String → Result Validator
  get_validator address = do
    validator ← s.query.staking_validator address
    or_throw validator (str_append "validator with address " (str_append address " not found"))

  unfoldable pub get_validators : List String → Result (List Validator)
  get_validators addresses = all_ok get_validator addresses
