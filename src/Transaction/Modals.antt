-- ===== src/Transaction/Modals.antt =====
-- The modals of react-app/src/providers/TransactionProvider.tsx and its effect that loads the
-- rewards, as a state machine: each render with another wallet asks again, and the answers come in
-- any order. The submissions only close the modal here.
use likedao.Common.{Option, none, some, List, [], ◌∷◌, ◌++◌, ◌≡◌, String, Result, ok, err}
use likedao.Amount.{BigNumberCoin}
use likedao.Chain.{Session, Wallet, connecting, idle, connected}
use likedao.Api.Distribution.{get_total_delegation_rewards}
use likedao.Transaction.{TransactionModal, send_token, receive_token, collect_rewards}

-- `asked` are the requests for the rewards that are under way, by the address that they ask for
pub record ProviderState (B : Type 0) : Type 0 where
  pub wallet : Wallet
  pub active_modal : Option TransactionModal
  pub available_rewards : B
  pub asked : List String

-- the modal that is shown, with what it is given
pub data ShownModal (B : Type 0) : Type 0 where
  no_modal_shown : ShownModal B
  send_token_shown collect_rewards_shown : B → ShownModal B
  user_address_shown : String → ShownModal B

-- the address of the connected wallet, or the empty text
abbrev pub shown_address : Wallet → String
shown_address connecting = ""
shown_address idle = ""
shown_address (connected address) = address

module _ {B : Type 0} where
  unfoldable pub open_modal : TransactionModal → ProviderState B → ProviderState B
  open_modal modal s = record s { active_modal = some modal }

  unfoldable pub close_modals : ProviderState B → ProviderState B
  close_modals s = record s { active_modal = none }

  -- the effect, which runs for each wallet
  unfoldable pub on_wallet : Wallet → ProviderState B → ProviderState B
  on_wallet connecting s = record s { wallet = connecting }
  on_wallet idle s = record s { wallet = idle }
  on_wallet (connected address) s = record s {
    wallet = connected address;
    asked = address ∷ s.asked;
  }

  -- what follows an answer: the `then` block, or the log of the `catch` block
  unfoldable pub on_rewards :
      Result (BigNumberCoin B) → List String → ProviderState B → ProviderState B
  on_rewards (ok rewards) asked s = record s { available_rewards = rewards.amount; asked = asked }
  on_rewards (err e) asked s = record s { asked = asked }

  -- `zero` is `new BigNumber(0)` and `balance` the account's balance where there is one
  unfoldable pub user_balance : B → B → Wallet → B
  user_balance zero balance connecting = zero
  user_balance zero balance idle = zero
  user_balance zero balance (connected address) = balance

  unfoldable pub shown_modal : B → B → ProviderState B → ShownModal B
  unfolding user_balance
  shown_modal zero balance s = elim s.active_modal [
    | none ↦ no_modal_shown
    | some modal ↦ elim modal [
      | send_token ↦ send_token_shown (user_balance zero balance s.wallet)
      | receive_token ↦ user_address_shown (shown_address s.wallet)
      | collect_rewards ↦ collect_rewards_shown s.available_rewards
    ]
  ]

-- the addresses of the wallets that a run may connect
abbrev pub IsAllowed : (String → Type 0) → Wallet → Type 0
IsAllowed P connecting = Unit
IsAllowed P idle = Unit
IsAllowed P (connected address) = P address

-- `Gives address answer`: the request of that address may come to that answer, then or later
module _ {B : Type 0} (Gives : String → Result (BigNumberCoin B) → Type 0)
    (P : String → Type 0) where
  pub data Step : ProviderState B → ProviderState B → Type 0 where
    opens : {s : ProviderState B} (modal : TransactionModal) → Step s (open_modal modal s)
    closes : {s : ProviderState B} → Step s (close_modals s)
    renders :
        {s : ProviderState B} (wallet : Wallet) → IsAllowed P wallet → Step s (on_wallet wallet s)
    answers :
        {s : ProviderState B} (before : List String) (address : String) (rest : List String)
        (answer : Result (BigNumberCoin B))
        → Gives address answer
        → s.asked ≡ before ++ address ∷ rest
        → Step s (on_rewards answer (before ++ rest) s)

  pub data Run : ProviderState B → ProviderState B → Type 0 where
    stays : {s : ProviderState B} → Run s s
    goes : {s t u : ProviderState B} → Run s t → Step t u → Run s u

-- the answer of the API for the wallet of an address, on the chain of the session `s`
unfoldable pub Answered :
    (s : Session) → String → Result (BigNumberCoin s.numbers.BigNumber) → Type 0
Answered s address answer =
    get_total_delegation_rewards (record s { wallet = connected address }) ≡ answer

abbrev pub initial_provider : {B : Type 0} → B → ProviderState B
initial_provider zero = record {
  wallet = idle;
  active_modal = none;
  available_rewards = zero;
  asked = [];
}
