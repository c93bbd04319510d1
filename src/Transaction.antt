-- ===== src/Transaction.antt =====
-- The two submissions of react-app/src/providers/TransactionProvider.tsx: what each shows, in order.
pub mod Outcome
pub mod Screens
pub mod Chains
pub mod Modals
pub mod Rewards
pub mod Openers
use likedao.Common.{Option, none, some, List, [], ◌∷◌, String, Thrown, Result, ok, err}
use likedao.Chain.{Bytes, DeliverTxResponse, Session, Wallet, connecting, idle, connected}
use likedao.Api.Cosmos.{broadcast_tx}
use likedao.Api.Bank.{sign_send_token_tx}
use likedao.Api.Distribution.{sign_withdraw_delegation_rewards_tx}

pub data TransactionModal : Type 0 where
  send_token receive_token collect_rewards : TransactionModal

-- what the user sees, and the refresh of the account
pub data Event : Type 0 where
  modal_set : Option TransactionModal → Event
  broadcasting broadcast_succeeded account_refreshed : Event
  error_shown : Thrown → Event

-- the `catch` block
abbrev pub fail_with : Thrown → List Event
fail_with e = error_shown e ∷ modal_set none ∷ []

pub after_refresh : Result (Unit {0}) → List Event
after_refresh (ok _) = account_refreshed ∷ []
after_refresh (err e) = fail_with e

-- `refreshed` is what `wallet.refreshAccount()` comes to
module _ (s : Session) (refreshed : Result (Unit {0})) where
  pub after_broadcast : Result DeliverTxResponse → List Event
  unfolding after_refresh
  after_broadcast (ok response) = broadcast_succeeded ∷ after_refresh refreshed
  after_broadcast (err e) = fail_with e

  pub after_sign : Result Bytes → List Event
  unfolding after_broadcast
  after_sign (ok tx) = modal_set none ∷ broadcasting ∷ after_broadcast (broadcast_tx s tx)
  after_sign (err e) = fail_with e

  -- the guard and the `try` block
  pub submit_as : Wallet → Result Bytes → List Event
  unfolding after_sign
  submit_as connecting signed = []
  submit_as idle signed = []
  submit_as (connected address) signed = after_sign signed

  unfoldable pub submit_send_request : String → String → Option String → List Event
  unfolding submit_as
  submit_send_request recipent amount memo =
      submit_as s.wallet (sign_send_token_tx s recipent amount memo)

  unfoldable pub submit_collect_rewards_request : List Event
  unfolding submit_as
  submit_collect_rewards_request = submit_as s.wallet (sign_withdraw_delegation_rewards_tx s none)
