-- ===== src/Wallet.antt =====
-- react-app/src/providers/WalletProvider.tsx as a state machine: its React state, the calls that
-- are under way, and the writes that each makes when it settles. What the wallets and the server
-- answer, and in which order, is any.
pub mod Steps
pub mod Reconnect
use likedao.Common.{
  Bool, true, false, Option, none, some, List, [], ◌∷◌, ◌++◌, String, str_eq, if◌then◌else◌,
}

pub data ConnectionStatus : Type 0 where
  idle connecting connected : ConnectionStatus

pub data AutoConnectWalletType : Type 0 where
  keplr wallet_connect : AutoConnectWalletType

abbrev pub wallet_type_label : AutoConnectWalletType → String
wallet_type_label keplr = "keplr"
wallet_type_label wallet_connect = "walletConnect"

-- the types of the wallet clients, the accounts and the balances are any
module _ (Wallet Account Balance : Type 0) where
  -- `auto_connect_wallet_type` is the value in the local storage
  pub record WalletState : Type 0 where
    pub auto_connect_wallet_type : Option String
    pub is_connect_wallet_modal_active : Bool
    pub active_wallet : Option Wallet
    pub wallet_status : ConnectionStatus
    pub account : Option Account
    pub account_balance : Option Balance

  -- the three answers that a connection awaits
  pub record Connection : Type 0 where
    pub wallet : Wallet
    pub account : Account
    pub balance : Balance

  -- `WalletContextValue`; the two values of a connected one are asserted by `!`
  pub data WalletContextValue : Type 0 where
    context_connecting context_idle : WalletContextValue
    context_connected :
        (wallet : Wallet) (account : Option Account) (account_balance : Option Balance)
        → WalletContextValue

-- the type that the auto-connect effect connects to, if it does
unfoldable pub auto_type : Option String → Option AutoConnectWalletType
auto_type none = none
auto_type (some type) =
    if str_eq type "keplr"
    then some keplr
    else if str_eq type "walletConnect"
    then some wallet_connect
    else none

module _ {Wallet Account Balance : Type 0} where
  unfoldable pub open_connect_wallet_modal :
      WalletState Wallet Account Balance → WalletState Wallet Account Balance
  open_connect_wallet_modal s = record s { is_connect_wallet_modal_active = true }

  unfoldable pub close_connect_wallet_modal :
      WalletState Wallet Account Balance → WalletState Wallet Account Balance
  close_connect_wallet_modal s = record s { is_connect_wallet_modal_active = false }

  -- `connectToKeplr` and `connectToWalletConnect` up to their first `await`
  unfoldable pub start_connect :
      WalletState Wallet Account Balance → WalletState Wallet Account Balance
  unfolding close_connect_wallet_modal
  start_connect s = close_connect_wallet_modal (record s { wallet_status = connecting })

  -- the writes after the balance has come
  unfoldable pub connect_succeeded :
      AutoConnectWalletType
      → Connection Wallet Account Balance
      → WalletState Wallet Account Balance
      → WalletState Wallet Account Balance
  connect_succeeded type c s = record s {
    active_wallet = some c.wallet;
    account = some c.account;
    account_balance = some c.balance;
    auto_connect_wallet_type = some (wallet_type_label type);
    wallet_status = connected;
  }

  -- the two `catch` blocks, which a failed validation of the token reaches as well
  unfoldable pub connect_failed :
      AutoConnectWalletType
      → WalletState Wallet Account Balance
      → WalletState Wallet Account Balance
  connect_failed keplr s = record s { wallet_status = idle; auto_connect_wallet_type = none }
  connect_failed wallet_connect s = record s { wallet_status = idle }

  -- the `finally` of `disconnect`
  unfoldable pub disconnect_settled :
      WalletState Wallet Account Balance → WalletState Wallet Account Balance
  disconnect_settled s = record s { active_wallet = none; auto_connect_wallet_type = none }

  -- the writes of `refreshAccount`
  unfoldable pub refresh_account :
      Account → Balance → WalletState Wallet Account Balance → WalletState Wallet Account Balance
  refresh_account account balance s = record s {
    account = some account;
    account_balance = some balance;
  }

  -- the guard of `refreshAccount`
  abbrev pub can_refresh : WalletState Wallet Account Balance → Bool
  can_refresh s = elim s.active_wallet [
    | none ↦ false
    | some w ↦ elim s.wallet_status [ connected ↦ true | idle ↦ false | connecting ↦ false ]
  ]

  unfoldable pub auto_connect : WalletState Wallet Account Balance → Option AutoConnectWalletType
  unfolding auto_type
  auto_connect s = elim s.active_wallet [
    | some w ↦ none
    | none ↦ elim s.wallet_status [
      | idle ↦ auto_type s.auto_connect_wallet_type
      | connecting ↦ none
      | connected ↦ none
    ]
  ]

  unfoldable pub context_value :
      WalletState Wallet Account Balance → WalletContextValue Wallet Account Balance
  context_value s = elim s.wallet_status [
    | connecting ↦ context_connecting
    | idle ↦ context_idle
    | connected ↦ elim s.active_wallet [
      | none ↦ context_idle
      | some w ↦ context_connected w s.account s.account_balance
    ]
  ]
