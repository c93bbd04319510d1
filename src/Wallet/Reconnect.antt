-- ===== src/Wallet/Reconnect.antt =====
-- When the wallet provider connects by itself.
use likedao.Common.{◌≡◌, refl, none, some, arith}
use likedao.Wallet.{
  AutoConnectWalletType, keplr, wallet_connect, WalletState, context_connected, context_idle,
  Connection, start_connect, connect_succeeded, connect_failed, disconnect_settled, auto_type,
  auto_connect, context_value, close_connect_wallet_modal,
}

module _ {Wallet Account Balance : Type 0} where
  -- An automatic connection that fails is not tried again with Keplr. With WalletConnect it is: the
  -- state after the failure starts the same connection again, and again after its next failure.
  pub auto_connect-connect_failed :
      (s : WalletState Wallet Account Balance) (type : AutoConnectWalletType)
      → auto_connect s ≡ some type
      → auto_connect (connect_failed type (start_connect s))
        ≡ elim type [ keplr ↦ none | wallet_connect ↦ some wallet_connect ]
  unfolding auto_connect connect_failed start_connect close_connect_wallet_modal auto_type
  auto_connect-connect_failed s keplr h = ground arith
  auto_connect-connect_failed s wallet_connect h = ground arith

  -- A wallet that has been connected is shown as connected, and its reload connects to the same type
  -- of wallet by itself; once it is disconnected, nothing is shown as connected, the provider does
  -- not connect by itself, and neither does a reload.
  pub connect-disconnect_lem :
      (s : WalletState Wallet Account Balance) (type : AutoConnectWalletType)
      (c : Connection Wallet Account Balance)
      → let s' = connect_succeeded type c s in
        let s'' = disconnect_settled s' in
        (context_value s' ≡ context_connected c.wallet (some c.account) (some c.balance))
        × (auto_type s'.auto_connect_wallet_type ≡ some type)
        × (context_value s'' ≡ context_idle)
        × (auto_connect s'' ≡ none)
        × (auto_type s''.auto_connect_wallet_type ≡ none)
  unfolding auto_connect connect_succeeded disconnect_settled auto_type context_value
  connect-disconnect_lem s keplr c = (refl, refl, refl, refl, refl)
  connect-disconnect_lem s wallet_connect c = (refl, refl, refl, refl, refl)
