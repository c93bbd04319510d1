-- ===== src/Examples/Wallets.antt =====
-- A run of the wallet provider: a stored connection that succeeds.
use likedao.Common.{ℕ, ◌≡◌, refl, ◌≢◌, true, Option, none, some, [], ◌∷◌, String, any}
use likedao.Wallet.{
  keplr, wallet_connect, Connection, start_connect, connect_succeeded, connect_failed,
  disconnect_settled, auto_connect, auto_type, context_value, context_connected, context_connecting,
  context_idle,
}
use likedao.Wallet.Steps.{
  App, auto_connects, connection_comes, Reachable, opened, step, start, is_connection,
  validating_for, context_value_lem,
}
use likedao.Wallet.Reconnect.{auto_connect-connect_failed, connect-disconnect_lem}

abbrev connection : Connection ℕ String ℕ
connection = record { wallet = 1; account = "like1"; balance = 5 }

-- the app after the connection has come
abbrev after_connection : App ℕ String ℕ
after_connection = record {
  state =
      connect_succeeded keplr connection (start_connect (start ℕ String ℕ (some "keplr")).state);
  tasks = validating_for keplr ∷ [];
}

stored_keplr : auto_connect (start ℕ String ℕ (some "keplr")).state ≡ some keplr
unfolding auto_connect auto_type
stored_keplr = refl

stored_wallet_connect :
    auto_connect (start ℕ String ℕ (some "walletConnect")).state ≡ some wallet_connect
unfolding auto_connect auto_type
stored_wallet_connect = refl

after_connection-Reachable : Reachable ℕ String ℕ (some "keplr") after_connection
after_connection-Reachable =
    step (step opened (auto_connects stored_keplr)) (connection_comes [] [] keplr connection)

context_value_lem_example :
    ((w : ℕ) (account : Option String) (balance : Option ℕ)
      → context_value after_connection.state ≡ context_connected w account balance
      → (account ≢ none) × (balance ≢ none))
    × (context_value after_connection.state ≡ context_connecting
        → any is_connection after_connection.tasks ≡ true)
context_value_lem_example = context_value_lem ℕ String ℕ after_connection-Reachable

auto_connect-connect_failed_example :
    auto_connect (
      connect_failed wallet_connect (start_connect (start ℕ String ℕ (some "walletConnect")).state))
    ≡ some wallet_connect
auto_connect-connect_failed_example =
    auto_connect-connect_failed (start ℕ String ℕ (some "walletConnect")).state wallet_connect
      stored_wallet_connect

connect-disconnect_lem_example :
    let s' = connect_succeeded keplr connection (start ℕ String ℕ none).state in
    let s'' = disconnect_settled s' in
    (context_value s' ≡ context_connected 1 (some "like1") (some 5))
    × (auto_type s'.auto_connect_wallet_type ≡ some keplr)
    × (context_value s'' ≡ context_idle)
    × (auto_connect s'' ≡ none)
    × (auto_type s''.auto_connect_wallet_type ≡ none)
connect-disconnect_lem_example =
    connect-disconnect_lem (start ℕ String ℕ none).state keplr connection
