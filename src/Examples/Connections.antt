-- ===== src/Examples/Connections.antt =====
-- A connection whose stored account is gone, which asks for a new session.
use likedao.Common.{◌≡◌, refl, some, [], ◌∷◌, Result, ok, err, error}
use likedao.Clients.{
  HexAccount, Connector, WalletConnectLib, AccountData, connect, account_of, stored_account,
  asked_account, wallet_of, finish, sign_with_wallet_connect,
}
use likedao.Clients.Reconnect.{Repeats, connect_lem}

abbrev hex_account : HexAccount
hex_account = record { address = "a1b2"; algo = "secp256k1"; pub_key = "03ff" }

abbrev wallet_connect : WalletConnectLib
wallet_connect = record {
  open_session = λ attempt. ok "peer2";
  get_accounts = λ attempt. ok (some hex_account);
  kill_session = λ attempt. ok tt;
  stringify = λ account. "json";
  parse = λ text. ok (some hex_account);
  encode = λ prefix hex. ok "like1";
  hex_bytes = λ hex. 3 ∷ 255 ∷ [];
  connect_with_signer = λ attempt. ok tt;
}

abbrev lost : Connector
lost = record { session = some "peer1"; storage = [] }

connect_lem_example :
    (r : Result AccountData) × (t : Connector) × (connect wallet_connect "like" 2 0 lost
      ≡ some (r, t))
    × Repeats wallet_connect "like" r t
connect_lem_example =
    connect_lem wallet_connect "like" (λ k a answered. (cc, refl)) (λ k h. absurd cc) 0 0 lost

new_session :
    connect wallet_connect "like" 2 0 lost
    ≡ some (
      ok (record { address = "like1"; algo = "secp256k1"; pubkey = 3 ∷ 255 ∷ [] }),
      record { session = some "peer2"; storage = ("LS/WalletConnectPeerId-peer2", "json") ∷ [] },
    )
unfolding connect account_of stored_account asked_account wallet_of finish
new_session = refl

other_signer :
    sign_with_wallet_connect
      (λ text. text)
      "like1"
      (λ signer doc. ok (record { signed = doc; signature = "signature" }))
      "like2"
      "hello"
    ≡ err (error "Signer like2 doesn't match public key address")
unfolding sign_with_wallet_connect
other_signer = refl
