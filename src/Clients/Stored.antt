-- ===== src/Clients/Stored.antt =====
-- What the account of a connection through WalletConnect comes to, in each case.
use likedao.Common.{ℕ, ◌≡◌, Option, none, some, String, ok, err, Thrown, arith}
use likedao.Clients.{
  HexAccount, Connector, WalletConnectLib, get_wallet_connect_peer_store_key, set_item,
  asked_account, stored_account, account_of,
}

module _ (lib : WalletConnectLib) (prefix : String) where
  pub stored_before :
      (m : ℕ) (peer_id : String) (c : Connector) (a : HexAccount)
      → c.session ≡ some peer_id
      → stored_account lib prefix peer_id c ≡ ok (some a)
      → account_of lib prefix m c ≡ (ok (some a), c)
  unfolding account_of
  stored_before m peer_id c a h stored = ground (arith, h, stored)

  -- the connector after a new session has been asked for its account
  abbrev pub opened_connector : String → Connector → Option HexAccount → Connector
  opened_connector peer_id c account = record {
    session = some peer_id;
    storage =
        set_item (get_wallet_connect_peer_store_key peer_id) (lib.stringify account) c.storage;
  }

  pub asked :
      (n : ℕ) (c : Connector) (peer_id : String) (account : Option HexAccount)
      → lib.open_session n ≡ ok peer_id
      → lib.get_accounts n ≡ ok account
      → asked_account lib prefix n c ≡ (ok account, opened_connector peer_id c account)
  unfolding asked_account
  asked n c peer_id account opened answered = ground (arith, opened, answered)

  pub unopened :
      (n : ℕ) (c : Connector) (e : Thrown)
      → lib.open_session n ≡ err e
      → asked_account lib prefix n c ≡ (err e, c)
  unfolding asked_account
  unopened n c e failed = ground (arith, failed)

  pub unanswered :
      (n : ℕ) (c : Connector) (peer_id : String) (e : Thrown)
      → lib.open_session n ≡ ok peer_id
      → lib.get_accounts n ≡ err e
      → asked_account lib prefix n c ≡ (err e, record c { session = some peer_id })
  unfolding asked_account
  unanswered n c peer_id e opened failed = ground (arith, opened, failed)

  pub in_new_session :
      (n : ℕ) (c : Connector)
      → c.session ≡ none
      → account_of lib prefix n c ≡ asked_account lib prefix n c
  unfolding account_of
  in_new_session n c ended = ground (arith, ended)

  pub in_session :
      (n : ℕ) (c : Connector) (peer_id : String)
      → c.session ≡ some peer_id
      → account_of lib prefix n c ≡ (stored_account lib prefix peer_id c, c)
  unfolding account_of
  in_session n c peer_id live = ground (arith, live)
